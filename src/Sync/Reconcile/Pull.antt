-- ===== src/Sync/Reconcile/Pull.antt =====
-- The pull of a file in `do_reconcile` of crates/tusher-sync/src/coordinator.rs.
use t_u_s_h_e_r.Base.{
  ℕ, ◌^◌, ◌<◌, ◌≡◌, inl, inr, refl, sym, ap, ◌∙◌, false, none, [], ◌∷◌, ◌++◌, arith, bytes_eq,
  Outcome, ok, err, panic, Outcome-cases,
}
use t_u_s_h_e_r.Base.Int.{ℤ}
use t_u_s_h_e_r.Base.Text.{Text}
use t_u_s_h_e_r.Base.FilePath.{join}
use t_u_s_h_e_r.Core.Types.{NodeId}
use t_u_s_h_e_r.Core.Protocol.{Message, SyncEvent, upsert, file_pull_req}
use t_u_s_h_e_r.Metadata.Models.{ReconciliationAction, up_to_date}
use t_u_s_h_e_r.Metadata.Db.{Rusqlite}
use t_u_s_h_e_r.Metadata.Reconciler.{reconcile_event, download}
use t_u_s_h_e_r.Metadata.Service.{apply_reconciliation_action}
use t_u_s_h_e_r.Metadata.Service.Convergence.{reconcile_event-apply_download}
use t_u_s_h_e_r.Transfer.Hash.{Sha256}
use t_u_s_h_e_r.Sync.State.{SyncError, Connection, Coordinator, send, suppress}
use t_u_s_h_e_r.Sync.Reconcile.{has_content, ◌then?◌, apply_in_db, pull, apply_action}

pub then?_ok :
    (step : Coordinator × Outcome SyncError (Unit {0}))
    (next : Coordinator → Coordinator × Outcome SyncError (Unit {0})) (c' : Coordinator)
    → step then? next ≡ (c', ok tt)
    → (d : Coordinator) × (step ≡ (d, ok tt)) × (next d ≡ (c', ok tt))
then?_ok (d, ok u) next c' h = (d, refl, h)
then?_ok (d, err e) next c' h = absurd (ground arith)
then?_ok (d, panic) next c' h = absurd (ground arith)

send_ok :
    (p : NodeId) (conn : Connection) (msg : Message) (c d : Coordinator)
    → send p conn msg c ≡ (d, ok tt)
    → d ≡ record c { sent = c.sent ++ ((p, msg) ∷ []) }
unfolding send
send_ok p conn msg c d h = ground arith

module _ (driver : Rusqlite) (sha : Sha256) (format_time : ℤ → Text) (now : ℕ) (timestamp : ℤ) where
  apply_in_db_ok :
      (a : ReconciliationAction) (c c' : Coordinator)
      → apply_in_db driver sha format_time now timestamp a c ≡ (c', ok tt)
      → (apply_reconciliation_action timestamp a c.db ≡ ok c'.db)
        × (c'.transfer ≡ c.transfer)
        × (c'.sent ≡ c.sent)
  unfolding apply_in_db
  apply_in_db_ok a c c' h = elim (Outcome-cases (apply_reconciliation_action timestamp a c.db)) [
    | inl (db, e) ↦ (ground arith, ground arith, ground arith)
    | inr (inl (e, f)) ↦ absurd (ground arith)
    | inr (inr f) ↦ absurd (ground arith)
  ]

  -- A pull that succeeds has asked the peer for the file and recorded the event, before any of the
  -- content is there: the disk is as before, without the content, and the same event is from then
  -- on up to date.
  pub apply_action-download :
      (p : NodeId) (conn : Connection) (root : Text) (event : SyncEvent) (c c' : Coordinator)
      → event.event_type ≡ upsert
      → event.size_bytes < 2 ^ 63
      → event.version < 2 ^ 63
      → has_content sha (join root event.relative_path) event.content_hash c.transfer.disk ≡ false
      → apply_action driver sha format_time now timestamp p conn root (download event) c
        ≡ (c', ok tt)
      → (c'.transfer ≡ c.transfer)
        × (c'.sent
            ≡ c.sent
              ++ ((p, file_pull_req event.folder_id event.file_id event.relative_path none) ∷ []))
        × (reconcile_event format_time driver c'.db event
            ≡ ok (up_to_date event.file_id event.version))
  unfolding apply_action pull suppress
  apply_action-download p conn root event c c' kind hs hv absent h =
      let request = file_pull_req event.folder_id event.file_id event.relative_path none in
      let asked = suppress now (join root event.relative_path) 10000 c in
      let pulled : send p conn request asked
            then? apply_in_db driver sha format_time now timestamp (download event)
          ≡ (c', ok tt) =
        sym (rw absent refl) ∙ h in
      let (d, sent, stored) =
        then?_ok (send p conn request asked)
          (apply_in_db driver sha format_time now timestamp (download event)) c' pulled in
      let out = send_ok p conn request asked d sent in
      let (recorded, transfer', sent') = apply_in_db_ok (download event) d c' stored in
      (
        transfer' ∙ ap (λ x. x.transfer) out,
        sent' ∙ ap (λ x. x.sent) out,
        (reconcile_event-apply_download format_time driver timestamp event d.db kind hs hv
            recorded).1,
      )
