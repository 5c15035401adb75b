-- ===== src/Sync/Reconcile/Guard.antt =====
-- The maps of `SyncCoordinator` over `reconcile_with_peer` of crates/tusher-sync/src/coordinator.rs.
use t_u_s_h_e_r.Base.{
  ℕ, ◌≡◌, ◌≢◌, refl, ◌∙◌, ◌⊎◌, inl, inr, Bool-cases, Option, none, some, List, [], ◌∷◌, arith,
  bytes_eq, Outcome, ok, err, panic, Outcome-cases,
}
use t_u_s_h_e_r.Base.Int.{ℤ}
use t_u_s_h_e_r.Base.Text.{Text}
use t_u_s_h_e_r.Base.FilePath.{join}
use t_u_s_h_e_r.Core.Types.{NodeId}
use t_u_s_h_e_r.Core.Protocol.{Message, SyncEvent, manifest_resp, file_pull_req}
use t_u_s_h_e_r.Metadata.Models.{
  ReconciliationAction, up_to_date, download_needed, delete_local, conflict, ignore,
}
use t_u_s_h_e_r.Metadata.Db.{Rusqlite}
use t_u_s_h_e_r.Metadata.Service.{
  handle_manifest_request, apply_reconciliation_action, reconcile_remote_events,
}
use t_u_s_h_e_r.Transfer.Hash.{Sha256}
use t_u_s_h_e_r.Transfer.Disk.{exists}
use t_u_s_h_e_r.Sync.State.{
  SyncError, database, Connection, Coordinator, send, suppress, trigger_sync, broadcast,
}
use t_u_s_h_e_r.Sync.Reconcile.{
  ignoring_error, has_content, ◌then?◌, remove_file, manifest_of, apply_in_db, pull, apply_action,
  apply_actions, set_last_seen, apply_manifest,
}

abbrev Step : Type 0
Step = Coordinator × Outcome SyncError (Unit {0})

-- What the actions leave alone.
abbrev pub Kept : Coordinator → Coordinator → Type 0
Kept c c' =
    (c'.last_seen_seqs ≡ c.last_seen_seqs)
    × (c'.in_flight_syncs ≡ c.in_flight_syncs)
    × (c'.registered_folders ≡ c.registered_folders)
    × (c'.active_connections ≡ c.active_connections)

pub Kept-refl : (c : Coordinator) → Kept c c
Kept-refl c = (refl, refl, refl, refl)

pub Kept-trans : (c d e : Coordinator) → Kept c d → Kept d e → Kept c e
Kept-trans c d e h k =
    let (seen, flight, folders, conns) = h in
    let (seen', flight', folders', conns') = k in
    (seen' ∙ seen, flight' ∙ flight, folders' ∙ folders, conns' ∙ conns)

then?-Kept :
    (c : Coordinator) (step : Step) (next : Coordinator → Step)
    → Kept c step.0
    → ((d : Coordinator) → Kept d (next d).0)
    → Kept c (step then? next).0
then?-Kept c (d, ok u) next h k = Kept-trans c d (next d).0 h (k d)
then?-Kept c (d, err e) next h k = h
then?-Kept c (d, panic) next h k = h

pub send-Kept :
    (p : NodeId) (conn : Connection) (msg : Message) (c : Coordinator)
    → Kept c (send p conn msg c).0
unfolding send
send-Kept p conn msg c = elim (Bool-cases (conn.accepts msg)) [
  | inl h ↦ rw h (Kept-refl c)
  | inr h ↦ rw h (Kept-refl c)
]

ignoring_error-Kept :
    (c : Coordinator) (step : Step) → Kept c step.0 → Kept c (ignoring_error step).0
ignoring_error-Kept c (d, ok u) h = h
ignoring_error-Kept c (d, err e) h = h
ignoring_error-Kept c (d, panic) h = h

module _ (driver : Rusqlite) where
  trigger_sync-Kept : (f : Text) (c : Coordinator) → Kept c (trigger_sync driver f c).0
  unfolding trigger_sync broadcast
  trigger_sync-Kept f c = elim (Outcome-cases (handle_manifest_request driver f 0 c.db)) [
    | inl (found, h) ↦ rw (h, trigger_sync) (Kept-refl c)
    | inr (inl (e, h)) ↦ rw (h, trigger_sync) (Kept-refl c)
    | inr (inr h) ↦ rw (h, trigger_sync) (Kept-refl c)
  ]

  trigger_sync_ignored :
      (f : Text) (c : Coordinator) → Kept c (ignoring_error (trigger_sync driver f c)).0
  trigger_sync_ignored f c = ignoring_error-Kept c (trigger_sync driver f c) (trigger_sync-Kept f c)

module _ (driver : Rusqlite) (sha : Sha256) (format_time : ℤ → Text) (now : ℕ) (timestamp : ℤ) where
  apply_in_db-Kept :
      (a : ReconciliationAction) (c : Coordinator)
      → Kept c (apply_in_db driver sha format_time now timestamp a c).0
  unfolding apply_in_db
  apply_in_db-Kept a c = elim (Outcome-cases (apply_reconciliation_action timestamp a c.db)) [
    | inl (db, h) ↦ rw (h, apply_in_db) (Kept-refl c)
    | inr (inl (e, h)) ↦ rw (h, apply_in_db) (Kept-refl c)
    | inr (inr h) ↦ rw (h, apply_in_db) (Kept-refl c)
  ]

  pull-Kept :
      (p : NodeId) (conn : Connection) (dest : Text) (request : Message) (a : ReconciliationAction)
      (c : Coordinator)
      → Kept c (pull driver sha format_time now timestamp p conn dest request a c).0
  unfolding pull suppress
  pull-Kept p conn dest request a c =
      then?-Kept c (send p conn request (suppress now dest 10000 c))
        (apply_in_db driver sha format_time now timestamp a)
        (send-Kept p conn request (suppress now dest 10000 c)) (apply_in_db-Kept a)

  apply_action-Kept :
      (p : NodeId) (conn : Connection) (root : Text) (a : ReconciliationAction) (c : Coordinator)
      → Kept c (apply_action driver sha format_time now timestamp p conn root a c).0
  unfolding apply_action suppress
  apply_action-Kept p conn root (download_needed folder file rel size hash version origin) c =
      let action = download_needed folder file rel size hash version origin in
      elim (Bool-cases (has_content sha (join root rel) hash c.transfer.disk)) [
        | inl h ↦ rw h (apply_in_db-Kept action c)
        | inr h ↦
            rw h (pull-Kept p conn (join root rel) (file_pull_req folder file rel none) action c)
      ]
  apply_action-Kept p conn root (delete_local folder file rel version) c =
      let action = delete_local folder file rel version in
      let path = join root rel in
      let after : Coordinator → Coordinator × Outcome SyncError (Unit {0}) =
        λ d. ignoring_error (trigger_sync driver folder d) in
      elim (Bool-cases (exists path c.transfer.disk)) [
        | inl h ↦ rw h (
            then?-Kept c
              (apply_in_db driver sha format_time now timestamp action
                (remove_file path (suppress now path 10000 c)))
              after (apply_in_db-Kept action (remove_file path (suppress now path 10000 c)))
              (trigger_sync_ignored driver folder))
        | inr h ↦ rw h (
            then?-Kept c (apply_in_db driver sha format_time now timestamp action c) after
              (apply_in_db-Kept action c) (trigger_sync_ignored driver folder))
      ]
  apply_action-Kept p conn root (conflict folder file original copy size hash version origin) c =
      pull-Kept p conn (join root copy) (file_pull_req folder file original (some copy))
        (conflict folder file original copy size hash version origin) c
  apply_action-Kept p conn root (up_to_date file version) c = Kept-refl c
  apply_action-Kept p conn root ignore c = Kept-refl c

  pub apply_actions-Kept :
      (p : NodeId) (conn : Connection) (root : Text) (actions : List ReconciliationAction)
      (c : Coordinator)
      → Kept c (apply_actions driver sha format_time now timestamp p conn root actions c).0
  unfolding apply_actions
  apply_actions-Kept p conn root [] c = Kept-refl c
  apply_actions-Kept p conn root (a ∷ actions) c =
      then?-Kept c (apply_action driver sha format_time now timestamp p conn root a c)
        (apply_actions driver sha format_time now timestamp p conn root actions)
        (apply_action-Kept p conn root a c) (apply_actions-Kept p conn root actions)

  -- The number reported by the response that was applied is recorded, and nothing else changes
  -- beyond the actions.
  abbrev pub Recorded : NodeId → Text → Connection → Coordinator → Step → Type 0
  Recorded p f conn c step =
      (d : Coordinator) × (named : Text) × (events : List SyncEvent) × (latest : ℕ) × (conn.manifest
        ≡ ok (some (manifest_resp named events latest)))
      × Kept c d
      × (step ≡ (set_last_seen driver sha format_time now timestamp f p latest d, ok tt))

  manifest_of_lem :
      (answer : Outcome SyncError (Option Message)) (events : List SyncEvent) (latest : ℕ)
      → manifest_of answer ≡ ok (events, latest)
      → (named : Text) × (answer ≡ ok (some (manifest_resp named events latest)))
  unfolding manifest_of
  manifest_of_lem (ok (some (manifest_resp named events' latest'))) events latest h =
      (named, ground arith)
  manifest_of_lem (ok (some other)) events latest h = absurd (ground arith)
  manifest_of_lem (ok none) events latest h = absurd (ground arith)
  manifest_of_lem (err e) events latest h = absurd (ground arith)
  manifest_of_lem panic events latest h = absurd (ground arith)

  -- A step that did not succeed.
  abbrev pub Failed : Coordinator → Step → Type 0
  Failed c step = Kept c step.0 × (step.1 ≢ ok tt)

  pub err-Failed : (c d : Coordinator) (e : SyncError) → Kept c d → Failed c (d, err e)
  err-Failed c d e k = (k, λ h. absurd (ground arith))

  pub panic-Failed : (c d : Coordinator) → Kept c d → Failed c (d, panic)
  panic-Failed c d k = (k, λ h. absurd (ground arith))

  record_after :
      (p : NodeId) (f : Text) (conn : Connection) (c : Coordinator) (named : Text)
      (events : List SyncEvent) (latest : ℕ) (step : Step)
      → conn.manifest ≡ ok (some (manifest_resp named events latest))
      → Kept c step.0
      → Failed c (
          step
          then? (λ d. (set_last_seen driver sha format_time now timestamp f p latest d, ok tt)))
        ⊎ Recorded p f conn c (
            step
            then? (λ d. (set_last_seen driver sha format_time now timestamp f p latest d, ok tt)))
  record_after p f conn c named events latest (d, ok u) answer k =
      inr (d, named, events, latest, answer, k, refl)
  record_after p f conn c named events latest (d, err e) answer k = inl (err-Failed c d e k)
  record_after p f conn c named events latest (d, panic) answer k = inl (panic-Failed c d k)

  -- A manifest is applied as a whole, or the peer's number stays.
  pub apply_manifest_lem :
      (p : NodeId) (conn : Connection) (f root : Text) (c : Coordinator)
      → Failed c (apply_manifest driver sha format_time now timestamp p conn f root c)
        ⊎ Recorded p f conn c (apply_manifest driver sha format_time now timestamp p conn f root c)
  unfolding apply_manifest
  apply_manifest_lem p conn f root c = elim (Outcome-cases (manifest_of conn.manifest)) [
    | inr (inl (e, h)) ↦ rw (h, apply_manifest) (inl (err-Failed c c e (Kept-refl c)))
    | inr (inr h) ↦ rw (h, apply_manifest) (inl (panic-Failed c c (Kept-refl c)))
    | inl ((events, latest), h) ↦
        let (named, answer) = manifest_of_lem conn.manifest events latest h in
        elim (Outcome-cases (reconcile_remote_events driver format_time c.db events)) [
          | inr (inl (e, h')) ↦
              rw (h, h', apply_manifest) (inl (err-Failed c c (database e) (Kept-refl c)))
          | inr (inr h') ↦ rw (h, h', apply_manifest) (inl (panic-Failed c c (Kept-refl c)))
          | inl (actions, h') ↦
              rw (h, h', apply_manifest)
                (record_after p f conn c named events latest
                  (apply_actions driver sha format_time now timestamp p conn root actions c) answer
                  (apply_actions-Kept p conn root actions c))
        ]
  ]
