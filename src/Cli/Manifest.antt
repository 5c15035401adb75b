-- ===== src/Cli/Manifest.antt =====
-- The command `manifest` of crates/tusher-cli/src/main.rs.
use t_u_s_h_e_r.Base.{
  ℕ, ◌^◌, ◌<◌, ◌≡◌, refl, ap, ◌∙◌, true, some, List, [], ◌∷◌, ◌++◌, Bool-cases, inl, inr, ok,
  Outcome-cases,
}
use t_u_s_h_e_r.Base.Text.{Text}
use t_u_s_h_e_r.Core.Types.{NodeId}
use t_u_s_h_e_r.Core.Protocol.{Message, SyncEvent, upsert, manifest_req, manifest_resp}
use t_u_s_h_e_r.Metadata.Models.{ReconciliationAction, up_to_date}
use t_u_s_h_e_r.Metadata.Tables.{MetadataDb}
use t_u_s_h_e_r.Metadata.Reconciler.{reconcile_event, download}
use t_u_s_h_e_r.Metadata.Service.{reconcile_remote_events, apply_reconciliation_action}
use t_u_s_h_e_r.Metadata.Service.Convergence.{reconcile_event-apply_download}
use t_u_s_h_e_r.Network.Manager.Status.{PeerStatusInfo}
use t_u_s_h_e_r.Sync.State.{Connection, Coordinator, send, connection}
use t_u_s_h_e_r.Mesh.{Host}
use t_u_s_h_e_r.Cli.{
  CliNode, print, with_coordinator, find_target, is_printable, apply_actions, on_manifest,
  after_request, on_response, manifest_command, action_shown,
}

-- The files, and what was sent.
abbrev Untouched : Coordinator → Coordinator → Type 0
Untouched c c' = (c'.transfer ≡ c.transfer) × (c'.sent ≡ c.sent)

apply_actions-Untouched :
    (host : Host) (actions : List ReconciliationAction) (s : CliNode)
    → Untouched s.node.coordinator (apply_actions host actions s).0.node.coordinator
unfolding apply_actions print
apply_actions-Untouched host [] s = (refl, refl)
apply_actions-Untouched host (act ∷ actions) s =
    let said = print (action_shown act) s in
    elim (Bool-cases (is_printable act)) [
      | inr e ↦ rw (e, apply_actions) (refl, refl)
      | inl e ↦
          elim (Outcome-cases (apply_reconciliation_action host.now act s.node.coordinator.db)) [
            | inl (db, k) ↦
                rw (e, k, apply_actions)
                  (apply_actions-Untouched host actions
                    (with_coordinator (record s.node.coordinator { db = db }) said))
            | inr (inl (x, k)) ↦
                rw (e, k, apply_actions) (apply_actions-Untouched host actions said)
            | inr (inr k) ↦ rw (e, k, apply_actions) (refl, refl)
          ]
    ]

on_manifest-Untouched :
    (host : Host) (events : List SyncEvent) (latest : ℕ) (s : CliNode)
    → Untouched s.node.coordinator (on_manifest host events latest s).0.node.coordinator
unfolding on_manifest print
on_manifest-Untouched host events latest s =
    elim (Outcome-cases
      (reconcile_remote_events host.driver host.format_time s.node.coordinator.db events)) [
        | inl (actions, e) ↦ rw (e, on_manifest) (apply_actions-Untouched host actions _)
        | inr (inl (x, e)) ↦ rw (e, on_manifest) (refl, refl)
        | inr (inr e) ↦ rw (e, on_manifest) (refl, refl)
      ]

send_accepted :
    (peer_id : NodeId) (conn : Connection) (msg : Message) (c : Coordinator)
    → conn.accepts msg ≡ true
    → send peer_id conn msg c ≡ (record c { sent = c.sent ++ ((peer_id, msg) ∷ []) }, ok tt)
unfolding send
send_accepted peer_id conn msg c e = rw e refl

-- The node once the request is sent.
abbrev asked : NodeId → Message → CliNode → CliNode
asked peer_id msg s =
    let c = s.node.coordinator in
    with_coordinator (record c { sent = c.sent ++ ((peer_id, msg) ∷ []) }) s

after_request_ok :
    (host : Host) (conn : Connection) (folder' : Text) (events : List SyncEvent) (latest : ℕ)
    (s : CliNode) (c : Coordinator)
    → conn.manifest ≡ ok (some (manifest_resp folder' events latest))
    → after_request host conn s (c, ok tt) ≡ on_manifest host events latest (with_coordinator c s)
unfolding after_request on_response
after_request_ok host conn folder' events latest s c e =
    ap (λ m. on_response host m (with_coordinator c s)) e

-- The branch for an answer to the request.
manifest_command-answered :
    (host : Host) (id_str folder folder' : Text) (target : PeerStatusInfo) (conn : Connection)
    (events : List SyncEvent) (latest : ℕ) (s : CliNode)
    → find_target id_str s.node.manager ≡ some target
    → connection target.node_id s.node.coordinator ≡ some conn
    → conn.accepts (manifest_req folder 0) ≡ true
    → conn.manifest ≡ ok (some (manifest_resp folder' events latest))
    → manifest_command host (id_str ∷ folder ∷ []) s
      ≡ on_manifest host events latest (asked target.node_id (manifest_req folder 0) s)
unfolding manifest_command
manifest_command-answered host id_str folder folder' target conn events latest s e1 e2 e3 e4 =
    rw (e1, manifest_command)
      (rw (e2, send_accepted target.node_id conn (manifest_req folder 0) s.node.coordinator e3)
        (after_request_ok host conn folder' events latest s _ e4))

-- The loop, for one download that can be recorded.
on_manifest-download :
    (host : Host) (ev : SyncEvent) (latest : ℕ) (s : CliNode) (db' : MetadataDb)
    → reconcile_event host.format_time host.driver s.node.coordinator.db ev ≡ ok (download ev)
    → is_printable (download ev) ≡ true
    → apply_reconciliation_action host.now (download ev) s.node.coordinator.db ≡ ok db'
    → (on_manifest host (ev ∷ []) latest s).0.node.coordinator.db ≡ db'
unfolding on_manifest reconcile_remote_events print apply_actions
on_manifest-download host ev latest s db' judged printable applied =
    let c = s.node.coordinator in
    let all : reconcile_remote_events host.driver host.format_time c.db (ev ∷ [])
        ≡ ok (download ev ∷ []) =
      rw (judged, reconcile_remote_events) refl in
    rw (all, on_manifest) (one _ refl)
  where
    one :
        (t : CliNode)
        → t.node.coordinator ≡ s.node.coordinator
        → (apply_actions host (download ev ∷ []) t).0.node.coordinator.db ≡ db'
    one t same =
        rw
          (
            printable,
            ap (λ c. apply_reconciliation_action host.now (download ev) c.db) same ∙ applied,
            apply_actions,
          )
          refl

-- `manifest` pulls no file and yet records it. Let the connected peer answer with one upsert, of a
-- size and version below 2 ^ 63, that is judged as a download, and let this action be printable and
-- possible to record. Then the command sends the request and nothing else and changes no file, but
-- from then on the same event is found to be up to date.
pub manifest_command-download :
    (host : Host) (id_str folder folder' : Text) (target : PeerStatusInfo) (conn : Connection)
    (ev : SyncEvent) (latest : ℕ) (s : CliNode) (db' : MetadataDb)
    → find_target id_str s.node.manager ≡ some target
    → connection target.node_id s.node.coordinator ≡ some conn
    → conn.accepts (manifest_req folder 0) ≡ true
    → conn.manifest ≡ ok (some (manifest_resp folder' (ev ∷ []) latest))
    → ev.event_type ≡ upsert
    → ev.size_bytes < 2 ^ 63
    → ev.version < 2 ^ 63
    → reconcile_event host.format_time host.driver s.node.coordinator.db ev ≡ ok (download ev)
    → is_printable (download ev) ≡ true
    → apply_reconciliation_action host.now (download ev) s.node.coordinator.db ≡ ok db'
    → let c = s.node.coordinator in
      let c' = (manifest_command host (id_str ∷ folder ∷ []) s).0.node.coordinator in
      (c'.transfer ≡ c.transfer)
      × (c'.sent ≡ c.sent ++ ((target.node_id, manifest_req folder 0) ∷ []))
      × (reconcile_event host.format_time host.driver c'.db ev
          ≡ ok (up_to_date ev.file_id ev.version))
manifest_command-download host id_str folder folder' target conn ev latest s db' e1 e2 e3 e4 kind hs
      hv judged printable applied =
    let begun = asked target.node_id (manifest_req folder 0) s in
    let same =
      manifest_command-answered host id_str folder folder' target conn (ev ∷ []) latest s e1 e2 e3
        e4 in
    let (files, messages) = on_manifest-Untouched host (ev ∷ []) latest begun in
    let after = on_manifest-download host ev latest begun db' judged printable applied in
    rw same (
      files,
      messages,
      ap (λ d. reconcile_event host.format_time host.driver d ev) after
          ∙ (reconcile_event-apply_download host.format_time host.driver host.now ev
              s.node.coordinator.db kind hs hv applied).1,
    )
