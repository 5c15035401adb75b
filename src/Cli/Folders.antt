-- ===== src/Cli/Folders.antt =====
-- The commands of crates/tusher-cli/src/main.rs on shared folders.
use t_u_s_h_e_r.Base.{List, [], ◌∷◌, length, bytes_eq, nat_eq, ok, err, panic}
use t_u_s_h_e_r.Base.Text.{Text, ascii}
use t_u_s_h_e_r.Core.Protocol.{SyncEvent}
use t_u_s_h_e_r.Metadata.Db.{get_folders}
use t_u_s_h_e_r.Metadata.Service.{handle_manifest_request}
use t_u_s_h_e_r.Sync.State.{trigger_sync}
use t_u_s_h_e_r.Sync.Local.{register_folder, initial_scan}
use t_u_s_h_e_r.Mesh.{Host}
use t_u_s_h_e_r.Cli.{
  short_hash, CliNode, Ran, go_on, panicked, print, say, with_coordinator, usage, folders_shown,
  folder_added, sync_notified, sync_error, indexed, index_error, events_shown, event_shown,
  query_error,
}

unfoldable pub folders_command : CliNode → Ran
folders_command s = say (folders_shown (get_folders s.node.coordinator.db)) s

unfoldable pub add_folder_command : Host → List Text → CliNode → Ran
add_folder_command host (folder_id ∷ name ∷ path ∷ rest) s =
    let registered =
      register_folder host.driver host.sha host.now folder_id path s.node.coordinator in
    let said = print (folder_added name folder_id path) (with_coordinator registered s) in
    let (c, result) = trigger_sync host.driver folder_id registered in
    elim result [
      | panic ↦ (with_coordinator c said, panicked)
      | _ ↦ (with_coordinator c said, go_on)
    ]
add_folder_command host args s = say (usage (ascii "add-folder <folder_id> <name> <path>")) s

unfoldable pub sync_command : Host → List Text → CliNode → Ran
sync_command host [] s = say (usage (ascii "sync <folder_id>")) s
sync_command host (folder_id ∷ rest) s =
    let (c, result) = trigger_sync host.driver folder_id s.node.coordinator in
    let s' = with_coordinator c (print (sync_notified folder_id) s) in
    elim result [ ok _ ↦ (s', go_on) | err e ↦ say (sync_error e) s' | panic ↦ (s', panicked) ]

unfoldable pub index_command : Host → List Text → CliNode → Ran
index_command host [] s = say (usage (ascii "index <folder_id>")) s
index_command host (folder_id ∷ rest) s =
    let (c, result) =
      initial_scan host.driver host.sha host.now host.walkdir folder_id s.node.coordinator in
    let s' = with_coordinator c s in
    elim result [
      | ok _ ↦ say (indexed folder_id) s'
      | err e ↦ say (index_error e) s'
      | panic ↦ (s', panicked)
    ]

unfoldable pub show_events : List SyncEvent → CliNode → Ran
show_events [] s = (s, go_on)
show_events (ev ∷ events) s = elim (short_hash ev.content_hash) [
  | ok hash ↦ show_events events (print (event_shown ev hash) s)
  | _ ↦ (s, panicked)
]

unfoldable pub events_command : Host → List Text → CliNode → Ran
unfolding show_events
events_command host [] s = say (usage (ascii "events <folder_id>")) s
events_command host (folder_id ∷ rest) s =
    elim (handle_manifest_request host.driver folder_id 0 s.node.coordinator.db) [
      | ok (events, latest) ↦
          show_events events (print (events_shown folder_id (length events) latest) s)
      | err e ↦ say (query_error e) s
      | panic ↦ (s, panicked)
    ]
