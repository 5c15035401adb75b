-- ===== src/Desktop/Web/Actions.antt =====
-- The handlers of crates/tusher-desktop/src/web.rs that answer a POST. A handler gives the state
-- after it, and `ok` for a success or `err` for the JSON object with an error, or a panic.
use t_u_s_h_e_r.Base.{
  Bool, not, ◌||◌, Option, none, some, [], if◌then◌else◌, ◌==◌, bytes_eq, Outcome, ok, err, panic,
}
use t_u_s_h_e_r.Base.Text.{Text}
use t_u_s_h_e_r.Base.Words.{trim}
use t_u_s_h_e_r.Core.Types.{from_str_unchecked}
use t_u_s_h_e_r.Transfer.Sender.{TransferStats, SendError}
use t_u_s_h_e_r.Sync.State.{SyncError, trigger_sync}
use t_u_s_h_e_r.Sync.Local.{initial_scan}
use t_u_s_h_e_r.Mesh.{Host, sent, failed, not_connected, connect_peer, share_folder, send_to_peer}
use t_u_s_h_e_r.Desktop.Shell.{
  Winreg, ShellError, install_context_menu, uninstall_context_menu, is_context_menu_installed,
}
use t_u_s_h_e_r.Desktop.Web.{DesktopState}

pub data WebError : Type 0 where
  invalid_address folder_missing cannot_create file_missing peer_not_connected no_picker : WebError
  sync_failed : SyncError → WebError
  sending_failed : SendError → WebError
  menu_failed : ShellError → WebError

-- The state after a handler, and its answer.
abbrev pub Handled {ℓ} : Type ℓ → Type ℓ
Handled A = DesktopState × Outcome WebError A

unfoldable pub connect_peer_handler : Host → Text → DesktopState → Handled (Unit {0})
connect_peer_handler host addr state =
    let (node, found) = connect_peer host addr state.node in
    elim found [
      | none ↦ (record state { node = node }, err invalid_address)
      | some a ↦ (record state { node = node }, ok tt)
    ]

-- The answer to a step of the coordinator that may fail.
abbrev pub answer : Outcome SyncError (Unit {0}) → Outcome WebError (Unit {0})
answer (ok _) = ok tt
answer (err e) = err (sync_failed e)
answer panic = panic

unfoldable pub scan_folder_handler : Host → Text → DesktopState → Handled (Unit {0})
scan_folder_handler host folder_id state =
    let (c, result) =
      initial_scan host.driver host.sha host.now host.walkdir folder_id state.node.coordinator in
    (record state { node = record state.node { coordinator = c } }, answer result)

unfoldable pub sync_folder_handler : Host → Text → DesktopState → Handled (Unit {0})
sync_folder_handler host folder_id state =
    let (c, result) = trigger_sync host.driver folder_id state.node.coordinator in
    (record state { node = record state.node { coordinator = c } }, answer result)

-- A path that exists is taken to be that of a file, not of a directory.
unfoldable pub send_file_handler : Host → Text → Text → DesktopState → Handled TransferStats
send_file_handler host peer_id file_path state =
    elim (state.node.coordinator.transfer.disk file_path) [
      | none ↦ (state, err file_missing)
      | some content ↦
          let (node, result) =
            send_to_peer host (from_str_unchecked peer_id) file_path content state.node in
          let state' : DesktopState = record state { node = node } in
          elim result [
            | ok (sent stats) ↦ (state', ok stats)
            | ok (failed e) ↦ (state', err (sending_failed e))
            | ok not_connected ↦ (state', err peer_not_connected)
            | err e ↦ (state', err (sending_failed e))
            | panic ↦ (state', panic)
          ]
    ]

unfoldable pub toggle_sync_handler : DesktopState → DesktopState × Bool
toggle_sync_handler state =
    let new_val = not state.sync_paused in (record state { sync_paused = new_val }, new_val)

-- What the file system says of a path, and of making a directory.
module _ (path_exists create_dir_all : Text → Bool) where
  unfoldable pub add_folder_handler : Host → Text → Text → Text → DesktopState → Handled (Unit {0})
  add_folder_handler host folder_id folder_name path state =
      let (c, result) = share_folder host folder_id folder_name path state.node.coordinator in
      if path_exists path || create_dir_all path
      then (record state { node = record state.node { coordinator = c } }, answer result)
      else (state, err cannot_create)

  -- Whether the Explorer is started.
  unfoldable pub open_folder_handler : Text → Outcome WebError (Unit {0})
  open_folder_handler path = if path_exists path then ok tt else err folder_missing

module _ (w : Winreg) (on_windows : Bool) (current_exe : Option Text) where
  -- The registry after, and whether the menu counts as installed then.
  unfoldable pub set_context_menu_status : Bool → w.Registry → w.Registry × Outcome WebError Bool
  set_context_menu_status install r =
      let (r', result) =
        if install
        then install_context_menu w on_windows current_exe none r
        else uninstall_context_menu w on_windows r in
      elim result [
        | ok _ ↦ (r', ok (is_context_menu_installed w on_windows r'))
        | err e ↦ (r', err (menu_failed e))
        | panic ↦ (r', panic)
      ]

-- What the dialogue printed: the path, if one was chosen.
unfoldable pub pick_folder_handler : Option Text → Outcome WebError (Option Text)
pick_folder_handler none = err no_picker
pick_folder_handler (some output) =
    let path = trim output in if path == [] then ok none else ok (some path)
