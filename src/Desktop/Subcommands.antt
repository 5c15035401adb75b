-- ===== src/Desktop/Subcommands.antt =====
-- The subcommands in `main` of crates/tusher-desktop/src/main.rs and `handle_share_action`. What is
-- printed, and what is given to the shell to open, is returned.
use t_u_s_h_e_r.Base.{
  ◌≡◌, refl, Bool, Bool-cases, inl, inr, true, Option, none, some, List, [], ◌∷◌, ◌++◌,
  if◌then◌else◌, Outcome, ok, err, panic,
}
use t_u_s_h_e_r.Base.Text.{Text, ascii}
use t_u_s_h_e_r.Base.FilePath.{file_name}
use t_u_s_h_e_r.Desktop.Shell.{
  Winreg, ShellError, install_context_menu, uninstall_context_menu, is_context_menu_installed,
}

pub data ShellAction : Type 0 where
  install uninstall status : ShellAction

pub data Commands : Type 0 where
  share : (path : Text) → Commands
  shell : (action : ShellAction) → Commands

pub data Notice : Type 0 where
  sharing path_missing sharing_file : (path : Text) → Notice
  node_detected : (status_url : Text) → Notice
  adding_folder : (folder_id : Text) → Notice
  not_running installed uninstalled : Notice
  menu_status : (is_installed : Bool) → Notice

-- What was printed, and then opened.
abbrev pub Shown : Type 0
Shown = List Notice × List Text

-- The last part of the path, or a fixed name.
abbrev pub share_id : Text → Text
share_id path = elim (file_name path) [ some name ↦ name | none ↦ ascii "shared_folder" ]

-- `running` says whether something accepts a connection at the port of the dashboard.
module _ (dashboard_url : Text) (path_exists is_dir : Text → Bool) (running : Bool) where
  unfoldable pub handle_share_action : Text → Shown
  handle_share_action path =
      let found = node_detected (dashboard_url ++ ascii "/api/status") in
      if path_exists path
      then (if running
          then (if is_dir path
              then (
                sharing path ∷ (found ∷ (adding_folder (share_id path) ∷ [])),
                dashboard_url ∷ [],
              )
              else (sharing path ∷ (found ∷ (sharing_file path ∷ [])), dashboard_url ∷ []))
          else (sharing path ∷ (not_running ∷ []), path ∷ []))
      else (sharing path ∷ (path_missing path ∷ []), [])

  -- `share` gives the shell one thing to open if the path is there, and shares nothing itself: the
  -- dashboard, or the path if no node is running.
  handle_share_action_lem :
      (path : Text)
      → path_exists path ≡ true
      → (handle_share_action path).1 ≡ (if running then dashboard_url else path) ∷ []
  unfolding handle_share_action
  handle_share_action_lem path e = elim (Bool-cases running) [
    | inr n ↦ rw (e, n, handle_share_action) refl
    | inl y ↦ elim (Bool-cases (is_dir path)) [
      | inl d ↦ rw (e, y, d, handle_share_action) refl
      | inr d ↦ rw (e, y, d, handle_share_action) refl
    ]
  ]

  module _ (w : Winreg) (windows : Bool) (current_exe : Option Text) where
    -- After a change of the registry: the notice, if it succeeded.
    abbrev after_change :
        Notice → w.Registry × Outcome ShellError (Unit {0}) → w.Registry × Outcome ShellError Shown
    after_change notice (r, ok _) = (r, ok (notice ∷ [], []))
    after_change notice (r, err e) = (r, err e)
    after_change notice (r, panic) = (r, panic)

    -- The program with a subcommand, which ends behind it.
    unfoldable pub run_subcommand : Commands → w.Registry → w.Registry × Outcome ShellError Shown
    unfolding handle_share_action
    run_subcommand (share path) r = (r, ok (handle_share_action path))
    run_subcommand (shell install) r =
        after_change installed (install_context_menu w windows current_exe none r)
    run_subcommand (shell uninstall) r =
        after_change uninstalled (uninstall_context_menu w windows r)
    run_subcommand (shell status) r =
        (r, ok (menu_status (is_context_menu_installed w windows r) ∷ [], []))
