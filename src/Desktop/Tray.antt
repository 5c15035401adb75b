-- ===== src/Desktop/Tray.antt =====
-- crates/tusher-desktop/src/tray.rs with the callbacks that main.rs gives it. The messages of
-- Windows, and what is selected in the menu, are arguments; windows, icons and labels are left out.
pub mod Exit
use t_u_s_h_e_r.Base.{
  ℕ, zero, suc, ◌+◌, ◌≡◌, Bool, true, false, not, Option, none, some, List, [], ◌∷◌, ◌++◌, leb,
  if◌then◌else◌, ◌==◌, nat_eq,
}
use t_u_s_h_e_r.Base.Text.{Text}
use t_u_s_h_e_r.Desktop.Shell.{
  Winreg, install_context_menu, uninstall_context_menu, is_context_menu_installed,
}

abbrev pub id_open_dashboard : ℕ
id_open_dashboard = 2002

abbrev pub id_open_downloads : ℕ
id_open_downloads = 2003

abbrev pub id_toggle_sync : ℕ
id_toggle_sync = 2004

abbrev pub id_context_menu : ℕ
id_context_menu = 2005

abbrev pub id_exit : ℕ
id_exit = 2006

-- A message that `GetMessageW` gives: a click on the icon, with what is then selected in the menu (0
-- if nothing is), or another message.
pub data TrayMessage : Type 0 where
  right_click : (selected : ℕ) → TrayMessage
  double_click : TrayMessage
  other_message : TrayMessage

-- What the callbacks change: `opened` is given to the shell to open, and `shutdown` says that main
-- was told to end.
pub record TrayState (w : Winreg) : Type 0 where
  pub sync_paused : Bool
  pub registry : w.Registry
  pub opened : List Text
  pub shutdown : Bool

module _ (w : Winreg) (windows : Bool) (current_exe : Option Text) where
  unfoldable pub on_toggle_context_menu : w.Registry → w.Registry
  on_toggle_context_menu r =
      if is_context_menu_installed w windows r
      then (uninstall_context_menu w windows r).0
      else (install_context_menu w windows current_exe none r).0

  module _ (dashboard_url downloads_dir : Text) where
    -- The match on what is selected, and whether it ends the loop.
    unfoldable pub on_select : ℕ → TrayState w → TrayState w × Bool
    unfolding on_toggle_context_menu
    on_select selected s =
        if selected == id_open_dashboard
        then (record s { opened = s.opened ++ (dashboard_url ∷ []) }, false)
        else if selected == id_open_downloads
        then (record s { opened = s.opened ++ (downloads_dir ∷ []) }, false)
        else if selected == id_toggle_sync
        then (record s { sync_paused = not s.sync_paused }, false)
        else if selected == id_context_menu
        then (record s { registry = on_toggle_context_menu s.registry }, false)
        else if selected == id_exit
        then (record s { shutdown = true }, true)
        else (s, false)

    unfoldable pub on_message : TrayMessage → TrayState w → TrayState w × Bool
    unfolding on_select
    on_message (right_click selected) s = on_select selected s
    on_message double_click s = (record s { opened = s.opened ++ (dashboard_url ∷ []) }, false)
    on_message other_message s = (s, false)

    -- The loop over the messages, each with the stop signal as it is when the message comes.
    unfoldable pub run_tray : List (Bool × TrayMessage) → TrayState w → TrayState w
    unfolding on_message
    run_tray [] s = s
    run_tray ((stopped, msg) ∷ messages) s =
        let (s', done) = on_message msg s in
        let rest = run_tray messages s' in if stopped then s else if done then s' else rest

-- The loop without a tray, from the time when it looks at the signal: the time when it ends, in
-- milliseconds. The signal is set at `stop_at`, and a sleep takes no longer than it was asked to.
unfoldable pub run_headless : ℕ → ℕ → ℕ → Option ℕ
run_headless zero stop_at now = none
run_headless (suc fuel) stop_at now =
    let rest = run_headless fuel stop_at (now + 500) in if leb stop_at now then some now else rest
