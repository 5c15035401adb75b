-- ===== src/Desktop/Shell.antt =====
-- crates/tusher-desktop/src/shell.rs: the context menu of the Windows Explorer. The registry of
-- Windows is a parameter; texts end where the source ends them with a NUL.
pub mod Menu
use t_u_s_h_e_r.Base.{
  ℕ, ◌≡◌, Bool, true, false, Option, none, some, List, [], ◌∷◌, ◌++◌, if◌then◌else◌, ◌==◌, nat_eq,
  bytes_eq, Outcome, ok, err, panic,
}
use t_u_s_h_e_r.Base.Text.{Text, ascii}

-- The calls of windows-sys on HKEY_CURRENT_USER, with the status codes that they give. A key that
-- was created is there, a tree that was deleted or not found (2) is not, and nothing else changes
-- which of the keys that matter here are there.
pub record Winreg : Type 1 where
  pub Registry : Type 0
  pub create_key : Text → Registry → Registry × ℕ
  pub set_value : Text → Option Text → Text → Registry → Registry × ℕ
  pub delete_tree : Text → Registry → Registry × ℕ
  pub has_key : Text → Registry → Bool
  pub has_key-create_key :
      (key : Text) (r : Registry)
      → (create_key key r).1 ≡ 0
      → has_key key (create_key key r).0 ≡ true
  pub create_key_keeps :
      (key k : Text) (r : Registry) → has_key k r ≡ true → has_key k (create_key key r).0 ≡ true
  pub set_value_keeps :
      (key : Text) (name : Option Text) (value k : Text) (r : Registry)
      → has_key k (set_value key name value r).0 ≡ has_key k r
  pub delete_tree_done :
      (key : Text) (r : Registry)
      → (delete_tree key r).1 ≡ 0
      → has_key key (delete_tree key r).0 ≡ false
  pub delete_tree_missing :
      (key : Text) (r : Registry)
      → (delete_tree key r).1 ≡ 2
      → has_key key (delete_tree key r).0 ≡ false
  pub delete_tree_adds_none :
      (key k : Text) (r : Registry) → has_key k r ≡ false → has_key k (delete_tree key r).0 ≡ false

pub data ShellError : Type 0 where
  no_current_exe : ShellError
  create_failed : (subkey_path : Text) (status : ℕ) → ShellError
  set_failed : (subkey_path : Text) (status : ℕ) → ShellError
  delete_failed : (subkey_path : Text) (status : ℕ) → ShellError

-- `s.trim_end_matches('\0')`
unfoldable pub trim_end_nul : Text → Text
trim_end_nul [] = []
trim_end_nul (c ∷ s) =
    let rest = trim_end_nul s in if c == 0 then (if rest == [] then [] else c ∷ rest) else c ∷ rest

abbrev pub star_entry : Text
star_entry = ascii "Software\\Classes\\*\\shell\\TusherShare"

abbrev pub directory_entry : Text
directory_entry = ascii "Software\\Classes\\Directory\\shell\\TusherShare"

abbrev pub entries : List Text
entries = star_entry ∷ directory_entry ∷ []

abbrev pub quoted : Text → Text
quoted exe = 34 ∷ (exe ++ (34 ∷ []))

abbrev pub menu_label : Text
menu_label = ascii "Share via T.U.S.H.E.R" ++ (0 ∷ [])

abbrev pub icon_name : Text
icon_name = ascii "Icon" ++ (0 ∷ [])

abbrev pub icon_val : Text → Text
icon_val exe_str = quoted exe_str ++ (ascii ",0" ++ (0 ∷ []))

abbrev pub cmd_val : Text → Text
cmd_val exe_str = quoted exe_str ++ (ascii " share \"%1\"" ++ (0 ∷ []))

abbrev pub cmd_key : Text → Text
cmd_key entry = entry ++ ascii "\\command"

module _ {ℓ} {S : Type ℓ} where
  -- A step that goes on if the one before it succeeded.
  infixl 5 ◌next?◌
  abbrev pub ◌next?◌ :
      S × Outcome ShellError (Unit {0})
      → (S → S × Outcome ShellError (Unit {0}))
      → S × Outcome ShellError (Unit {0})
  (s, ok _) next? step = step s
  (s, err e) next? step = (s, err e)
  (s, panic) next? step = (s, panic)

module _ (w : Winreg) where
  abbrev pub Change : Type 0
  Change = w.Registry → w.Registry × Outcome ShellError (Unit {0})

  -- From `name_wide` on, for a key that is open.
  unfoldable pub write_value : Text → Text → Text → Change
  unfolding trim_end_nul
  write_value subkey_path value_name value r =
      let name : Option Text = if value_name == [] then none else some (trim_end_nul value_name) in
      let (written, set_status) = w.set_value subkey_path name (trim_end_nul value) r in
      if set_status == 0
      then (written, ok tt)
      else (written, err (set_failed subkey_path set_status))

  unfoldable pub set_registry_string : Text → Text → Text → Change
  unfolding write_value
  set_registry_string subkey_path value_name value r =
      let (created, status) = w.create_key subkey_path r in
      if status == 0
      then write_value subkey_path value_name value created
      else (created, err (create_failed subkey_path status))

  unfoldable pub delete_registry_tree : Text → Change
  delete_registry_tree subkey_path r =
      let (deleted, status) = w.delete_tree subkey_path r in
      if status == 0
      then (deleted, ok tt)
      else if status == 2
      then (deleted, ok tt)
      else (deleted, err (delete_failed subkey_path status))

  -- The body of the loop over the entries.
  unfoldable pub install_entry : Text → Text → Change
  unfolding set_registry_string
  install_entry exe_str entry r =
      set_registry_string entry [] menu_label r
      next? set_registry_string entry icon_name (icon_val exe_str)
      next? set_registry_string (cmd_key entry) [] (cmd_val exe_str)

  unfoldable pub install_entries : Text → List Text → Change
  unfolding install_entry
  install_entries exe_str [] r = (r, ok tt)
  install_entries exe_str (entry ∷ rest) r =
      install_entry exe_str entry r next? install_entries exe_str rest

  unfoldable pub uninstall_entries : List Text → Change
  unfolding delete_registry_tree
  uninstall_entries [] r = (r, ok tt)
  uninstall_entries (entry ∷ rest) r = delete_registry_tree entry r next? uninstall_entries rest

  -- `windows` says for which system the program is built, and `current_exe` where it is.
  module _ (windows : Bool) (current_exe : Option Text) where
    unfoldable pub install_context_menu : Option Text → Change
    unfolding install_entries
    install_context_menu (some exe_path) r =
        if windows then install_entries exe_path entries r else (r, ok tt)
    install_context_menu none r =
        if windows
        then elim current_exe [
          | none ↦ (r, err no_current_exe)
          | some exe_path ↦ install_entries exe_path entries r
        ]
        else (r, ok tt)

  module _ (windows : Bool) where
    unfoldable pub uninstall_context_menu : Change
    unfolding uninstall_entries
    uninstall_context_menu r = if windows then uninstall_entries entries r else (r, ok tt)

    unfoldable pub is_context_menu_installed : w.Registry → Bool
    is_context_menu_installed r = if windows then w.has_key star_entry r else false
