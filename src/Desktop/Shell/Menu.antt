-- ===== src/Desktop/Shell/Menu.antt =====
-- What installing and removing the context menu come to.
use t_u_s_h_e_r.Base.{
  ◌≡◌, refl, sym, ap, ◌∙◌, Bool, true, false, Option, none, some, List, [], ◌∷◌, arith, ◌==◌,
  nat_eq, bytes_eq, Bool-cases, Option-cases, inl, inr, Outcome, ok, err, panic,
}
use t_u_s_h_e_r.Base.Text.{Text}
use t_u_s_h_e_r.Desktop.Shell.{
  Winreg, ShellError, star_entry, directory_entry, ◌next?◌, trim_end_nul, write_value,
  set_registry_string, delete_registry_tree, menu_label, icon_name, icon_val, cmd_val, cmd_key,
  install_entry, install_entries, uninstall_entries, install_context_menu, uninstall_context_menu,
  is_context_menu_installed,
}

module _ (w : Winreg) where
  abbrev Keeps : Text → (w.Registry → w.Registry × Outcome ShellError (Unit {0})) → Type 0
  Keeps k step = (r : w.Registry) → w.has_key k r ≡ true → w.has_key k (step r).0 ≡ true

  next?-Keeps :
      (k : Text) (f g : w.Registry → w.Registry × Outcome ShellError (Unit {0}))
      → Keeps k f
      → Keeps k g
      → Keeps k (λ r. f r next? g)
  next?-Keeps k f g hf hg r there = by_result (f r) (hf r there)
    where
      by_result :
          (s : w.Registry × Outcome ShellError (Unit {0}))
          → w.has_key k s.0 ≡ true
          → w.has_key k (s next? g).0 ≡ true
      by_result (r', ok u) h = hg r' h
      by_result (r', err e) h = h
      by_result (r', panic) h = h

  write_value_keeps :
      (subkey name value k : Text) (r : w.Registry)
      → w.has_key k (write_value w subkey name value r).0 ≡ w.has_key k r
  unfolding write_value
  write_value_keeps subkey name value k r = ground (
    arith,
    w.set_value_keeps subkey none (trim_end_nul value) k r,
    w.set_value_keeps subkey (some (trim_end_nul name)) (trim_end_nul value) k r,
  )

  set_registry_string-Keeps :
      (k subkey name value : Text) → Keeps k (set_registry_string w subkey name value)
  unfolding set_registry_string
  set_registry_string-Keeps k subkey name value r there = ground (
    arith,
    w.create_key_keeps subkey k r there,
    write_value_keeps subkey name value k (w.create_key subkey r).0,
  )

  set_registry_string_open :
      (subkey name value : Text) (r : w.Registry)
      → ((w.create_key subkey r).1 == 0) ≡ true
      → set_registry_string w subkey name value r
        ≡ write_value w subkey name value (w.create_key subkey r).0
  unfolding set_registry_string
  set_registry_string_open subkey name value r e = rw (e, set_registry_string) refl

  set_registry_string_ok :
      (subkey name value : Text) (r r' : w.Registry)
      → set_registry_string w subkey name value r ≡ (r', ok tt)
      → w.has_key subkey r' ≡ true
  unfolding set_registry_string
  set_registry_string_ok subkey name value r r' h =
      elim (Bool-cases ((w.create_key subkey r).1 == 0)) [
        | inr e ↦ absurd (ground arith)
        | inl e ↦
            let created = w.has_key-create_key subkey r (ground arith) in
            let kept = write_value_keeps subkey name value subkey (w.create_key subkey r).0 in
            let same : (write_value w subkey name value (w.create_key subkey r).0).0 ≡ r' =
              ap (λ p. p.0) (sym (set_registry_string_open subkey name value r e) ∙ h) in
            cc (created, kept, same)
      ]

  install_entry-Keeps : (k exe entry : Text) → Keeps k (install_entry w exe entry)
  unfolding install_entry
  install_entry-Keeps k exe entry r there =
      let label = set_registry_string w entry [] menu_label in
      let icon = set_registry_string w entry icon_name (icon_val exe) in
      let command = set_registry_string w (cmd_key entry) [] (cmd_val exe) in
      next?-Keeps k (λ r. label r next? icon) command
        (next?-Keeps k label icon (set_registry_string-Keeps k entry [] menu_label)
          (set_registry_string-Keeps k entry icon_name (icon_val exe)))
        (set_registry_string-Keeps k (cmd_key entry) [] (cmd_val exe)) r there

  install_entries-Keeps : (k exe : Text) (keys : List Text) → Keeps k (install_entries w exe keys)
  unfolding install_entries
  install_entries-Keeps k exe [] r there = there
  install_entries-Keeps k exe (entry ∷ rest) r there =
      next?-Keeps k (install_entry w exe entry) (install_entries w exe rest)
        (install_entry-Keeps k exe entry) (install_entries-Keeps k exe rest) r there

  next?_ok :
      (s : w.Registry × Outcome ShellError (Unit {0}))
      (g : w.Registry → w.Registry × Outcome ShellError (Unit {0})) (r' : w.Registry)
      → (s next? g) ≡ (r', ok tt)
      → (r : w.Registry) × (s ≡ (r, ok tt)) × (g r ≡ (r', ok tt))
  next?_ok (r, ok u) g r' h = (r, refl, h)
  next?_ok (r, err e) g r' h = absurd (ground arith)
  next?_ok (r, panic) g r' h = absurd (ground arith)

  install_entry_ok :
      (exe entry : Text) (r r' : w.Registry)
      → install_entry w exe entry r ≡ (r', ok tt)
      → w.has_key entry r' ≡ true
  unfolding install_entry
  install_entry_ok exe entry r r' h =
      let label = set_registry_string w entry [] menu_label r in
      let icon = set_registry_string w entry icon_name (icon_val exe) in
      let command = set_registry_string w (cmd_key entry) [] (cmd_val exe) in
      let (s2, h2, last) = next?_ok (label next? icon) command r' h in
      let (s1, h1, with_icon) = next?_ok label icon s2 h2 in
      let there1 = set_registry_string_ok entry [] menu_label r s1 h1 in
      let there2 = set_registry_string-Keeps entry entry icon_name (icon_val exe) s1 there1 in
      let there2' : w.has_key entry s2 ≡ true = cc (there2, with_icon) in
      let there3 = set_registry_string-Keeps entry (cmd_key entry) [] (cmd_val exe) s2 there2' in
      cc (there3, last)

  install_entries_ok :
      (exe entry : Text) (rest : List Text) (r r' : w.Registry)
      → install_entries w exe (entry ∷ rest) r ≡ (r', ok tt)
      → w.has_key entry r' ≡ true
  unfolding install_entries
  install_entries_ok exe entry rest r r' h =
      let (s, first, others) =
        next?_ok (install_entry w exe entry r) (install_entries w exe rest) r' h in
      let kept = install_entries-Keeps entry exe rest s (install_entry_ok exe entry r s first) in
      cc (kept, others)

  delete_registry_tree_ok :
      (key : Text) (r r' : w.Registry)
      → delete_registry_tree w key r ≡ (r', ok tt)
      → w.has_key key r' ≡ false
  unfolding delete_registry_tree
  delete_registry_tree_ok key r r' h =
      ground (arith, w.delete_tree_done key r, w.delete_tree_missing key r)

  delete_registry_tree_adds_none :
      (key k : Text) (r : w.Registry)
      → w.has_key k r ≡ false
      → w.has_key k (delete_registry_tree w key r).0 ≡ false
  unfolding delete_registry_tree
  delete_registry_tree_adds_none key k r gone = ground (arith, w.delete_tree_adds_none key k r gone)

  uninstall_entries_adds_none :
      (keys : List Text) (k : Text) (r r' : w.Registry)
      → w.has_key k r ≡ false
      → uninstall_entries w keys r ≡ (r', ok tt)
      → w.has_key k r' ≡ false
  unfolding uninstall_entries
  uninstall_entries_adds_none [] k r r' gone h = cc
  uninstall_entries_adds_none (key ∷ keys) k r r' gone h =
      let (s, first, rest) =
        next?_ok (delete_registry_tree w key r) (uninstall_entries w keys) r' h in
      let still = delete_registry_tree_adds_none key k r gone in
      uninstall_entries_adds_none keys k s r' (cc (still, first)) rest

  uninstall_entries_ok :
      (key : Text) (keys : List Text) (r r' : w.Registry)
      → uninstall_entries w (key ∷ keys) r ≡ (r', ok tt)
      → w.has_key key r' ≡ false
  unfolding uninstall_entries
  uninstall_entries_ok key keys r r' h =
      let (s, first, rest) =
        next?_ok (delete_registry_tree w key r) (uninstall_entries w keys) r' h in
      uninstall_entries_adds_none keys key s r' (delete_registry_tree_ok key r s first) rest

module _ (w : Winreg) (windows : Bool) (current_exe exe_path : Option Text) where
  install_context_menu-installed :
      (r r' : w.Registry)
      → windows ≡ true
      → install_context_menu w windows current_exe exe_path r ≡ (r', ok tt)
      → w.has_key star_entry r' ≡ true
  unfolding install_context_menu
  install_context_menu-installed r r' e h = elim (Option-cases exe_path) [
    | inr (exe, given) ↦
        install_entries_ok w exe star_entry (directory_entry ∷ []) r r'
          (sym (rw (given, e, install_context_menu) refl) ∙ h)
    | inl f ↦ elim (Option-cases current_exe) [
      | inr (exe, found) ↦
          install_entries_ok w exe star_entry (directory_entry ∷ []) r r'
            (sym (rw (f, found, e, install_context_menu) refl) ∙ h)
      | inl g ↦ absurd (ground (arith, rw (f, g, e, install_context_menu) at h))
    ]
  ]

  uninstall_context_menu-installed :
      (r r' : w.Registry)
      → uninstall_context_menu w windows r ≡ (r', ok tt)
      → is_context_menu_installed w windows r' ≡ false
  unfolding uninstall_context_menu is_context_menu_installed
  uninstall_context_menu-installed r r' h = elim (Bool-cases windows) [
    | inl e ↦ rw e (
        uninstall_entries_ok w star_entry (directory_entry ∷ []) r r'
          (sym (rw (e, uninstall_context_menu) refl) ∙ h))
    | inr e ↦ rw e refl
  ]

  install_context_menu-status :
      (r r' : w.Registry)
      → install_context_menu w windows current_exe exe_path r ≡ (r', ok tt)
      → is_context_menu_installed w windows r' ≡ windows
  unfolding is_context_menu_installed
  install_context_menu-status r r' h = elim (Bool-cases windows) [
    | inl e ↦ rw e (install_context_menu-installed r r' e h)
    | inr e ↦ rw e refl
  ]

  -- On Windows, the context menu counts as installed after an installation that succeeds, whatever
  -- the registry was before, and no more after a removal that succeeds then. On another system it
  -- is never installed, also after an installation, which succeeds there.
  pub is_context_menu_installed_lem :
      (r r' r'' : w.Registry)
      → install_context_menu w windows current_exe exe_path r ≡ (r', ok tt)
      → uninstall_context_menu w windows r' ≡ (r'', ok tt)
      → (is_context_menu_installed w windows r' ≡ windows)
        × (is_context_menu_installed w windows r'' ≡ false)
  is_context_menu_installed_lem r r' r'' installed removed =
      (install_context_menu-status r r' installed, uninstall_context_menu-installed r' r'' removed)
