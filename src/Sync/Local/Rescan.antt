-- ===== src/Sync/Local/Rescan.antt =====
-- What `initial_scan` of crates/tusher-sync/src/coordinator.rs leaves, and a second scan.
use t_u_s_h_e_r.Base.{
  ◌≡◌, inl, inr, refl, sym, ap, ◌∙◌, Bool-cases, Option-cases, List, [], ◌∷◌, true, ok, All,
  Pairwise,
}
use t_u_s_h_e_r.Base.Int.{ℤ}
use t_u_s_h_e_r.Base.Text.{Text}
use t_u_s_h_e_r.Base.Assoc.{get}
use t_u_s_h_e_r.Base.{some, ℕ, Option-cases}
use t_u_s_h_e_r.Metadata.Db.{Rusqlite, get_file}
use t_u_s_h_e_r.Transfer.Hash.{Sha256}
use t_u_s_h_e_r.Sync.Watcher.{normalize_relative_path}
use t_u_s_h_e_r.Sync.State.{Coordinator}
use t_u_s_h_e_r.Sync.Local.{is_walked, scan_file, scan_entry, scan_entries, initial_scan}
use t_u_s_h_e_r.Sync.Local.Scan.{Describes-is_indexed}
use t_u_s_h_e_r.Sync.Local.Entries.{Indexed, Apart, Room, Elsewhere, scan_entries_lem}

module _ (driver : Rusqlite) (sha : Sha256) (now later : ℤ) (folder root : Text) where
  scan_file-Indexed :
      (path : Text) (bytes : List ℕ) (rel : Text) (c : Coordinator)
      → Indexed driver sha now folder root c path
      → is_walked root path ≡ true
      → c.transfer.disk path ≡ some bytes
      → normalize_relative_path root path ≡ some rel
      → scan_file driver sha later folder rel bytes c ≡ (c, ok tt)
  unfolding scan_file
  scan_file-Indexed path bytes rel c indexed walked there under =
      let (rec, got, fits) = indexed bytes rel (walked, there, under) in
      rw (got, Describes-is_indexed driver sha now folder rec bytes fits, scan_file) refl

  scan_entry-Indexed :
      (path : Text) (c : Coordinator)
      → Indexed driver sha now folder root c path
      → scan_entry driver sha later folder root path c ≡ (c, ok tt)
  unfolding scan_entry
  scan_entry-Indexed path c indexed = elim (Bool-cases (is_walked root path)) [
    | inr e ↦ rw (e, scan_entry) refl
    | inl e ↦ elim (Option-cases (c.transfer.disk path)) [
      | inl e' ↦ rw (e, e', scan_entry) refl
      | inr (bytes, e') ↦ elim (Option-cases (normalize_relative_path root path)) [
        | inl f ↦ rw (e, e', f, scan_entry) refl
        | inr (rel, f) ↦
            rw (e, e', f, scan_entry) (scan_file-Indexed path bytes rel c indexed e e' f)
      ]
    ]
  ]

  scan_entries-Indexed :
      (paths : List Text) (c : Coordinator)
      → All (Indexed driver sha now folder root c) paths
      → scan_entries driver sha later folder root paths c ≡ (c, ok tt)
  unfolding scan_entries
  scan_entries-Indexed [] c h = refl
  scan_entries-Indexed (path ∷ paths) c (h, hs) =
      rw (scan_entry-Indexed path c h) (scan_entries-Indexed paths c hs)

  -- An initial scan that succeeds leaves every listed file that it does not pass over in the
  -- catalog, with its size and its hash. It leaves the paths of its folder that are those of no
  -- listed entry, all paths of other folders and the disk as they were, and a second scan, at any
  -- time, changes nothing. No two of the entries may share a path in the catalog, and the size and
  -- the next version of each file have to fit an `i64`.
  pub initial_scan-Indexed :
      (walkdir : Text → List Text) (c c' : Coordinator)
      → get folder c.registered_folders ≡ some root
      → Pairwise (Apart driver sha now folder root) (walkdir root)
      → All (Room driver sha now folder root c) (walkdir root)
      → initial_scan driver sha now walkdir folder c ≡ (c', ok tt)
      → (c'.transfer ≡ c.transfer)
        × All (Indexed driver sha now folder root c') (walkdir root)
        × ((g p : Text)
            → Elsewhere driver sha now folder root g p (walkdir root)
            → get_file driver g p c'.db ≡ get_file driver g p c.db)
        × (initial_scan driver sha later walkdir folder c' ≡ (c', ok tt))
  unfolding initial_scan
  initial_scan-Indexed walkdir c c' registered apart room h =
      let (transfer, folders, indexed, kept) =
        scan_entries_lem driver sha now folder root (walkdir root) c c' apart room
          (sym (rw (registered, initial_scan) refl) ∙ h) in
      let registered' : get folder c'.registered_folders ≡ some root =
        ap (get folder) folders ∙ registered in
      (
        transfer,
        indexed,
        kept,
        rw (registered', initial_scan) (scan_entries-Indexed (walkdir root) c' indexed),
      )
