-- ===== src/Sync/Local/Entries.antt =====
-- The loop over the entries in `initial_scan` of crates/tusher-sync/src/coordinator.rs.
use t_u_s_h_e_r.Base.{
  ℕ, ◌^◌, ◌<◌, ◌≡◌, ◌≢◌, ◌⊎◌, inl, inr, refl, sym, ap, ◌∙◌, true, Bool-cases, some, Option-cases,
  List, [], ◌∷◌, arith, nat_eq, bytes_eq, length, ok, All, All-map, All-zip, Pairwise,
}
use mathlib.Core.Path.{subst}
use t_u_s_h_e_r.Base.Int.{ℤ}
use t_u_s_h_e_r.Base.Text.{Text}
use t_u_s_h_e_r.Metadata.Models.{FileRecord}
use t_u_s_h_e_r.Metadata.Db.{Rusqlite, get_file, normalize_path}
use t_u_s_h_e_r.Metadata.Db.Changes.{OtherFile}
use t_u_s_h_e_r.Transfer.Hash.{Sha256}
use t_u_s_h_e_r.Sync.Watcher.{normalize_relative_path}
use t_u_s_h_e_r.Sync.State.{Coordinator}
use t_u_s_h_e_r.Sync.Reconcile.Pull.{then?_ok}
use t_u_s_h_e_r.Sync.Local.{is_walked, scan_entry, scan_entries}
use t_u_s_h_e_r.Sync.Local.Echo.{HasRoom}
use t_u_s_h_e_r.Sync.Local.Scan.{Describes, Scanned, scan_file_ok}

module _ (driver : Rusqlite) (sha : Sha256) (now : ℤ) (folder root : Text) where
  -- What the scan reads at a path: a file that it does not pass over, under its relative path.
  abbrev pub Target : Coordinator → Text → List ℕ → Text → Type 0
  Target c path bytes rel =
      (is_walked root path ≡ true)
      × (c.transfer.disk path ≡ some bytes)
      × (normalize_relative_path root path ≡ some rel)

  -- The catalog has the file at a path with its size and hash.
  abbrev pub Indexed : Coordinator → Text → Type 0
  Indexed c path =
      (bytes : List ℕ) (rel : Text)
      → Target c path bytes rel
      → (rec : FileRecord) × (get_file driver folder rel c.db ≡ ok (some rec))
        × Describes driver sha now folder rec bytes

  -- A path of the catalog is not that of a file.
  abbrev pub Off : Text → Text → Type 0
  Off p path =
      (rel : Text)
      → normalize_relative_path root path ≡ some rel
      → normalize_path p ≢ normalize_path rel

  -- Neither is a file of another folder.
  abbrev pub Elsewhere : Text → Text → List Text → Type 0
  Elsewhere g p paths = (g ≢ folder) ⊎ All (Off p) paths

  -- Two files do not share a path in the catalog.
  abbrev pub Apart : Text → Text → Type 0
  Apart p q =
      (rp rq : Text)
      → normalize_relative_path root p ≡ some rp
      → normalize_relative_path root q ≡ some rq
      → normalize_path rp ≢ normalize_path rq

  -- Size and next version of a file can be stored.
  abbrev pub Room : Coordinator → Text → Type 0
  Room c path =
      (bytes : List ℕ) (rel : Text)
      → Target c path bytes rel
      → (length bytes < 2 ^ 63) × HasRoom driver folder rel c.db

  abbrev pub ScannedAll : List Text → Coordinator → Coordinator → Type 0
  ScannedAll paths c c' =
      (c'.transfer ≡ c.transfer)
      × (c'.registered_folders ≡ c.registered_folders)
      × All (Indexed c') paths
      × ((g p : Text) → Elsewhere g p paths → get_file driver g p c'.db ≡ get_file driver g p c.db)

  passed_over :
      (path : Text) (c c' : Coordinator)
      → ((bytes : List ℕ) (rel : Text) → Target c path bytes rel → ⊥)
      → c ≡ c'
      → ScannedAll (path ∷ []) c c'
  passed_over path c c' never same =
      subst (ScannedAll (path ∷ []) c) same
        (refl, refl, ((λ bytes rel target. absurd (never bytes rel target)), tt), λ g p off. refl)

  from_file :
      (path : Text) (bytes : List ℕ) (rel : Text) (c c' : Coordinator)
      → Target c path bytes rel
      → Scanned driver sha now folder rel bytes c c'
      → ScannedAll (path ∷ []) c c'
  from_file path bytes rel c c' (walked, there, under) (transfer, folders, found, others) =
      let other_file : (g p : Text) → Elsewhere g p (path ∷ []) → OtherFile g p folder rel =
        λ g p off. elim off [ inl g_off ↦ inl g_off | inr (p_off, rest) ↦ inr (p_off rel under) ] in
      (
        transfer,
        folders,
        (
          (λ bytes' rel' (walked', there', under').
              let same_bytes : bytes ≡ bytes' = ground (arith, ap (λ t. t.disk path) transfer) in
              let same_rel : rel ≡ rel' = ground arith in
              let (rec, got, fits) = found in
              (
                rec,
                cc (got, same_rel),
                subst (Describes driver sha now folder rec) same_bytes fits,
              )),
          tt,
        ),
        λ g p off. others g p (other_file g p off),
      )

  scan_entry_ok :
      (path : Text) (c c' : Coordinator)
      → Room c path
      → scan_entry driver sha now folder root path c ≡ (c', ok tt)
      → ScannedAll (path ∷ []) c c'
  unfolding scan_entry
  scan_entry_ok path c c' room h = elim (Bool-cases (is_walked root path)) [
    | inr e ↦
        passed_over path c c' (λ bytes rel target. absurd (ground (arith, target.0))) (ground arith)
    | inl e ↦ elim (Option-cases (c.transfer.disk path)) [
      | inl e' ↦
          passed_over path c c' (λ bytes rel (walked, there, under). absurd (ground arith))
            (ground arith)
      | inr (bytes, e') ↦ elim (Option-cases (normalize_relative_path root path)) [
        | inl f ↦
            passed_over path c c' (λ bytes' rel (walked, there, under). absurd (ground arith))
              (ground arith)
        | inr (rel, f) ↦
            let (hs, free) = room bytes rel (e, e', f) in
            from_file path bytes rel c c' (e, e', f)
              (scan_file_ok driver sha now folder rel bytes c c' hs free
                (sym (rw (e, e', f, scan_entry) refl) ∙ h))
      ]
    ]
  ]

  -- What is recorded stays recorded, and the room for what is to come stays.
  Indexed-kept :
      (path : Text) (c c' : Coordinator)
      → c'.transfer ≡ c.transfer
      → ((rel : Text)
          → normalize_relative_path root path ≡ some rel
          → get_file driver folder rel c'.db ≡ get_file driver folder rel c.db)
      → Indexed c path
      → Indexed c' path
  Indexed-kept path c c' transfer kept indexed bytes rel (walked, there, under) =
      let (rec, got, fits) =
        indexed bytes rel (walked, sym (ap (λ t. t.disk path) transfer) ∙ there, under) in
      (rec, kept rel under ∙ got, fits)

  Room-kept :
      (path : Text) (c c' : Coordinator)
      → c'.transfer ≡ c.transfer
      → ((rel : Text)
          → normalize_relative_path root path ≡ some rel
          → get_file driver folder rel c'.db ≡ get_file driver folder rel c.db)
      → Room c path
      → Room c' path
  Room-kept path c c' transfer kept room bytes rel (walked, there, under) =
      let (hs, free) =
        room bytes rel (walked, sym (ap (λ t. t.disk path) transfer) ∙ there, under) in
      (hs, λ rec found. free rec (sym (kept rel under) ∙ found))

  pub scan_entries_lem :
      (paths : List Text) (c c' : Coordinator)
      → Pairwise Apart paths
      → All (Room c) paths
      → scan_entries driver sha now folder root paths c ≡ (c', ok tt)
      → ScannedAll paths c c'
  unfolding scan_entries
  scan_entries_lem [] c c' apart room h =
      let same : c ≡ c' = ground arith in
      subst (ScannedAll [] c) same (refl, refl, tt, λ g p off. refl)
  scan_entries_lem (path ∷ paths) c c' (first, apart) (free, room) h =
      let (d, once, rest) =
        then?_ok (scan_entry driver sha now folder root path c)
          (scan_entries driver sha now folder root paths) c' h in
      let (transfer, folders, (indexed, _), kept) = scan_entry_ok path c d free once in
      let room' : All (Room d) paths =
        All-map (λ q. Apart path q × Room c q)
          (λ q (off, r).
            Room-kept q c d transfer
              (λ rel under.
                kept folder rel
                  (inr ((λ own is_own same. off own rel is_own under (sym same)), tt)))
              r)
          paths (All-zip (Apart path) (Room c) paths first room) in
      let (transfer', folders', indexed', kept') = scan_entries_lem paths d c' apart room' rest in
      (
        transfer' ∙ transfer,
        folders' ∙ folders,
        (
          Indexed-kept path d c' transfer'
              (λ rel under. kept' folder rel (
                inr (
                  All-map (Apart path) (λ q off own is_own same. off rel own under is_own same)
                    paths first)))
              indexed,
          indexed',
        ),
        λ g p off. elim off [
          | inl g_off ↦ kept' g p (inl g_off) ∙ kept g p (inl g_off)
          | inr (p_off, offs) ↦ kept' g p (inr offs) ∙ kept g p (inr (p_off, tt))
        ],
      )
