-- ===== src/Sync/Local/Scan.antt =====
-- `initial_scan` of crates/tusher-sync/src/coordinator.rs.
use t_u_s_h_e_r.Base.{
  ℕ, ◌^◌, ◌<◌, ◌≡◌, inl, inr, refl, sym, ◌∙◌, true, false, Bool-cases, none, some, List, arith,
  nat_eq, bytes_eq, length, ok, Outcome-cases,
}
use mathlib.Core.Path.{subst}
use t_u_s_h_e_r.Base.Int.{ℤ}
use t_u_s_h_e_r.Base.Text.{Text}
use t_u_s_h_e_r.Metadata.Models.{FileRecord}
use t_u_s_h_e_r.Metadata.Db.{Rusqlite, get_file, record_local_upsert}
use t_u_s_h_e_r.Metadata.Db.Changes.{OthersKept}
use t_u_s_h_e_r.Transfer.Hash.{Sha256, hash_file}
use t_u_s_h_e_r.Sync.State.{Coordinator}
use t_u_s_h_e_r.Sync.Local.{is_indexed, index_file, scan_file}
use t_u_s_h_e_r.Sync.Local.Echo.{HasRoom, recorded}

module _ (driver : Rusqlite) (sha : Sha256) (now : ℤ) (folder : Text) where
  -- A record that describes a file with these bytes.
  abbrev pub Describes : FileRecord → List ℕ → Type 0
  Describes rec bytes =
      (rec.is_deleted ≡ false)
      × (rec.size_bytes ≡ length bytes)
      × (rec.content_hash ≡ hash_file sha bytes)

  is_indexed-Describes :
      (rec : FileRecord) (bytes : List ℕ) → is_indexed sha bytes rec ≡ true → Describes rec bytes
  unfolding is_indexed
  is_indexed-Describes rec bytes h = (ground arith, ground arith, ground arith)

  pub Describes-is_indexed :
      (rec : FileRecord) (bytes : List ℕ) → Describes rec bytes → is_indexed sha bytes rec ≡ true
  unfolding is_indexed
  Describes-is_indexed rec bytes (active, sized, hashed) = ground arith

  -- The catalog has the content under the path, and nothing but this entry has changed.
  abbrev pub Scanned : Text → List ℕ → Coordinator → Coordinator → Type 0
  Scanned rel bytes c c' =
      (c'.transfer ≡ c.transfer)
      × (c'.registered_folders ≡ c.registered_folders)
      × ((rec : FileRecord) × (get_file driver folder rel c'.db ≡ ok (some rec))
          × Describes rec bytes)
      × OthersKept driver folder rel c.db c'.db

  index_file_ok :
      (rel : Text) (bytes : List ℕ) (c c' : Coordinator)
      → length bytes < 2 ^ 63
      → HasRoom driver folder rel c.db
      → index_file driver sha now folder rel bytes c ≡ (c', ok tt)
      → Scanned rel bytes c c'
  unfolding index_file is_indexed
  index_file_ok rel bytes c c' hs room h =
      elim (Outcome-cases (
        record_local_upsert driver now folder rel (length bytes) (hash_file sha bytes) c.node_id
          c.db)) [
            | inr (inl (e, k)) ↦ absurd (ground arith)
            | inr (inr k) ↦ absurd (ground arith)
            | inl ((db, ev), k) ↦
                let (rec, found, active, hashed, sized, others) =
                  recorded driver now folder rel (hash_file sha bytes) (length bytes) c.node_id c.db
                    hs room k in
                let same : record c { db = db } ≡ c' = ground arith in
                subst (Scanned rel bytes c) same
                  (refl, refl, (rec, found, (active, sized, hashed)), others)
          ]

  pub scan_file_ok :
      (rel : Text) (bytes : List ℕ) (c c' : Coordinator)
      → length bytes < 2 ^ 63
      → HasRoom driver folder rel c.db
      → scan_file driver sha now folder rel bytes c ≡ (c', ok tt)
      → Scanned rel bytes c c'
  unfolding scan_file
  scan_file_ok rel bytes c c' hs room h = elim (Outcome-cases (get_file driver folder rel c.db)) [
    | inr (inl (e, k)) ↦ absurd (ground arith)
    | inr (inr k) ↦ absurd (ground arith)
    | inl (none, k) ↦ index_file_ok rel bytes c c' hs room (sym (rw (k, scan_file) refl) ∙ h)
    | inl (some rec, k) ↦ elim (Bool-cases (is_indexed sha bytes rec)) [
      | inl e ↦
          let same : c ≡ c' = ground arith in
          subst (Scanned rel bytes c) same
            (refl, refl, (rec, k, is_indexed-Describes rec bytes e), λ f p other. refl)
      | inr e ↦ index_file_ok rel bytes c c' hs room (sym (rw (k, e, scan_file) refl) ∙ h)
    ]
  ]
