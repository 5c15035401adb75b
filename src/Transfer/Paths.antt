-- ===== src/Transfer/Paths.antt =====
-- The staged files of a transfer in crates/tusher-transfer/src/state.rs.
use t_u_s_h_e_r.Base.{
  ℕ, ◌≡◌, ◌≢◌, refl, ap, sym, ◌∙◌, List, [], ◌∷◌, ◌++◌, arith, bytes_eq, nat_eq, ok, some,
  Option-cases, inl, inr,
}
use t_u_s_h_e_r.Base.Text.{Text, ascii, slash}
use t_u_s_h_e_r.Base.FilePath.{join}
use t_u_s_h_e_r.Base.Maps.{insert}
use t_u_s_h_e_r.Transfer.Disk.{Disk}
use t_u_s_h_e_r.Transfer.State.{
  TransferState, StateJson, state_file_path, partial_file_path, save, load,
}

-- The last byte of a text, or the one given.
last_byte : ℕ → Text → ℕ
last_byte d [] = d
last_byte d (c ∷ s) = last_byte c s

last_byte-append :
    (d : ℕ) (xs : Text) (y : ℕ) (ys : Text) → last_byte d (xs ++ (y ∷ ys)) ≡ last_byte y ys
unfolding last_byte
last_byte-append d [] y ys = refl
last_byte-append d (x ∷ xs) y ys = last_byte-append x xs y ys

last_byte-join :
    (d : ℕ) (base : Text) (y : ℕ) (ys : Text) → last_byte d (join base (y ∷ ys)) ≡ last_byte y ys
unfolding join last_byte
last_byte-join d base y ys =
    ground (arith, last_byte-append d base y ys, last_byte-append d base slash (y ∷ ys))

join-last_byte :
    (d : ℕ) (base id : Text) (y : ℕ) (ys : Text)
    → last_byte d (join base (id ++ (y ∷ ys))) ≡ last_byte y ys
unfolding last_byte
join-last_byte d base [] y ys = last_byte-join d base y ys
join-last_byte d base (c ∷ id) y ys =
    last_byte-join d base c (id ++ (y ∷ ys)) ∙ last_byte-append c id y ys

last_letters_differ : last_byte 46 (ascii "state") ≢ last_byte 46 (ascii "partial")
unfolding last_byte
last_letters_differ h = absurd (omega arith)

-- The state file and the partial file of a transfer are two files.
pub state_file_path-ne-partial_file_path :
    (staging_dir transfer_id : Text)
    → state_file_path staging_dir transfer_id ≢ partial_file_path staging_dir transfer_id
unfolding state_file_path partial_file_path last_byte
state_file_path-ne-partial_file_path staging_dir transfer_id e =
    let a = join-last_byte 0 staging_dir transfer_id 46 (ascii "state") in
    let b = join-last_byte 0 staging_dir transfer_id 46 (ascii "partial") in
    last_letters_differ (sym a ∙ ap (last_byte 0) e ∙ b)

module _ (json : StateJson) where
  -- What is written is the JSON text of the state, to its state file.
  save_written :
      (staging_dir : Text) (state : TransferState) (disk : Disk) {disk' : Disk}
      → save json staging_dir state disk ≡ ok disk'
      → (p : List ℕ) × (json.to_vec_pretty state ≡ some p)
        × (disk' ≡ insert (state_file_path staging_dir state.transfer_id) p disk)
  unfolding save
  save_written staging_dir state disk e = elim (Option-cases (json.to_vec_pretty state)) [
    | inl failed ↦ absurd (ground arith)
    | inr (p, written) ↦ (p, written, ground arith)
  ]

  load-insert :
      (staging_dir : Text) (state : TransferState) (disk : Disk) (p : List ℕ)
      → json.to_vec_pretty state ≡ some p
      → load json staging_dir state.transfer_id
          (insert (state_file_path staging_dir state.transfer_id) p disk)
        ≡ ok state
  unfolding load
  load-insert staging_dir state disk p written =
      ground (arith, json.from_slice-to_vec_pretty state p written)

  -- A saved state is loaded again, and no other file is written.
  pub load-save :
      (staging_dir : Text) (state : TransferState) (disk : Disk) {disk' : Disk}
      → save json staging_dir state disk ≡ ok disk'
      → (load json staging_dir state.transfer_id disk' ≡ ok state)
        × ((path : Text)
            → path ≢ state_file_path staging_dir state.transfer_id
            → disk' path ≡ disk path)
  load-save staging_dir state disk e =
      let (p, written, same) = save_written staging_dir state disk e in
      (rw same (load-insert staging_dir state disk p written), λ path other. rw same (ground arith))
