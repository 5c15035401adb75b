-- ===== src/Transfer/Sender/Reassembly.antt =====
-- The loop of crates/tusher-transfer/src/sender.rs that sends the chunks of a file.
use native.Mathlib.Nat.{mod-eq_of_lt, div-mul-le_self, div-lt_iff_lt-mul}
use mathlib.Core.Path.{subst}
use t_u_s_h_e_r.Base.{
  ℕ, zero, suc, ◌+◌, ◌-◌, ◌*◌, ◌/◌, ◌^◌, ◌≤◌, ◌<◌, ◌≡◌, refl, sym, ap, ◌∙◌, inl, inr, true,
  Bool-cases, Option, none, some, List, arith, length, take, drop, any, ◌==◌, nat_eq, Outcome, ok,
}
use t_u_s_h_e_r.Base.Text.{Text}
use t_u_s_h_e_r.Core.Protocol.{Message, transfer_chunk, transfer_chunk_ack}
use t_u_s_h_e_r.Transfer.Hash.{Sha256}
use t_u_s_h_e_r.Transfer.Disk.{write_at}
use t_u_s_h_e_r.Transfer.Sender.Chunks.{
  zero_mul, suc_mul, filled, filled_whole, filled-kept, chunk_step,
}
use t_u_s_h_e_r.Transfer.Sender.{
  SendError, total_chunks, current_chunk_len, read_exact, chunk_response, send_chunks,
}

-- A peer that is the partial file: each chunk is written at its offset and accepted.
abbrev pub write_chunk : Message → List ℕ → List ℕ × Outcome SendError (Option Message)
write_chunk (transfer_chunk id index offset bytes hash) file =
    (write_at offset bytes file, ok (some (transfer_chunk_ack id index true)))
write_chunk msg file = (file, ok none)

one_less : {total : ℕ} (m : ℕ) → total ≡ 1 → total ≡ suc m → m ≡ 0
one_less m one is_m = omega arith

-- The number of chunks is the number of whole chunks that the content needs, if `u32` holds it.
total_chunks_lem :
    (chunk_size size : ℕ) {total : ℕ}
    → 0 < chunk_size
    → (size + chunk_size - 1) / chunk_size < 2 ^ 32
    → total_chunks chunk_size size ≡ ok total
    → (size ≤ total * chunk_size) × ((m : ℕ) → total ≡ suc m → m * chunk_size ≤ size)
unfolding total_chunks
total_chunks_lem chunk_size size {total} positive fits e =
    let q = (size + chunk_size - 1) / chunk_size in
    let below = div-mul-le_self (size + chunk_size - 1) chunk_size in
    let above =
      (div-lt_iff_lt-mul {x = size + chunk_size - 1} {y = suc q} positive).0 (omega arith) in
    elim (nat_eq.dec size 0) [
      | yes empty ↦
          let one : total ≡ 1 = ground arith in
          (
            omega (arith, empty),
            λ m is_m.
                (omega
                  (arith, zero_mul chunk_size, ap (λ k. k * chunk_size) (one_less m one is_m))),
          )
      | no some_bytes ↦
          let is_q : total ≡ q = ground (arith, mod-eq_of_lt fits) in
          (
            omega (arith, suc_mul q chunk_size, ap (λ k. k * chunk_size) is_q),
            λ m is_m.
                omega (arith, suc_mul m chunk_size, ap (λ k. k * chunk_size) (sym is_m ∙ is_q)),
          )
    ]

module _ (sha : Sha256) (id : Text) (chunk_size : ℕ) (content file : List ℕ) (existing : List ℕ)
    (same : length file ≡ length content)
    (kept : (j : ℕ)
      → any (λ n. n == j) existing ≡ true
      → take chunk_size (drop (j * chunk_size) file)
        ≡ take chunk_size (drop (j * chunk_size) content)) where
  -- The rest of the loop, from a chunk on, fills the rest of the file.
  send_chunks-filled :
      (left index sent skipped total : ℕ)
      → total ≡ index + left
      → length content ≤ index * chunk_size + left * chunk_size
      → ((m : ℕ) → left ≡ suc m → index * chunk_size + m * chunk_size ≤ length content)
      → (counts : ℕ × ℕ) × (send_chunks sha write_chunk id chunk_size total content existing left
            index sent skipped
            (filled (index * chunk_size) content file)
          ≡ (content, ok counts))
        × (counts.0 + counts.1 ≡ sent + skipped + left)
  unfolding send_chunks chunk_response
  send_chunks-filled zero index sent skipped total sum over room = (
    (sent, skipped),
    rw (filled_whole content file same (index * chunk_size) (omega (arith, over))) refl,
    omega arith,
  )
  send_chunks-filled (suc left) index sent skipped total sum over room =
      let (buf, read, stored) =
        chunk_step content file same chunk_size left index over (room left refl) in
      let over' : length content ≤ suc index * chunk_size + left * chunk_size =
        omega (arith, suc_mul left chunk_size, suc_mul index chunk_size) in
      let room' : (m : ℕ)
          → left ≡ suc m
          → suc index * chunk_size + m * chunk_size ≤ length content =
        λ m e. omega (
          arith,
          room left refl,
          suc_mul m chunk_size,
          suc_mul index chunk_size,
          ap (λ k. k * chunk_size) e,
        ) in
      let read' : read_exact (index * chunk_size)
            (current_chunk_len chunk_size (length content) total index) content
          ≡ some buf =
        rw sum read in
      let sum' : total ≡ suc index + left = omega arith in
      elim (Bool-cases (any (λ n. n == index) existing)) [
        | inl there ↦
            let (counts, run, counted) =
              send_chunks-filled left (suc index) sent (suc skipped) total sum' over' room' in
            let skip =
              filled-kept content file same (index * chunk_size) chunk_size (kept index there)
              ∙ ap (λ k. filled k content file) (sym (suc_mul index chunk_size)) in
            (counts, ground (arith, there, skip, run), omega arith)
        | inr missing ↦
            let (counts, run, counted) =
              send_chunks-filled left (suc index) (suc sent) skipped total sum' over' room' in
            (counts, ground (arith, missing, read', stored, run), omega arith)
      ]

  -- The sender gets a file through: if a peer writes each chunk at its offset, and has already right
  -- those chunks that it names as there, its file is the content in the end, and every chunk was
  -- either sent or skipped. The file of the peer is as long as the content from the start. The size of a chunk is not zero and `u32` holds the number of chunks.
  pub send_chunks_lem :
      (total : ℕ)
      → 0 < chunk_size
      → (length content + chunk_size - 1) / chunk_size < 2 ^ 32
      → total_chunks chunk_size (length content) ≡ ok total
      → (counts : ℕ × ℕ) × (send_chunks sha write_chunk id chunk_size total content existing total 0
            0 0 file
          ≡ (content, ok counts))
        × (counts.0 + counts.1 ≡ total)
  send_chunks_lem total positive fits planned =
      let (over, room) = total_chunks_lem chunk_size (length content) positive fits planned in
      let (counts, run, counted) =
        send_chunks-filled total 0 0 0 total (omega arith) (omega (arith, over))
          (λ m e. omega (arith, room m e)) in
      let start : filled (0 * chunk_size) content file ≡ file =
        ap (λ n. filled n content file) (zero_mul chunk_size) in
      (
        counts,
        subst
            (λ f.
              send_chunks sha write_chunk id chunk_size total content existing total 0 0 0 f
              ≡ (content, ok counts))
            start run,
        omega arith,
      )
