-- ===== src/Transfer/Sender/Chunks.antt =====
-- The chunks that crates/tusher-transfer/src/sender.rs reads, each written at its offset.
use native.Mathlib.Numerals.{unary_clauses}
use t_u_s_h_e_r.Base.{
  ℕ, zero, suc, ◌+◌, ◌-◌, ◌*◌, ◌≤◌, ◌≡◌, refl, sym, ap, ◌∙◌, some, List, [], ◌∷◌, ◌++◌, arith,
  length, take, drop, length-append, length-take, length-drop, take-append-drop, nat_eq,
}
use t_u_s_h_e_r.Base.Cuts.{
  take-add, drop-add, take_whole, drop_whole, take_prefix, drop_prefix, append_assoc, append-nil,
}
use t_u_s_h_e_r.Transfer.Disk.{write_at}
use t_u_s_h_e_r.Transfer.Sender.{current_chunk_len, read_exact}

pub zero_mul : (n : ℕ) → 0 * n ≡ 0
zero_mul n = omega arith

pub suc_mul : (m n : ℕ) → suc m * n ≡ m * n + n
suc_mul m n = omega arith

-- What a file is once the first bytes are those of the content.
abbrev pub filled : ℕ → List ℕ → List ℕ → List ℕ
filled n content file = take n content ++ drop n file

module _ (content file : List ℕ) (same : length file ≡ length content) where
  take-filled : (n : ℕ) → n ≤ length content → take n (filled n content file) ≡ take n content
  take-filled n h = take_prefix n content (drop n file) h

  drop-filled :
      (n k : ℕ) → n ≤ length content → drop (n + k) (filled n content file) ≡ drop (n + k) file
  drop-filled n k h =
      sym (drop-add n k (filled n content file))
      ∙ (ap (drop k) (drop_prefix n content (drop n file) h) ∙ drop-add n k file)

  length-filled : (n : ℕ) → length (filled n content file) ≡ length content
  length-filled n = omega (
    arith,
    length-append (take n content) (drop n file),
    length-take n content,
    length-drop n file,
  )

  pub filled_whole : (n : ℕ) → length content ≤ n → filled n content file ≡ content
  filled_whole n h =
      rw (take_whole n content h, drop_whole n file (omega arith)) (append-nil content)

  -- A chunk that is there already.
  pub filled-kept :
      (n k : ℕ)
      → take k (drop n file) ≡ take k (drop n content)
      → filled n content file ≡ filled (n + k) content file
  filled-kept n k e =
      ap (◌++◌ (take n content)) (sym (take-append-drop k (drop n file)))
      ∙ (ap (λ t. take n content ++ (t ++ drop k (drop n file))) e
          ∙ (sym (append_assoc (take n content) (take k (drop n content)) (drop k (drop n file)))
              ∙ (ap (λ t. t ++ drop k (drop n file)) (take-add n k content)
                  ∙ ap (◌++◌ (take (n + k) content)) (drop-add n k file))))

write_at_inside :
    (n : ℕ) (bytes file : List ℕ)
    → n ≤ length file
    → write_at n bytes file ≡ take n file ++ (bytes ++ drop (n + length bytes) file)
unfolding write_at
write_at_inside n [] file h = simp unary_clauses (sym (take-append-drop n file))
write_at_inside n (b ∷ bytes) file h =
    let none_left : n - length file ≡ 0 = omega arith in rw (none_left, append-nil file) refl

module _ (content file : List ℕ) (same : length file ≡ length content) where
  -- A chunk that is written.
  filled-write_at :
      (n : ℕ) (bytes : List ℕ)
      → n ≤ length content
      → bytes ≡ take (length bytes) (drop n content)
      → write_at n bytes (filled n content file) ≡ filled (n + length bytes) content file
  filled-write_at n bytes h e =
      write_at_inside n bytes (filled n content file)
        (omega (arith, length-filled content file same n))
      ∙ (rw (take-filled content file same n h, drop-filled content file same n (length bytes) h)
            refl
          ∙ (sym (append_assoc (take n content) bytes (drop (n + length bytes) file))
              ∙ (ap (λ t. (take n content ++ t) ++ drop (n + length bytes) file) e
                  ∙ ap (λ t. t ++ drop (n + length bytes) file)
                      (take-add n (length bytes) content))))

  read_exact-take :
      (offset len : ℕ)
      → length (take len (drop offset content)) ≡ len
      → read_exact offset len content ≡ some (take len (drop offset content))
  unfolding read_exact
  read_exact-take offset len h = ground arith

  last_chunk_len :
      (chunk_size index : ℕ)
      → current_chunk_len chunk_size (length content) (index + 1) index
        ≡ length content - index * chunk_size
  unfolding current_chunk_len
  last_chunk_len chunk_size index = ground arith

  inner_chunk_len :
      (chunk_size left index : ℕ)
      → current_chunk_len chunk_size (length content) (index + suc (suc left)) index ≡ chunk_size
  unfolding current_chunk_len
  inner_chunk_len chunk_size left index = ground arith

  -- The last chunk is what is left of the content, every other one is a whole chunk.
  pub chunk_step :
      (chunk_size left index : ℕ)
      → length content ≤ index * chunk_size + suc left * chunk_size
      → index * chunk_size + left * chunk_size ≤ length content
      → (buf : List ℕ) × (read_exact
            (index * chunk_size)
            (current_chunk_len chunk_size (length content) (index + suc left) index)
            content
          ≡ some buf)
        × (write_at (index * chunk_size) buf (filled (index * chunk_size) content file)
            ≡ filled (suc index * chunk_size) content file)
  chunk_step chunk_size zero index over room =
      let n = index * chunk_size in
      let rest = length content - n in
      let buf = take rest (drop n content) in
      let whole : length buf ≡ rest =
        omega (arith, length-take rest (drop n content), length-drop n content) in
      (
        buf,
        rw (last_chunk_len chunk_size index) (read_exact-take n rest whole),
        filled-write_at n buf (omega arith) (ap (λ k. take k (drop n content)) (sym whole))
            ∙ (filled_whole content file same (n + length buf) (omega arith)
                ∙ sym (
                    filled_whole content file same (suc index * chunk_size)
                      (omega (arith, suc_mul index chunk_size, suc_mul 0 chunk_size)))),
      )
  chunk_step chunk_size (suc left) index over room =
      let n = index * chunk_size in
      let buf = take chunk_size (drop n content) in
      let whole : length buf ≡ chunk_size = omega (
        arith,
        length-take chunk_size (drop n content),
        length-drop n content,
        suc_mul left chunk_size,
      ) in
      (
        buf,
        rw (inner_chunk_len chunk_size left index) (read_exact-take n chunk_size whole),
        filled-write_at n buf (omega arith) (ap (λ k. take k (drop n content)) (sym whole))
            ∙ ap (λ k. filled k content file) (omega (arith, suc_mul index chunk_size)),
      )
