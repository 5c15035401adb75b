-- ===== src/Transfer/Hash.antt =====
-- crates/tusher-transfer/src/hash.rs. The hasher of the crate sha2, with `hex::encode` of its
-- result, is a parameter.
use t_u_s_h_e_r.Base.{
  ℕ, zero, suc, ◌*◌, ◌<◌, ◌≡◌, refl, sym, ap, List, [], ◌∷◌, ◌++◌, arith, length, take, drop,
  length-drop, take-append-drop,
}
use t_u_s_h_e_r.Base.Text.{Text}

-- What is used of `Sha256`: updates one behind the other hash the bytes one behind the other.
pub record Sha256 : Type 1 where
  pub Hasher : Type 0
  pub new : Hasher
  pub update : Hasher → List ℕ → Hasher
  pub finalize : Hasher → Text
  pub update-nil : (h : Hasher) → update h [] ≡ h
  pub update-append : (h : Hasher) (xs ys : List ℕ) → update (update h xs) ys ≡ update h (xs ++ ys)

-- The buffer for streaming, 64 KB.
abbrev pub buffer_size : ℕ
buffer_size = 64 * 1024

module _ (sha : Sha256) where
  unfoldable pub hash_bytes : List ℕ → Text
  hash_bytes bytes = sha.finalize (sha.update sha.new bytes)

  -- The loop of `hash_file`: reads at most a buffer, until nothing is read.
  unfoldable pub hash_loop : ℕ → sha.Hasher → List ℕ → sha.Hasher
  hash_loop zero hasher bytes = hasher
  hash_loop (suc fuel) hasher bytes = elim (take buffer_size bytes) [
    | [] ↦ hasher
    | b ∷ bs ↦ hash_loop fuel (sha.update hasher (b ∷ bs)) (drop buffer_size bytes)
  ]

  -- `hash_file` on the bytes of the file: every read but the last gives at least one byte.
  unfoldable pub hash_file : List ℕ → Text
  unfolding hash_loop
  hash_file bytes = sha.finalize (hash_loop (suc (length bytes)) sha.new bytes)

  hash_loop_lem :
      (fuel : ℕ) (hasher : sha.Hasher) (bytes : List ℕ)
      → length bytes < fuel
      → hash_loop fuel hasher bytes ≡ sha.update hasher bytes
  unfolding hash_loop
  hash_loop_lem zero hasher bytes h = absurd (omega arith)
  hash_loop_lem (suc fuel) hasher [] h = sym (sha.update-nil hasher)
  hash_loop_lem (suc fuel) hasher (b ∷ bytes) h =
      rw
        (
          hash_loop_lem fuel (sha.update hasher (b ∷ take 65535 bytes)) (drop 65535 bytes)
              (omega (arith, length-drop 65535 bytes)),
          sha.update-append hasher (b ∷ take 65535 bytes) (drop 65535 bytes),
          take-append-drop 65535 bytes,
        )
        refl

  -- Hashing a file buffer by buffer gives the hash of all its bytes.
  pub hash_file-eq-hash_bytes : (bytes : List ℕ) → hash_file bytes ≡ hash_bytes bytes
  unfolding hash_file hash_bytes
  hash_file-eq-hash_bytes bytes =
      ap sha.finalize (hash_loop_lem (suc (length bytes)) sha.new bytes (omega arith))
