-- ===== src/Base/Cuts.antt =====
-- Lists cut in pieces and put together again.
use mathlib.Core.Path.{◌≡◌, refl, ap, ◌∙◌}
use mathlib.Core.List.{List, [], ◌∷◌, ◌++◌}
use Prim.Native.Nat.{ℕ, zero, suc, ◌+◌, ◌≤◌}
use native.Mathlib.Omega.{arith}
use native.Mathlib.Numerals.{unary_clauses}
use t_u_s_h_e_r.Base.Lists.{length, take, drop}

suc_add : (m n : ℕ) → suc (m + n) ≡ suc m + n
suc_add m n = omega arith

module _ {ℓ} {A : Type ℓ} where
  pub take-add : (m n : ℕ) (xs : List A) → take m xs ++ take n (drop m xs) ≡ take (m + n) xs
  take-add zero n xs = ap (λ k. take k xs) (omega arith)
  take-add (suc m) zero [] = simp unary_clauses refl
  take-add (suc m) (suc n) [] = simp unary_clauses refl
  take-add (suc m) n (x ∷ xs) =
      ap (◌∷◌ x) (take-add m n xs) ∙ ap (λ k. take k (x ∷ xs)) (suc_add m n)

  pub drop-add : (m n : ℕ) (xs : List A) → drop n (drop m xs) ≡ drop (m + n) xs
  drop-add zero n xs = ap (λ k. drop k xs) (omega arith)
  drop-add (suc m) zero [] = simp unary_clauses refl
  drop-add (suc m) (suc n) [] = simp unary_clauses refl
  drop-add (suc m) n (x ∷ xs) = drop-add m n xs ∙ ap (λ k. drop k (x ∷ xs)) (suc_add m n)

  pub take_whole : (n : ℕ) (xs : List A) → length xs ≤ n → take n xs ≡ xs
  take_whole zero [] h = refl
  take_whole (suc n) [] h = refl
  take_whole zero (x ∷ xs) h = absurd (omega arith)
  take_whole (suc n) (x ∷ xs) h = ap (◌∷◌ x) (take_whole n xs (omega arith))

  pub drop_whole : (n : ℕ) (xs : List A) → length xs ≤ n → drop n xs ≡ []
  drop_whole zero [] h = refl
  drop_whole (suc n) [] h = refl
  drop_whole zero (x ∷ xs) h = absurd (omega arith)
  drop_whole (suc n) (x ∷ xs) h = drop_whole n xs (omega arith)

  pub take_prefix : (n : ℕ) (xs ys : List A) → n ≤ length xs → take n (take n xs ++ ys) ≡ take n xs
  take_prefix zero xs ys h = refl
  take_prefix (suc n) [] ys h = absurd (omega arith)
  take_prefix (suc n) (x ∷ xs) ys h = ap (◌∷◌ x) (take_prefix n xs ys (omega arith))

  pub drop_prefix : (n : ℕ) (xs ys : List A) → n ≤ length xs → drop n (take n xs ++ ys) ≡ ys
  drop_prefix zero xs ys h = refl
  drop_prefix (suc n) [] ys h = absurd (omega arith)
  drop_prefix (suc n) (x ∷ xs) ys h = drop_prefix n xs ys (omega arith)

  pub append_assoc : (xs ys zs : List A) → (xs ++ ys) ++ zs ≡ xs ++ (ys ++ zs)
  append_assoc [] ys zs = refl
  append_assoc (x ∷ xs) ys zs = ap (◌∷◌ x) (append_assoc xs ys zs)

  pub append-nil : (xs : List A) → xs ++ [] ≡ xs
  append-nil [] = refl
  append-nil (x ∷ xs) = ap (◌∷◌ x) (append-nil xs)
