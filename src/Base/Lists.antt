-- ===== src/Base/Lists.antt =====
-- Lists measured and cut by native numbers, under the library's names.
use Prim.Native.Nat.{ℕ, zero, suc, ◌+◌, ◌-◌, min}
use mathlib.Core.Path.{◌≡◌, refl, ap}
use mathlib.Core.List.{List, [], ◌∷◌, ◌++◌}
use mathlib.Core.Bool.{Bool, true, false}
use mathlib.Core.Logic.{inl, inr}
use t_u_s_h_e_r.Base.Equality.{if◌then◌else◌, Bool-cases}
use mathlib.Core.Option.{Option, none, some}
use native.Mathlib.Omega.{arith}

module _ {ℓ} {A : Type ℓ} where
  abbrev pub length : List A → ℕ
  length [] = 0
  length (x ∷ xs) = suc (length xs)

  abbrev pub take : ℕ → List A → List A
  take zero xs = []
  take (suc n) [] = []
  take (suc n) (x ∷ xs) = x ∷ take n xs

  abbrev pub drop : ℕ → List A → List A
  drop zero xs = xs
  drop (suc n) [] = []
  drop (suc n) (x ∷ xs) = drop n xs

  abbrev pub replicate : ℕ → A → List A
  replicate zero a = []
  replicate (suc n) a = a ∷ replicate n a

  pub length-append : (xs ys : List A) → length (xs ++ ys) ≡ length xs + length ys
  length-append [] ys = omega arith
  length-append (x ∷ xs) ys = omega (arith, length-append xs ys)

  pub length-take : (n : ℕ) (xs : List A) → length (take n xs) ≡ min n (length xs)
  length-take zero xs = omega arith
  length-take (suc n) [] = omega arith
  length-take (suc n) (x ∷ xs) = omega (arith, length-take n xs)

  pub length-drop : (n : ℕ) (xs : List A) → length (drop n xs) ≡ length xs - n
  length-drop zero xs = omega arith
  length-drop (suc n) [] = omega arith
  length-drop (suc n) (x ∷ xs) = omega (arith, length-drop n xs)

  pub length-replicate : (n : ℕ) (a : A) → length (replicate n a) ≡ n
  length-replicate zero a = refl
  length-replicate (suc n) a = ap suc (length-replicate n a)

  pub take-append-drop : (n : ℕ) (xs : List A) → take n xs ++ drop n xs ≡ xs
  take-append-drop zero xs = refl
  take-append-drop (suc n) [] = refl
  take-append-drop (suc n) (x ∷ xs) = rw (take-append-drop n xs)

  pub take-append_length : (xs ys : List A) → take (length xs) (xs ++ ys) ≡ xs
  take-append_length [] ys = refl
  take-append_length (x ∷ xs) ys = ap (◌∷◌ x) (take-append_length xs ys)

  pub drop-append_length : (xs ys : List A) → drop (length xs) (xs ++ ys) ≡ ys
  drop-append_length [] ys = refl
  drop-append_length (x ∷ xs) ys = drop-append_length xs ys

module _ {ℓ} {A : Type ℓ} where
  -- The elements that pass a Boolean test, in order.
  abbrev pub filter : (A → Bool) → List A → List A
  filter p [] = []
  filter p (x ∷ xs) = let rest = filter p xs in if p x then x ∷ rest else rest

  abbrev pub find? : (A → Bool) → List A → Option A
  find? p [] = none
  find? p (x ∷ xs) = if p x then some x else find? p xs

  abbrev pub any : (A → Bool) → List A → Bool
  any p [] = false
  any p (x ∷ xs) = if p x then true else any p xs

  -- A predicate on every element.
  abbrev pub All {κ} : (A → Type κ) → List A → Type κ
  All P [] = Unit
  All P (x ∷ xs) = P x × All P xs

  -- A relation between each element and every later one.
  abbrev pub Pairwise {κ} : (A → A → Type κ) → List A → Type κ
  Pairwise R [] = Unit
  Pairwise R (x ∷ xs) = All (R x) xs × Pairwise R xs

module _ {ℓ} {A : Type ℓ} (le : A → A → Bool) where
  -- Puts `x` before the first element that it is `le`.
  unfoldable pub insert_sorted : A → List A → List A
  insert_sorted x [] = x ∷ []
  insert_sorted x (y ∷ ys) = if le x y then x ∷ y ∷ ys else y ∷ insert_sorted x ys

  -- A stable sort: `ORDER BY`, `sort_by_key`.
  unfoldable pub sort_by : List A → List A
  unfolding insert_sorted
  sort_by [] = []
  sort_by (x ∷ xs) = insert_sorted x (sort_by xs)

  insert_sorted_least :
      (x : A) (xs : List A) → All (λ y. le x y ≡ true) xs → insert_sorted x xs ≡ x ∷ xs
  unfolding insert_sorted
  insert_sorted_least x [] h = refl
  insert_sorted_least x (y ∷ ys) h = rw h.0

  -- A list that is in order already is left as it is.
  pub sort_by_sorted : (xs : List A) → Pairwise (λ x y. le x y ≡ true) xs → sort_by xs ≡ xs
  unfolding sort_by
  sort_by_sorted [] h = refl
  sort_by_sorted (x ∷ xs) h = rw (sort_by_sorted xs h.1, insert_sorted_least x xs h.0)

module _ {ℓ κ} {A : Type ℓ} (le : A → A → Bool) (P : A → Type κ) where
  All-insert_sorted : (x : A) (xs : List A) → P x → All P xs → All P (insert_sorted le x xs)
  unfolding insert_sorted
  All-insert_sorted x [] px h = (px, tt)
  All-insert_sorted x (y ∷ ys) px (py, h) = elim (Bool-cases (le x y)) [
    | inl e ↦ rw e (px, (py, h))
    | inr e ↦ rw e (py, All-insert_sorted x ys px h)
  ]

  -- Sorting keeps what holds of every element.
  pub All-sort_by : (xs : List A) → All P xs → All P (sort_by le xs)
  unfolding sort_by
  All-sort_by [] h = tt
  All-sort_by (x ∷ xs) (px, h) = All-insert_sorted x (sort_by le xs) px (All-sort_by xs h)

module _ {ℓ κ} {A : Type ℓ} (le : A → A → Bool) (R : A → A → Type κ)
    (turn : (a b : A) → R a b → R b a) where
  Pairwise-insert_sorted :
      (x : A) (xs : List A) → All (R x) xs → Pairwise R xs → Pairwise R (insert_sorted le x xs)
  unfolding insert_sorted
  Pairwise-insert_sorted x [] h k = (tt, tt)
  Pairwise-insert_sorted x (y ∷ ys) (hy, h) (ky, k) = elim (Bool-cases (le x y)) [
    | inl e ↦ rw e ((hy, h), (ky, k))
    | inr e ↦
        rw e (All-insert_sorted le (R y) x ys (turn x y hy) ky, Pairwise-insert_sorted x ys h k)
  ]

  -- Sorting keeps a symmetric relation between all elements.
  pub Pairwise-sort_by : (xs : List A) → Pairwise R xs → Pairwise R (sort_by le xs)
  unfolding sort_by
  Pairwise-sort_by [] h = tt
  Pairwise-sort_by (x ∷ xs) (hx, h) =
      Pairwise-insert_sorted x (sort_by le xs) (All-sort_by le (R x) xs hx) (Pairwise-sort_by xs h)

-- Membership, by position.
pub data In {ℓ} {A : Type ℓ} (x : A) : List A → Type ℓ where
  here : {y : A} {ys : List A} → x ≡ y → In x (y ∷ ys)
  there : {y : A} {ys : List A} → In x ys → In x (y ∷ ys)
