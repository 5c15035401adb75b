-- ===== src/Base/Relations.antt =====
-- Laws of `All`, `Pairwise`, `any` and `filter`.
use t_u_s_h_e_r.Base.Equality.{Bool-cases}
use t_u_s_h_e_r.Base.Lists.{All, Pairwise, In, here, there, any, filter, take, length}
use Prim.Native.Nat.{ℕ, zero, suc, ◌<◌}
use mathlib.Core.Bool.{Bool, true, false}
use mathlib.Core.List.{List, [], ◌∷◌, ◌++◌, map}
use mathlib.Core.Logic.{inl, inr}
use mathlib.Core.Path.{◌≡◌, refl, sym, subst, ap, ◌∙◌}
use native.Mathlib.Omega.{arith}

module _ {ℓ κ} {A : Type ℓ} (P : A → Type κ) where
  pub All-append : (xs ys : List A) → All P xs → All P ys → All P (xs ++ ys)
  All-append [] ys hx hy = hy
  All-append (x ∷ xs) ys hx hy = (hx.0, All-append xs ys hx.1 hy)

  pub All-filter : (p : A → Bool) (xs : List A) → All P xs → All P (filter p xs)
  All-filter p [] h = tt
  All-filter p (x ∷ xs) h = elim (Bool-cases (p x)) [
    | inl e ↦ rw e (h.0, All-filter p xs h.1)
    | inr e ↦ rw e (All-filter p xs h.1)
  ]

  pub All-map {κ'} : {Q : A → Type κ'} → ((x : A) → P x → Q x) → (xs : List A) → All P xs → All Q xs
  All-map f [] h = tt
  All-map f (x ∷ xs) h = (f x h.0, All-map f xs h.1)

module _ {ℓ κ μ} {A : Type ℓ} {B : Type κ} (P : B → Type μ) (f : A → B) where
  pub All-image : (xs : List A) → All (λ x. P (f x)) xs → All P (map f xs)
  All-image [] h = tt
  All-image (x ∷ xs) h = (h.0, All-image xs h.1)

module _ {ℓ κ μ} {A : Type ℓ} (P : A → Type κ) (Q : A → Type μ) where
  pub All-zip : (xs : List A) → All P xs → All Q xs → All (λ x. P x × Q x) xs
  All-zip [] h k = tt
  All-zip (x ∷ xs) h k = ((h.0, k.0), All-zip xs h.1 k.1)

module _ {ℓ κ} {A : Type ℓ} (R : A → A → Type κ) where
  pub Pairwise-append_one :
      (xs : List A) (y : A) → Pairwise R xs → All (λ x. R x y) xs → Pairwise R (xs ++ (y ∷ []))
  Pairwise-append_one [] y h k = (tt, tt)
  Pairwise-append_one (x ∷ xs) y (hx, h) (kx, k) =
      (All-append (R x) xs (y ∷ []) hx (kx, tt), Pairwise-append_one xs y h k)

  pub Pairwise-filter : (p : A → Bool) (xs : List A) → Pairwise R xs → Pairwise R (filter p xs)
  Pairwise-filter p [] h = tt
  Pairwise-filter p (x ∷ xs) (hx, h) = elim (Bool-cases (p x)) [
    | inl e ↦ rw e (All-filter (R x) p xs hx, Pairwise-filter p xs h)
    | inr e ↦ rw e (Pairwise-filter p xs h)
  ]

module _ {ℓ κ μ ν} {A : Type ℓ} {B : Type κ} (R : A → A → Type μ) (S : B → B → Type ν) (f : A → B)
    (keep : (a b : A) → R a b → S (f a) (f b)) where
  pub Pairwise-map : (xs : List A) → Pairwise R xs → Pairwise S (map f xs)
  Pairwise-map [] h = tt
  Pairwise-map (x ∷ xs) (hx, h) =
      (All-image (S (f x)) f xs (All-map (R x) (keep x) xs hx), Pairwise-map xs h)

module _ {ℓ κ μ} {A : Type ℓ} (R : A → A → Type κ) (P : A → Type μ) where
  with-All : (x : A) (xs : List A) → P x → All (R x) xs → All P xs → All (λ y. R x y × P x × P y) xs
  with-All x [] px h k = tt
  with-All x (y ∷ ys) px h k = ((h.0, px, k.0), with-All x ys px h.1 k.1)

  pub Pairwise-with-All :
      (xs : List A) → Pairwise R xs → All P xs → Pairwise (λ a b. R a b × P a × P b) xs
  Pairwise-with-All [] h k = tt
  Pairwise-with-All (x ∷ xs) (hx, h) (kx, k) = (with-All x xs kx hx k, Pairwise-with-All xs h k)

module _ {ℓ κ μ} {A : Type ℓ} (R : A → A → Type κ) (S : A → A → Type μ) where
  pub Pairwise-zip :
      (xs : List A) → Pairwise R xs → Pairwise S xs → Pairwise (λ a b. R a b × S a b) xs
  Pairwise-zip [] h k = tt
  Pairwise-zip (x ∷ xs) (hx, h) (kx, k) = (All-zip (R x) (S x) xs hx kx, Pairwise-zip xs h k)

module _ {ℓ} {A : Type ℓ} (p : A → Bool) where
  pub any-eq-false : (xs : List A) → any p xs ≡ false → All (λ x. p x ≡ false) xs
  any-eq-false [] h = tt
  any-eq-false (x ∷ xs) h = elim (Bool-cases (p x)) [
    | inl e ↦ absurd (ground arith)
    | inr e ↦ (e, any-eq-false xs (ground arith))
  ]

  pub any-append_one : (xs : List A) (y : A) → p y ≡ true → any p (xs ++ (y ∷ [])) ≡ true
  any-append_one [] y h = rw h
  any-append_one (x ∷ xs) y h = ground (arith, any-append_one xs y h)

  pub any-append_mono : (xs ys : List A) → any p xs ≡ true → any p (xs ++ ys) ≡ true
  any-append_mono [] ys h = cc
  any-append_mono (x ∷ xs) ys h = ground (arith, any-append_mono xs ys)

module _ {ℓ κ} {A : Type ℓ} (P : A → Type κ) where
  pub All-take : (n : ℕ) (xs : List A) → All P xs → All P (take n xs)
  All-take zero xs h = tt
  All-take (suc n) [] h = tt
  All-take (suc n) (x ∷ xs) h = (h.0, All-take n xs h.1)

  pub All-In : (xs : List A) (x : A) → All P xs → In x xs → P x
  All-In [] x h m = elim m [ ]
  All-In (y ∷ ys) x h (here e) = subst P (sym e) h.0
  All-In (y ∷ ys) x h (there m) = All-In ys x h.1 m

module _ {ℓ κ} {A : Type ℓ} (R : A → A → Type κ) where
  pub Pairwise-take : (n : ℕ) (xs : List A) → Pairwise R xs → Pairwise R (take n xs)
  Pairwise-take zero xs h = tt
  Pairwise-take (suc n) [] h = tt
  Pairwise-take (suc n) (x ∷ xs) h = (All-take (R x) n xs h.0, Pairwise-take n xs h.1)

  -- An element stands behind the first `n`, and all of those are related to it.
  pub Pairwise-after :
      (n : ℕ) (xs : List A)
      → Pairwise R xs
      → n < length xs
      → (x : A) × In x xs × All (λ y. R y x) (take n xs)
  Pairwise-after n [] h lt = absurd (omega arith)
  Pairwise-after zero (x ∷ xs) h lt = (x, here refl, tt)
  Pairwise-after (suc n) (x ∷ xs) (hx, h) lt =
      let (y, m, before) = Pairwise-after n xs h (omega arith) in
      (y, there m, (All-In (R x) xs y hx m, before))

module _ {ℓ} {A : Type ℓ} (p : A → Bool) where
  pub filter-All : (xs : List A) → All (λ x. p x ≡ true) (filter p xs)
  filter-All [] = tt
  filter-All (x ∷ xs) = elim (Bool-cases (p x)) [
    | inl e ↦ rw e (e, filter-All xs)
    | inr e ↦ rw e (filter-All xs)
  ]

  In-filter_step :
      (y : A) (ys : List A) (x : A)
      → p y ≡ true
      → (In x (filter p ys) → In x ys × (p x ≡ true))
      → In x (y ∷ filter p ys)
      → In x (y ∷ ys) × (p x ≡ true)
  In-filter_step y ys x e rest (here same) = (here same, ap p same ∙ e)
  In-filter_step y ys x e rest (there m) = let (m', px) = rest m in (there m', px)

  pub In-filter : (xs : List A) (x : A) → In x (filter p xs) → In x xs × (p x ≡ true)
  In-filter [] x m = elim m [ ]
  In-filter (y ∷ ys) x m = elim (Bool-cases (p y)) [
    | inl e ↦ In-filter_step y ys x e (In-filter ys x) (rw e at m)
    | inr e ↦ let (m', px) = In-filter ys x (rw e at m) in (there m', px)
  ]

  pub In-filter_intro : (xs : List A) (x : A) → In x xs → p x ≡ true → In x (filter p xs)
  In-filter_intro [] x m h = elim m [ ]
  In-filter_intro (y ∷ ys) x (here same) h = rw (sym (ap p same) ∙ h) (here same)
  In-filter_intro (y ∷ ys) x (there m) h = elim (Bool-cases (p y)) [
    | inl e ↦ rw e (there (In-filter_intro ys x m h))
    | inr e ↦ rw e (In-filter_intro ys x m h)
  ]
