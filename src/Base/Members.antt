-- ===== src/Base/Members.antt =====
-- Laws of membership, by position.
use mathlib.Core.Path.{◌≡◌, refl, sym, subst, ap, ◌∙◌}
use mathlib.Core.Bool.{Bool, true}
use mathlib.Core.Option.{some}
use mathlib.Core.List.{List, [], ◌∷◌, ◌++◌}
use mathlib.Core.Logic.{inl, inr}
use native.Mathlib.Omega.{arith}
use t_u_s_h_e_r.Base.Equality.{Bool-cases}
use t_u_s_h_e_r.Base.Lists.{In, here, there, any, find?, insert_sorted, sort_by}

module _ {ℓ} {A : Type ℓ} where
  pub In-append_left : (x : A) (xs ys : List A) → In x xs → In x (xs ++ ys)
  In-append_left x [] ys m = elim m [ ]
  In-append_left x (z ∷ xs) ys (here e) = here e
  In-append_left x (z ∷ xs) ys (there m) = there (In-append_left x xs ys m)

  pub In-append_right : (x : A) (xs ys : List A) → In x ys → In x (xs ++ ys)
  In-append_right x [] ys m = m
  In-append_right x (z ∷ xs) ys m = there (In-append_right x xs ys m)

  pub any-In : (p : A → Bool) (xs : List A) → any p xs ≡ true → (x : A) × In x xs × (p x ≡ true)
  any-In p [] h = absurd (ground arith)
  any-In p (x ∷ xs) h = elim (Bool-cases (p x)) [
    | inl e ↦ (x, here refl, e)
    | inr e ↦ let (y, m, py) = any-In p xs (ground arith) in (y, there m, py)
  ]

  pub In-any : (p : A → Bool) (xs : List A) (x : A) → In x xs → p x ≡ true → any p xs ≡ true
  In-any p [] x m h = elim m [ ]
  In-any p (y ∷ xs) x (here e) h = rw (sym (ap p e) ∙ h) refl
  In-any p (y ∷ xs) x (there m) h = ground (arith, In-any p xs x m h)

  pub find?-In : (p : A → Bool) (xs : List A) (x : A) → find? p xs ≡ some x → In x xs × (p x ≡ true)
  find?-In p [] x h = absurd (ground arith)
  find?-In p (y ∷ xs) x h = elim (Bool-cases (p y)) [
    | inl e ↦ let same : y ≡ x = ground arith in (here (sym same), ap p (sym same) ∙ e)
    | inr e ↦ let (m, px) = find?-In p xs x (ground arith) in (there m, px)
  ]

module _ {ℓ} {A : Type ℓ} (le : A → A → Bool) where
  In-insert_self : (x : A) (ys : List A) → In x (insert_sorted le x ys)
  unfolding insert_sorted
  In-insert_self x [] = here refl
  In-insert_self x (y ∷ ys) = elim (Bool-cases (le x y)) [
    | inl e ↦ rw e (here refl)
    | inr e ↦ rw e (there (In-insert_self x ys))
  ]

  In-insert_other : (x z : A) (ys : List A) → In z ys → In z (insert_sorted le x ys)
  unfolding insert_sorted
  In-insert_other x z [] m = elim m [ ]
  In-insert_other x z (y ∷ ys) (here same) = elim (Bool-cases (le x y)) [
    | inl e ↦ rw e (there (here same))
    | inr e ↦ rw e (here same)
  ]
  In-insert_other x z (y ∷ ys) (there m) = elim (Bool-cases (le x y)) [
    | inl e ↦ rw e (there (there m))
    | inr e ↦ rw e (there (In-insert_other x z ys m))
  ]

  pub In-sort_by : (x : A) (xs : List A) → In x xs → In x (sort_by le xs)
  unfolding sort_by
  In-sort_by x [] m = elim m [ ]
  In-sort_by x (y ∷ xs) (here e) =
      subst (λ t. In t (insert_sorted le y (sort_by le xs))) (sym e)
        (In-insert_self y (sort_by le xs))
  In-sort_by x (y ∷ xs) (there m) = In-insert_other y x (sort_by le xs) (In-sort_by x xs m)
