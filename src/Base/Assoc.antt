-- ===== src/Base/Assoc.antt =====
-- `HashMap` with texts as keys where the program goes through the entries: a list of entries, in
-- the order in which they are visited.
use mathlib.Core.Path.{◌≡◌, refl, subst}
use mathlib.Core.Logic.{inl, inr}
use mathlib.Core.Bool.{true}
use mathlib.Core.Option.{Option, none, some}
use mathlib.Core.List.{List, [], ◌∷◌}
use native.Mathlib.Omega.{arith}
use t_u_s_h_e_r.Base.Equality.{if◌then◌else◌, ◌==◌, bytes_eq, Bool-cases}
use t_u_s_h_e_r.Base.Lists.{All}
use t_u_s_h_e_r.Base.Text.{Text}

module _ {ℓ} {V : Type ℓ} where
  unfoldable pub get : Text → List (Text × V) → Option V
  get key [] = none
  get key ((k, v) ∷ entries) = if k == key then some v else get key entries

  unfoldable pub put : Text → V → List (Text × V) → List (Text × V)
  put key new [] = (key, new) ∷ []
  put key new ((k, v) ∷ entries) =
      if k == key then (key, new) ∷ entries else (k, v) ∷ put key new entries

  unfoldable pub delete : Text → List (Text × V) → List (Text × V)
  delete key [] = []
  delete key ((k, v) ∷ entries) =
      let rest = delete key entries in if k == key then rest else (k, v) ∷ rest

  pub get-put :
      (j key : Text) (new : V) (entries : List (Text × V))
      → get j (put key new entries) ≡ (if key == j then some new else get j entries)
  unfolding get put
  get-put j key new [] = refl
  get-put j key new ((k, v) ∷ entries) = ground (arith, get-put j key new entries)

  pub get-delete :
      (j key : Text) (entries : List (Text × V))
      → get j (delete key entries) ≡ (if key == j then none else get j entries)
  unfolding get delete
  get-delete j key [] = ground arith
  get-delete j key ((k, v) ∷ entries) = ground (arith, get-delete j key entries)

module _ {ℓ κ} {V : Type ℓ} (P : Text × V → Type κ) where
  pub All-put :
      (key : Text) (new : V) (entries : List (Text × V))
      → P (key, new)
      → All P entries
      → All P (put key new entries)
  unfolding put
  All-put key new [] p h = (p, tt)
  All-put key new ((k, v) ∷ entries) p (q, h) = elim (Bool-cases (k == key)) [
    | inl e ↦ rw e (p, h)
    | inr e ↦ rw e (q, All-put key new entries p h)
  ]

  pub All-delete :
      (key : Text) (entries : List (Text × V)) → All P entries → All P (delete key entries)
  unfolding delete
  All-delete key [] h = tt
  All-delete key ((k, v) ∷ entries) (q, h) = elim (Bool-cases (k == key)) [
    | inl e ↦ rw e (All-delete key entries h)
    | inr e ↦ rw e (q, All-delete key entries h)
  ]

  pub All-delete-put :
      (key : Text) (new : V) (entries : List (Text × V))
      → All P entries
      → All P (delete key (put key new entries))
  unfolding put delete
  All-delete-put key new [] h = ground arith
  All-delete-put key new ((k, v) ∷ entries) (q, h) = elim (Bool-cases (k == key)) [
    | inl e ↦
        let same : (key == key) ≡ true = ground arith in rw (e, same) (All-delete key entries h)
    | inr e ↦ rw (e, e) (q, All-delete-put key new entries h)
  ]

  pub All-get :
      (key : Text) (v : V) (entries : List (Text × V))
      → All P entries
      → get key entries ≡ some v
      → P (key, v)
  unfolding get
  All-get key v [] h e = absurd (ground arith)
  All-get key v ((k, u) ∷ entries) (q, h) e = elim (Bool-cases (k == key)) [
    | inl same ↦
        let here : k ≡ key = ground arith in
        let value : u ≡ v = ground arith in subst P {x = (k, u)} (cc (here, value)) q
    | inr other ↦ All-get key v entries h (ground arith)
  ]
