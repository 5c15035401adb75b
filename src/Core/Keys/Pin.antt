-- ===== src/Core/Keys/Pin.antt =====
-- The PIN of crates/tusher-core/src/crypto.rs.
use t_u_s_h_e_r.Base.{
  ℕ, ◌+◌, ◌*◌, ◌/◌, ◌%◌, ◌≤◌, ◌<◌, ◌≡◌, inl, inr, refl, true, false, Bool-cases, List, [], ◌∷◌,
  arith, ◌==◌, nat_eq, All,
}
use t_u_s_h_e_r.Base.Text.{Text, ascii}
use t_u_s_h_e_r.Base.Text
use t_u_s_h_e_r.Core.Keys.{Crypto, pad3, sas_number, calculate_sas_pin, digit}

leb_antisym : (s t : Text) → Text.leb s t ≡ true → Text.leb t s ≡ true → s ≡ t
unfolding Text.leb
leb_antisym [] [] h k = refl
leb_antisym [] (d ∷ t) h k = absurd (ground arith)
leb_antisym (c ∷ s) [] h k = absurd (ground arith)
leb_antisym (c ∷ s) (d ∷ t) h k = elim (Bool-cases (c == d)) [
  | inl e ↦
      let same : c ≡ d = ground arith in
      let rest = leb_antisym s t (ground arith) (ground arith) in cc (same, rest)
  | inr e ↦ absurd (ground arith)
]

leb_total : (s t : Text) → Text.leb s t ≡ false → Text.leb t s ≡ true
unfolding Text.leb
leb_total [] t h = absurd (ground arith)
leb_total (c ∷ s) [] h = refl
leb_total (c ∷ s) (d ∷ t) h = elim (Bool-cases (c == d)) [
  | inl e ↦ let rest = leb_total s t (ground arith) in ground arith
  | inr e ↦ ground arith
]

group_value : (n : ℕ) → n < 1000 → n / 100 % 10 * 100 + n / 10 % 10 * 10 + n % 10 ≡ n
group_value n h = omega arith

digits_value :
    (n : ℕ)
    → n < 1000000
    → n / 1000 / 100 % 10 * 100000
        + n / 1000 / 10 % 10 * 10000
        + n / 1000 % 10 * 1000
        + n % 1000 / 100 % 10 * 100
        + n % 1000 / 10 % 10 * 10
        + n % 1000 % 10
      ≡ n
digits_value n h =
    let high = group_value (n / 1000) (omega arith) in
    let low = group_value (n % 1000) (omega arith) in omega arith

module _ (crypto : Crypto) where
  sas_number_comm :
      (token : Text) (a b : List ℕ) → sas_number crypto token a b ≡ sas_number crypto token b a
  unfolding sas_number
  sas_number_comm token a b = elim (Bool-cases (Text.leb a b)) [
    | inl e ↦ elim (Bool-cases (Text.leb b a)) [
      | inl e' ↦ rw (leb_antisym a b e e') refl
      | inr e' ↦ rw (e, e', sas_number) refl
    ]
    | inr e ↦ rw (e, leb_total a b e, sas_number) refl
  ]

  sas_number_small : (token : Text) (a b : List ℕ) → sas_number crypto token a b < 1000000
  unfolding sas_number
  sas_number_small token a b = omega arith

  -- The two devices of a pairing compute the same PIN, whichever key comes first: two groups of
  -- three digits with a space between, which spell a number below a million.
  pub calculate_sas_pin_comm :
      (token : Text) (a b : List ℕ)
      → (calculate_sas_pin crypto token a b ≡ calculate_sas_pin crypto token b a)
        × ((d1 d2 d3 d4 d5 d6 : ℕ) × All (λ d. d ≤ 9) (d1 ∷ d2 ∷ d3 ∷ d4 ∷ d5 ∷ d6 ∷ [])
            × (calculate_sas_pin crypto token a b
                ≡ (48 + d1) ∷ (48 + d2) ∷ (48 + d3) ∷ 32 ∷ (48 + d4) ∷ (48 + d5) ∷ (48 + d6) ∷ [])
            × (d1 * 100000 + d2 * 10000 + d3 * 1000 + d4 * 100 + d5 * 10 + d6
                ≡ sas_number crypto token a b))
  unfolding calculate_sas_pin pad3 digit
  calculate_sas_pin_comm token a b =
      let n = sas_number crypto token a b in
      (
        rw (sas_number_comm token a b, calculate_sas_pin) refl,
        (
          n / 1000 / 100 % 10,
          n / 1000 / 10 % 10,
          n / 1000 % 10,
          n % 1000 / 100 % 10,
          n % 1000 / 10 % 10,
          n % 1000 % 10,
          (
            omega arith,
            (omega arith, (omega arith, (omega arith, (omega arith, (omega arith, tt))))),
          ),
          refl,
          digits_value n (sas_number_small token a b),
        ),
      )
