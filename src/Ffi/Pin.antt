-- ===== src/Ffi/Pin.antt =====
-- `compute_sas_pin` of crates/tusher-ffi/src/lib.rs.
use t_u_s_h_e_r.Base.{
  ℕ, ◌≡◌, refl, sym, ◌∙◌, Bool, true, false, ◌&&◌, Option, none, some, List, arith, length, ◌==◌,
  nat_eq, if◌then◌else◌, Option-cases, inl, inr, Outcome, ok, err, ◌>>◌, guard,
}
use t_u_s_h_e_r.Base.Text.{Text}
use t_u_s_h_e_r.Core.Keys.{Crypto, calculate_sas_pin}
use t_u_s_h_e_r.Core.Keys.Pin.{calculate_sas_pin_comm}
use t_u_s_h_e_r.Ffi.{FfiError, invalid_argument, compute_sas_pin}

module _ (crypto : Crypto) (token : Text) where
  compute_sas_pin-decoded :
      (a b : Text) (ka kb : List ℕ)
      → crypto.hex_decode a ≡ some ka
      → crypto.hex_decode b ≡ some kb
      → compute_sas_pin crypto token a b ≡ (
          if length ka == 32 && length kb == 32
          then ok (calculate_sas_pin crypto token ka kb)
          else err invalid_argument)
  unfolding compute_sas_pin
  compute_sas_pin-decoded a b ka kb ea eb =
      rw (ea, compute_sas_pin) (rw eb (by_test (length ka == 32 && length kb == 32)))
    where
      by_test :
          (t : Bool)
          → (guard t invalid_argument >> ok (calculate_sas_pin crypto token ka kb))
            ≡ (if t then ok (calculate_sas_pin crypto token ka kb) else err invalid_argument)
      by_test true = refl
      by_test false = refl

  compute_sas_pin-bad_first :
      (a b : Text)
      → crypto.hex_decode a ≡ none
      → compute_sas_pin crypto token a b ≡ err invalid_argument
  unfolding compute_sas_pin
  compute_sas_pin-bad_first a b e = rw (e, compute_sas_pin) refl

  compute_sas_pin-bad_second :
      (a b : Text)
      → crypto.hex_decode b ≡ none
      → compute_sas_pin crypto token a b ≡ err invalid_argument
  unfolding compute_sas_pin
  compute_sas_pin-bad_second a b e = elim (Option-cases (crypto.hex_decode a)) [
    | inl f ↦ compute_sas_pin-bad_first a b f
    | inr (ka, f) ↦ rw (f, compute_sas_pin) (rw e refl)
  ]

  -- The answer in terms of what the two texts decode to.
  abbrev pub pin_of : Option (List ℕ) → Option (List ℕ) → Outcome FfiError Text
  pin_of (some ka) (some kb) =
      if length ka == 32 && length kb == 32
      then ok (calculate_sas_pin crypto token ka kb)
      else err invalid_argument
  pin_of (some ka) none = err invalid_argument
  pin_of none b = err invalid_argument

  compute_sas_pin-pin_of :
      (a b : Text)
      → compute_sas_pin crypto token a b ≡ pin_of (crypto.hex_decode a) (crypto.hex_decode b)
  compute_sas_pin-pin_of a b = elim (Option-cases (crypto.hex_decode a)) [
    | inl e ↦ rw e (compute_sas_pin-bad_first a b e)
    | inr (ka, e) ↦ elim (Option-cases (crypto.hex_decode b)) [
      | inl f ↦ rw (e, f) (compute_sas_pin-bad_second a b f)
      | inr (kb, f) ↦ rw (e, f) (compute_sas_pin-decoded a b ka kb e f)
    ]
  ]

  pin_of_comm : (a b : Option (List ℕ)) → pin_of a b ≡ pin_of b a
  pin_of_comm (some ka) (some kb) = ground (arith, (calculate_sas_pin_comm crypto token ka kb).0)
  pin_of_comm (some ka) none = refl
  pin_of_comm none (some kb) = refl
  pin_of_comm none none = refl

  -- Both devices of a pairing get the same answer, whichever key they name first: the PIN of the two
  -- keys if both are the hexadecimal digits of 32 bytes, and else an invalid argument.
  pub compute_sas_pin_comm :
      (a b : Text)
      → (compute_sas_pin crypto token a b ≡ compute_sas_pin crypto token b a)
        × (compute_sas_pin crypto token a b ≡ pin_of (crypto.hex_decode a) (crypto.hex_decode b))
  compute_sas_pin_comm a b = (
    compute_sas_pin-pin_of a b
        ∙ pin_of_comm (crypto.hex_decode a) (crypto.hex_decode b)
        ∙ sym (compute_sas_pin-pin_of b a),
    compute_sas_pin-pin_of a b,
  )
