-- ===== src/Core/Codec/Framing.antt =====
-- What the frames of `MessageCodec` guarantee.
use native.Mathlib.Nat.{mod-eq_of_lt}
use t_u_s_h_e_r.Base.{
  ℕ, suc, ◌+◌, ◌-◌, ◌^◌, ◌≤◌, ◌<◌, ◌≡◌, refl, ap, none, some, List, [], ◌++◌, arith, length, take,
  length-append, take-append_length, drop-append_length, length-take, Bool-cases, inl, inr, ltb,
  if◌then◌else◌, bytes_eq, ok, err,
}
use t_u_s_h_e_r.Core.Protocol.{Message, magic_bytes, max_message_size}
use t_u_s_h_e_r.Core.Codec.{
  SerdeJson, message_too_long, from_be_bytes, to_be_bytes, decode_payload, decode, encode,
}

pub from_be_bytes-to_be_bytes : (n : ℕ) → n < 2 ^ 32 → from_be_bytes (to_be_bytes n) ≡ n
unfolding from_be_bytes to_be_bytes
from_be_bytes-to_be_bytes n h = omega arith

-- A frame: the header for a length, and the bytes after it.
unfoldable pub header : ℕ → List ℕ → List ℕ
unfolding to_be_bytes
header n body = magic_bytes ++ (to_be_bytes n ++ body)

module _ (json : SerdeJson) where
  -- A complete header with an admissible length.
  pub decode-header :
      (n : ℕ) (body : List ℕ)
      → n ≤ max_message_size
      → decode json (header n body)
        ≡ (if ltb (length body) n then (ok none, header n body) else decode_payload json body n)
  unfolding decode header bytes_eq to_be_bytes
  decode-header n body h = ground (arith, from_be_bytes-to_be_bytes n)

  pub encode-header :
      (m : Message) (p dst : List ℕ)
      → json.to_vec m ≡ some p
      → length p < 2 ^ 32
      → encode json m dst ≡ ok (dst ++ header (length p) p)
  unfolding encode header to_be_bytes
  encode-header m p dst e h = rw (e, encode, mod-eq_of_lt h)

pub header-append : (n : ℕ) (p rest : List ℕ) → header n p ++ rest ≡ header n (p ++ rest)
unfolding header
header-append n p rest = refl

take-header : (n k : ℕ) (p : List ℕ) → 8 ≤ k → take k (header n p) ≡ header n (take (k - 8) p)
unfolding header to_be_bytes
take-header n k p h =
    let e : k ≡ suc (suc (suc (suc (suc (suc (suc (suc (k - 8)))))))) = omega arith in
    rw e (ap (λ j. header n (take j p)) (omega arith))

pub decode_short :
    (json : SerdeJson) (src : List ℕ) → length src < 8 → decode json src ≡ (ok none, src)
unfolding decode
decode_short json src h = ground arith

module _ (json : SerdeJson) (m : Message) (p : List ℕ) (written : json.to_vec m ≡ some p) where
  -- `encode` appends one frame to the buffer, and `decode` takes that frame off the front of any
  -- stream: it gives the message back and leaves exactly what followed.
  pub decode-encode :
      (rest : List ℕ)
      → length p ≤ max_message_size
      → (encode json m [] ≡ ok (header (length p) p))
        × (decode json (header (length p) p ++ rest) ≡ (ok (some m), rest))
  unfolding decode_payload
  decode-encode rest h = (
    encode-header json m p [] written (omega arith),
    rw (header-append (length p) p rest, decode-header json (length p) (p ++ rest) h)
        (ground (
          arith,
          length-append p rest,
          take-append_length p rest,
          drop-append_length p rest,
          json.from_slice-to_vec m p written,
        )),
  )

  -- A frame that has not arrived whole is left in the buffer, and no error is raised.
  pub decode-take :
      (k : ℕ)
      → length p ≤ max_message_size
      → k < 8 + length p
      → decode json (take k (header (length p) p)) ≡ (ok none, take k (header (length p) p))
  decode-take k h lt = elim (Bool-cases (ltb k 8)) [
    | inl short ↦ decode_short json _ (ground (arith, length-take k (header (length p) p)))
    | inr long ↦
        rw
          (
            take-header (length p) k p (ground arith),
            decode-header json (length p) (take (k - 8) p) h,
          )
          (ground (arith, length-take (k - 8) p))
  ]

  -- The encoder checks no length: a payload above the limit of the protocol is framed, and the
  -- decoder refuses that frame and stays at it, whatever follows.
  pub decode-encode_oversize :
      (rest : List ℕ)
      → max_message_size < length p
      → length p < 2 ^ 32
      → (encode json m [] ≡ ok (header (length p) p))
        × (decode json (header (length p) p ++ rest)
            ≡ (err (message_too_long (length p)), header (length p) p ++ rest))
  unfolding decode header bytes_eq to_be_bytes
  decode-encode_oversize rest h h' =
      (encode-header json m p [] written h', ground (arith, from_be_bytes-to_be_bytes (length p)))
