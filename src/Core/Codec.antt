-- ===== src/Core/Codec.antt =====
-- `MessageCodec` of crates/tusher-core/src/protocol.rs: frames of magic bytes, a length of four
-- bytes, most significant first, and the message as JSON. `serde_json` is a parameter.
pub mod Framing
pub mod Stream
use t_u_s_h_e_r.Base.{
  ℕ, ◌+◌, ◌*◌, ◌/◌, ◌%◌, ◌^◌, ◌≡◌, Bool, Option, none, some, List, [], ◌∷◌, ◌++◌, length, take,
  drop, ltb, if◌then◌else◌, ◌!=◌, bytes_eq, Outcome, ok, err,
}
use t_u_s_h_e_r.Core.Protocol.{Message, magic_bytes, max_message_size}

-- What the codec uses of `serde_json`: a message that was written is read back.
pub record SerdeJson : Type 0 where
  pub to_vec : Message → Option (List ℕ)
  pub from_slice : List ℕ → Option Message
  pub from_slice-to_vec : (m : Message) (p : List ℕ) → to_vec m ≡ some p → from_slice p ≡ some m

-- The errors of kind `InvalidData`.
pub data IoError : Type 0 where
  invalid_magic : IoError
  message_too_long : ℕ → IoError
  failed_to_parse : IoError
  failed_to_serialize : IoError

-- `u32::from_be_bytes`
unfoldable pub from_be_bytes : List ℕ → ℕ
from_be_bytes (a ∷ b ∷ c ∷ d ∷ []) = ((a * 256 + b) * 256 + c) * 256 + d
from_be_bytes _ = 0

-- `u32::to_be_bytes`, as `put_u32` writes it.
unfoldable pub to_be_bytes : ℕ → List ℕ
to_be_bytes n = (n / 16777216 % 256) ∷ (n / 65536 % 256) ∷ (n / 256 % 256) ∷ (n % 256) ∷ []

module _ (json : SerdeJson) where
  -- Reads the frame whose header is complete: the bytes after the header, and its length.
  pub decode_payload : List ℕ → ℕ → Outcome IoError (Option Message) × List ℕ
  decode_payload body len =
      let rest = drop len body in
      elim (json.from_slice (take len body)) [
        | none ↦ (err failed_to_parse, rest)
        | some msg ↦ (ok (some msg), rest)
      ]

  -- `decode`: the result, and what is left in the buffer.
  unfoldable pub decode : List ℕ → Outcome IoError (Option Message) × List ℕ
  unfolding decode_payload
  decode src =
      if ltb (length src) 8
      then (ok none, src)
      else if take 4 src != magic_bytes
      then (err invalid_magic, src)
      else let len = from_be_bytes (take 4 (drop 4 src)) in
        if ltb max_message_size len
        then (err (message_too_long len), src)
        else if ltb (length src) (8 + len)
        then (ok none, src)
        else decode_payload (drop 8 src) len

  -- `encode`: the buffer with the frame at its end. The length is cast to `u32`.
  unfoldable pub encode : Message → List ℕ → Outcome IoError (List ℕ)
  unfolding to_be_bytes
  encode item dst = elim (json.to_vec item) [
    | none ↦ err failed_to_serialize
    | some payload ↦ ok (dst ++ (magic_bytes ++ (to_be_bytes (length payload % 2 ^ 32) ++ payload)))
  ]
