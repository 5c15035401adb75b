-- ===== src/Tests/Codec.antt =====
-- Frames of crates/tusher-core/src/protocol.rs at concrete messages.
use t_u_s_h_e_r.Base.{
  ℕ, zero, suc, ◌≤◌, ◌≡◌, refl, Option, none, some, List, [], ◌∷◌, ◌++◌, arith, length, bytes_eq,
  ok, err,
}
use t_u_s_h_e_r.Base.Text.{ascii}
use t_u_s_h_e_r.Core.Protocol.{Message, sync_notify, max_message_size}
use t_u_s_h_e_r.Core.Codec.{SerdeJson, invalid_magic, decode, from_be_bytes, to_be_bytes}
use t_u_s_h_e_r.Core.Codec.Framing.{header}
use t_u_s_h_e_r.Core.Codec.Stream.{
  decode_all, encode_all, wire, decode_all-encode_all, decode_sound,
}

zeros : ℕ → List ℕ
zeros zero = []
zeros (suc n) = 0 ∷ zeros n

length-zeros : (n : ℕ) → length (zeros n) ≡ n
unfolding zeros
length-zeros zero = refl
length-zeros (suc n) = omega (arith, length-zeros n)

-- A stand-in for serde: a notification without a folder is written as that many zero bytes.
write_padding : Message → Option (List ℕ)
write_padding (sync_notify [] n) = some (zeros n)
write_padding m = none

read_padding : List ℕ → Option Message
read_padding p = some (sync_notify [] (length p))

read_padding-write_padding :
    (m : Message) (p : List ℕ) → write_padding m ≡ some p → read_padding p ≡ some m
unfolding read_padding write_padding
read_padding-write_padding (sync_notify [] n) p h = ground (arith, length-zeros n)
read_padding-write_padding _ p h = absurd (ground arith)

abbrev padding_json : SerdeJson
padding_json = record {
  to_vec = write_padding;
  from_slice = read_padding;
  from_slice-to_vec = read_padding-write_padding;
}

abbrev note : ℕ → Message
note n = sync_notify [] n

decode_all-encode_all_example :
    (encode_all padding_json (note 2 ∷ note 1 ∷ []) []
      ≡ ok (wire padding_json (zeros 2 ∷ zeros 1 ∷ []) []))
    × (decode_all padding_json 5 (wire padding_json (zeros 2 ∷ zeros 1 ∷ []) (84 ∷ 85 ∷ []))
        ≡ (note 2 ∷ note 1 ∷ [], 84 ∷ 85 ∷ []))
unfolding zeros write_padding decode
decode_all-encode_all_example =
    decode_all-encode_all padding_json 5 (note 2 ∷ note 1 ∷ []) (zeros 2 ∷ zeros 1 ∷ [])
      (84 ∷ 85 ∷ []) (refl, omega arith, (refl, omega arith, tt)) (omega arith) refl

decode_sound_example :
    (p : List ℕ) × (header 1 (0 ∷ []) ++ (9 ∷ []) ≡ header (length p) p ++ (9 ∷ []))
    × (length p ≤ max_message_size)
    × (read_padding p ≡ some (note 1))
unfolding header to_be_bytes decode from_be_bytes bytes_eq read_padding
decode_sound_example =
    decode_sound padding_json (header 1 (0 ∷ []) ++ (9 ∷ [])) (9 ∷ []) (note 1) (omega arith) refl

bad_magic : decode padding_json (ascii "HTTP/1.1") ≡ (err invalid_magic, ascii "HTTP/1.1")
unfolding decode bytes_eq
bad_magic = refl
