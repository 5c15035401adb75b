-- ===== src/Core/Codec/Stream.antt =====
-- Streams of frames: what arrives in one buffer, and what an accepted frame must look like.
use mathlib.Core.List.{append-nil, append_assoc}
use t_u_s_h_e_r.Base.{
  ℕ, zero, suc, ◌≤◌, ◌<◌, ◌≡◌, ◌∙◌, none, some, List, [], ◌∷◌, ◌++◌, arith, length, take, All,
  length-take, take-append-drop, bytes_eq, Outcome, ok, err, panic,
}
use t_u_s_h_e_r.Core.Protocol.{Message, max_message_size}
use t_u_s_h_e_r.Core.Codec.{
  SerdeJson, IoError, from_be_bytes, to_be_bytes, decode_payload, decode, encode,
}
use t_u_s_h_e_r.Core.Codec.Framing.{header, decode_short, encode-header, decode-encode}

module _ (json : SerdeJson) where
  -- Reads frames off the buffer until `decode` gives no message, as a framed transport does.
  pub decode_all : ℕ → List ℕ → List Message × List ℕ
  decode_all zero src = ([], src)
  decode_all (suc fuel) src =
      let (result, rest) = decode json src in
      let more = decode_all fuel rest in
      elim result [
        | ok next ↦ elim next [ some m ↦ (m ∷ more.0, more.1) | none ↦ ([], rest) ]
        | _ ↦ ([], rest)
      ]

  -- The frames of several messages, one behind the other.
  pub encode_all : List Message → List ℕ → Outcome IoError (List ℕ)
  encode_all [] dst = ok dst
  encode_all (m ∷ ms) dst = elim (encode json m dst) [
    | ok dst' ↦ encode_all ms dst'
    | err e ↦ err e
    | panic ↦ panic
  ]

  -- Each message is written as the payload beside it, which is within the limit.
  abbrev pub Written : List Message → List (List ℕ) → Type 0
  Written [] [] = Unit
  Written (m ∷ ms) (p ∷ ps) =
      (json.to_vec m ≡ some p) × (length p ≤ max_message_size) × Written ms ps
  Written _ _ = ⊥

  -- The frames of the payloads, in front of `rest`.
  abbrev pub wire : List (List ℕ) → List ℕ → List ℕ
  wire [] rest = rest
  wire (p ∷ ps) rest = header (length p) p ++ wire ps rest

  encode_all-wire :
      (ms : List Message) (ps : List (List ℕ)) (dst : List ℕ)
      → Written ms ps
      → encode_all ms dst ≡ ok (dst ++ wire ps [])
  unfolding encode_all
  encode_all-wire [] [] dst w = rw append-nil
  encode_all-wire [] (p ∷ ps) dst w = absurd w
  encode_all-wire (m ∷ ms) [] dst w = absurd w
  encode_all-wire (m ∷ ms) (p ∷ ps) dst (e, small, w) =
      rw (encode-header json m p dst e (omega arith), encode_all)
        (encode_all-wire ms ps _ w ∙ rw append_assoc)

  decode_all-wire :
      (fuel : ℕ) (ms : List Message) (ps : List (List ℕ)) (rest : List ℕ)
      → Written ms ps
      → length ms < fuel
      → decode json rest ≡ (ok none, rest)
      → decode_all fuel (wire ps rest) ≡ (ms, rest)
  unfolding decode_all
  decode_all-wire zero ms ps rest w h tail = absurd (omega arith)
  decode_all-wire (suc fuel) [] [] rest w h tail = ground arith
  decode_all-wire (suc fuel) [] (p ∷ ps) rest w h tail = absurd w
  decode_all-wire (suc fuel) (m ∷ ms) [] rest w h tail = absurd w
  decode_all-wire (suc fuel) (m ∷ ms) (p ∷ ps) rest (e, small, w) h tail = ground (
    arith,
    (decode-encode json m p e (wire ps rest) small).1,
    decode_all-wire fuel ms ps rest w (omega arith) tail,
  )

  -- Messages within the limit that are encoded one behind the other into a buffer are read back
  -- in order, each once; an incomplete frame behind them is left where it is.
  pub decode_all-encode_all :
      (fuel : ℕ) (ms : List Message) (ps : List (List ℕ)) (rest : List ℕ)
      → Written ms ps
      → length ms < fuel
      → decode json rest ≡ (ok none, rest)
      → (encode_all ms [] ≡ ok (wire ps [])) × (decode_all fuel (wire ps rest) ≡ (ms, rest))
  decode_all-encode_all fuel ms ps rest w h tail =
      (encode_all-wire ms ps [] w, decode_all-wire fuel ms ps rest w h tail)

  -- A message is only ever read from a frame: the bytes that `decode` takes are the magic bytes,
  -- the length and the payload of that message, the payload within the limit.
  pub decode_sound :
      (src rest : List ℕ) (m : Message)
      → All (λ b. b < 256) src
      → decode json src ≡ (ok (some m), rest)
      → (p : List ℕ) × (src ≡ header (length p) p ++ rest)
        × (length p ≤ max_message_size)
        × (json.from_slice p ≡ some m)
  unfolding decode header bytes_eq to_be_bytes decode_payload from_be_bytes
  decode_sound (a ∷ b ∷ c ∷ d ∷ e ∷ f ∷ g ∷ h ∷ body) rest m bytes eq =
      let n = from_be_bytes (e ∷ f ∷ g ∷ h ∷ []) in
      (
        take n body,
        ground (arith, length-take n body, take-append-drop n body),
        ground (arith, length-take n body),
        ground arith,
      )
  decode_sound src rest m bytes eq = absurd (ground (arith, decode_short json src))
