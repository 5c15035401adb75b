-- ===== src/Core/Keys.antt =====
-- crates/tusher-core/src/crypto.rs, and what identity.rs there computes from a public key. The
-- cryptography and the encodings come from other crates.
pub mod Pin
use t_u_s_h_e_r.Base.{
  ℕ, ◌+◌, ◌*◌, ◌-◌, ◌/◌, ◌%◌, ◌^◌, ◌<◌, ◌≡◌, ◌&&◌, List, [], ◌∷◌, ◌++◌, map, Option, length, take,
  leb, All, arith, if◌then◌else◌,
}
use t_u_s_h_e_r.Base.Text.{Text, ascii}
use t_u_s_h_e_r.Base.Text
use t_u_s_h_e_r.Core.Types.{NodeId, Platform}

-- The functions of hex, ed25519-dalek, sha2, data-encoding and hmac that are called. `verifying_key`
-- gives the bytes of a key if they are one; a MAC has 32 bytes.
pub record Crypto : Type 0 where
  pub hex_decode : Text → Option (List ℕ)
  pub verifying_key : List ℕ → Option (List ℕ)
  pub sha256 : List ℕ → List ℕ
  pub base32_nopad : List ℕ → Text
  pub hmac_sha256 : List ℕ → List ℕ → List ℕ
  pub hmac_len : (key msg : List ℕ) → length (hmac_sha256 key msg) ≡ 32

-- `to_lowercase` of ASCII.
abbrev pub to_lowercase : Text → Text
to_lowercase = map (λ b. if leb 65 b && leb b 90 then b + 32 else b)

-- The parts of a `DeviceIdentity` that go over the network.
pub record DeviceIdentity : Type 0 where
  pub node_id : NodeId
  pub node_name : Text
  pub platform : Platform
  pub public_key_hex : Text

abbrev pub digit : ℕ → ℕ
digit n = 48 + n % 10

-- `{:03}` of a number below 1000.
unfoldable pub pad3 : ℕ → Text
pad3 n = digit (n / 100) ∷ digit (n / 10) ∷ digit n ∷ []

-- `u32::from_be_bytes` of the first four bytes.
unfoldable pub first_u32 : List ℕ → ℕ
first_u32 (a ∷ b ∷ c ∷ d ∷ rest) = a * 2 ^ 24 + b * 2 ^ 16 + c * 2 ^ 8 + d
first_u32 other = 0

module _ (crypto : Crypto) where
  unfoldable pub from_verifying_key : List ℕ → NodeId
  from_verifying_key vk =
      ascii "tshr_" ++ to_lowercase (crypto.base32_nopad (take 15 (crypto.sha256 vk)))

  -- The number of `calculate_sas_pin`.
  unfoldable pub sas_number : Text → List ℕ → List ℕ → ℕ
  sas_number ephemeral_token pubkey_a pubkey_b =
      let msg = if Text.leb pubkey_a pubkey_b then pubkey_a ++ pubkey_b else pubkey_b ++ pubkey_a in
      first_u32 (crypto.hmac_sha256 ephemeral_token msg) % 1000000

  unfoldable pub calculate_sas_pin : Text → List ℕ → List ℕ → Text
  unfolding sas_number pad3
  calculate_sas_pin ephemeral_token pubkey_a pubkey_b =
      let num = sas_number ephemeral_token pubkey_a pubkey_b in
      pad3 (num / 1000) ++ (ascii " " ++ pad3 (num % 1000))
