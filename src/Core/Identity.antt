-- ===== src/Core/Identity.antt =====
-- `DeviceIdentity` of crates/tusher-core/src/identity.rs: how it is made, kept in a file and found
-- again. The keys of ed25519-dalek, the encodings and the file are parameters.
use t_u_s_h_e_r.Base.{ℕ, ◌≡◌, refl, Option, none, some, List, Outcome, ok, ◌>>=◌, ok_or}
use t_u_s_h_e_r.Base.Int.{ℤ}
use t_u_s_h_e_r.Base.Text.{Text}
use t_u_s_h_e_r.Core.Types.{NodeId, Platform}
use t_u_s_h_e_r.Core.Keys.{Crypto, DeviceIdentity, from_verifying_key}

pub record StoredIdentity : Type 0 where
  pub private_key_hex : Text
  pub node_name : Text
  pub created_at : ℤ

pub data IdentityError : Type 0 where
  bad_json bad_hex bad_private_key : IdentityError

-- What identity.rs calls: a signing key is its 32 bytes, `signing_key` checks them, and
-- `verifying_key_of` gives the bytes of the public key. What is written is read back.
pub record IdentityStore : Type 0 where
  pub hex_encode : List ℕ → Text
  pub hex_decode : Text → Option (List ℕ)
  pub signing_key : List ℕ → Option (List ℕ)
  pub verifying_key_of : List ℕ → List ℕ
  pub to_json : StoredIdentity → List ℕ
  pub from_json : List ℕ → Option StoredIdentity
  pub hex_decode-hex_encode : (bytes : List ℕ) → hex_decode (hex_encode bytes) ≡ some bytes
  pub from_json-to_json : (s : StoredIdentity) → from_json (to_json s) ≡ some s

-- An identity with its keys.
pub record KeptIdentity : Type 0 where
  pub key : List ℕ
  pub verifying_key : List ℕ
  pub node_id : NodeId
  pub node_name : Text
  pub platform : Platform
  pub created_at : ℤ

module _ (crypto : Crypto) (store : IdentityStore) (current : Platform) where
  -- An identity with a key, named and dated.
  unfoldable pub with_key : List ℕ → Text → ℤ → KeptIdentity
  with_key key node_name created_at =
      let verifying_key = store.verifying_key_of key in
      record {
        key = key;
        verifying_key = verifying_key;
        node_id = from_verifying_key crypto verifying_key;
        node_name = node_name;
        platform = current;
        created_at = created_at;
      }

  -- `generate`, with the key that the random numbers give.
  unfoldable pub generate : List ℕ → ℤ → Text → KeptIdentity
  unfolding with_key
  generate random_key now node_name = with_key random_key node_name now

  -- The branch of `load_or_create` for a file that is there.
  unfoldable pub load_identity : List ℕ → Outcome IdentityError KeptIdentity
  unfolding with_key
  load_identity bytes = do
    stored ← ok_or (store.from_json bytes) bad_json
    key_bytes ← ok_or (store.hex_decode stored.private_key_hex) bad_hex
    key ← ok_or (store.signing_key key_bytes) bad_private_key
    ok (with_key key stored.node_name stored.created_at)

  -- What is written of a new identity.
  unfoldable pub stored_identity : KeptIdentity → List ℕ
  stored_identity identity = store.to_json (record {
    private_key_hex = store.hex_encode identity.key;
    node_name = identity.node_name;
    created_at = identity.created_at;
  })

  -- From the file before, if there is one, to the file after and the identity.
  unfoldable pub load_or_create :
      List ℕ → ℤ → Text → Option (List ℕ) → Option (List ℕ) × Outcome IdentityError KeptIdentity
  unfolding generate load_identity stored_identity
  load_or_create random_key now default_name (some bytes) = (some bytes, load_identity bytes)
  load_or_create random_key now default_name none =
      let identity = generate random_key now default_name in
      (some (stored_identity identity), ok identity)

  -- The parts that go over the network.
  unfoldable pub public_identity : KeptIdentity → DeviceIdentity
  public_identity identity = record {
    node_id = identity.node_id;
    node_name = identity.node_name;
    platform = identity.platform;
    public_key_hex = store.hex_encode identity.verifying_key;
  }

  -- An identity that was created is found again by every later start, whatever the random numbers,
  -- the time and the name given then, if the key that was drawn is a valid one.
  pub load_or_create_again :
      (key key' : List ℕ) (now now' : ℤ) (name name' : Text)
      → store.signing_key key ≡ some key
      → let (file, made) = load_or_create key now name none in
        load_or_create key' now' name' file ≡ (file, made)
  unfolding load_or_create with_key
  load_or_create_again key key' now now' name name' valid =
      rw
        (
          store.from_json-to_json (record {
            private_key_hex = store.hex_encode key;
            node_name = name;
            created_at = now;
          }),
          store.hex_decode-hex_encode key,
          valid,
        )
        refl
