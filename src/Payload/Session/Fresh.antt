-- ===== src/Payload/Session/Fresh.antt =====
-- The secret that the controller makes or keeps is valid.
use cluster_authentication_o.Base.{ℕ, String, ◌≡◌, arith, true, List, some, ok, length}
use cluster_authentication_o.Payload.Random.{random_string}
use cluster_authentication_o.Payload.Random.Bounds.{random_string_bounds}
use cluster_authentication_o.Payload.Session.{
  Secret, Codec, has_lengths, have_lengths, are_valid, is_valid_session_secret,
  new_session_secrets_json, random_session_secret, session_secret, session_secrets,
}

-- The new secrets are written and read back, and a read of crypto/rand fills its slice.
pub record IsCodec (codec : Codec) : Type 0 where
  pub read_back :
      (a b : List ℕ)
      → random_string (codec.random_bytes 0) 64 ≡ some a
      → random_string (codec.random_bytes 1) 32 ≡ some b
      → (text : String) × (codec.marshal (session_secrets a b) ≡ ok text)
        × (codec.unmarshal text ≡ ok (some (session_secrets a b)))
  pub full : (n size : ℕ) → length (codec.random_bytes n size) ≡ size

module _ (codec : Codec) (laws : IsCodec codec) where
  pub fresh_valid :
      (s : Secret) × (random_session_secret codec ≡ some (ok s))
      × (is_valid_session_secret codec (some s) ≡ ok true)
  unfolding random_session_secret new_session_secrets_json is_valid_session_secret are_valid
      have_lengths has_lengths
  fresh_valid =
      let (a, p, la, safe_a) = random_string_bounds (codec.random_bytes 0) (laws.full 0) 64 in
      let (b, q, lb, safe_b) = random_string_bounds (codec.random_bytes 1) (laws.full 1) 32 in
      let (text, r, t) = laws.read_back a b p q in
      (session_secret text, ground (arith, p, q, r), ground (arith, t, la, lb))
