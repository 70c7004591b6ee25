-- ===== src/Payload/Session.antt =====
-- The session secret of payload_config_controller.go. A text of the secret is its bytes; the JSON is
-- read and written by parameters. A panic is none, or the error of the result of a test.
pub mod Fresh
use cluster_authentication_o.Base.{
  ℕ, suc, String, Bool, true, false, not, ◌&&◌, List, [], ◌∷◌, Option, none, some, Error, failure,
  Result, ok, err, context, length, eqb, if◌then◌else◌,
}
use cluster_authentication_o.Payload.Random.{random_string}

pub record SessionSecret : Type 0 where
  pub authentication : List ℕ
  pub encryption : List ℕ

pub record SessionSecrets : Type 0 where
  pub kind : String
  pub api_version : String
  pub secrets : List SessionSecret

-- a secret of the API; the data in the order of a range over it
pub record Secret : Type 0 where
  pub name : String
  pub namespace : String
  pub labels : List (String × String)
  pub entries : List (String × String)

-- encoding/json, of which null gives no secrets, and the reads of crypto/rand, by their order and size
pub record Codec : Type 0 where
  pub unmarshal : String → Result (Option SessionSecrets)
  pub marshal : SessionSecrets → Result String
  pub random_bytes : ℕ → ℕ → List ℕ

unfoldable pub has_lengths : SessionSecret → Bool
has_lengths s = eqb (length s.authentication) 64 && eqb (length s.encryption) 32

unfoldable pub have_lengths : List SessionSecret → Bool
unfolding has_lengths
have_lengths [] = true
have_lengths (s ∷ secrets) =
    let rest = have_lengths secrets in if has_lengths s then rest else false

-- the loop over the values: one that cannot be read ends it, and so does one with a wrong length
unfoldable pub are_valid : Codec → List (String × String) → Result Bool
are_valid codec [] = ok true
are_valid codec ((key, v) ∷ entries) =
    let rest = are_valid codec entries in
    elim (codec.unmarshal v) [
      | err e ↦ ok false
      | ok read ↦ elim read [
        | none ↦ err (failure "invalid memory address or nil pointer dereference")
        | some s ↦ if have_lengths s.secrets then rest else ok false
      ]
    ]

-- none is the nil secret
unfoldable pub is_valid_session_secret : Codec → Option Secret → Result Bool
is_valid_session_secret codec none = ok false
is_valid_session_secret codec (some s) = are_valid codec s.entries

abbrev pub session_secrets : List ℕ → List ℕ → SessionSecrets
session_secrets authentication encryption = record {
  kind = "SessionSecrets";
  api_version = "operatorv1client";
  secrets = record { authentication = authentication; encryption = encryption } ∷ [];
}

-- none where a slice is out of range
unfoldable pub new_session_secrets_json : Codec → Option (Result String)
new_session_secrets_json codec =
    let encryption = random_string (codec.random_bytes 1) 32 in
    elim (random_string (codec.random_bytes 0) 64) [
      | none ↦ none
      | some a ↦ elim encryption [
        | none ↦ none
        | some b ↦ some (
            context "error marshalling the session secret: %v" []
              (codec.marshal (session_secrets a b)))
      ]
    ]

abbrev pub session_secret : String → Secret
session_secret skey = record {
  name = "v4-0-config-system-session";
  namespace = "openshift-authentication";
  labels = ("app", "oauth-openshift") ∷ [];
  entries = ("v4-0-config-system-session", skey) ∷ [];
}

unfoldable pub random_session_secret : Codec → Option (Result Secret)
random_session_secret codec = elim (new_session_secrets_json codec) [
  | none ↦ none
  | some r ↦ elim r [ err e ↦ some (err e) | ok skey ↦ some (ok (session_secret skey)) ]
]

-- the live secret where it is valid, and otherwise a new one; none where it panics
unfoldable pub get_expected_session_secret : Codec → Result Secret → Option (Result Secret)
get_expected_session_secret codec (err e) = random_session_secret codec
get_expected_session_secret codec (ok secret) = elim (is_valid_session_secret codec (some secret)) [
  | err e ↦ none
  | ok valid ↦ if valid then some (ok secret) else random_session_secret codec
]
