-- ===== src/Payload/Examples.antt =====
-- A cluster whose session secret is too short, and a reader of zeros.
use cluster_authentication_o.Base.{
  ℕ, zero, suc, ◌≡◌, refl, arith, true, false, List, [], ◌∷◌, some, ok, All, length,
}
use cluster_authentication_o.Payload.Random.{
  random_string, slice, encode_to_string, url_char, decoded_len,
}
use cluster_authentication_o.Payload.Random.Bounds.{is_url_safe, random_string_bounds}
use cluster_authentication_o.Payload.Session.{
  Codec, Secret, SessionSecrets, session_secrets, is_valid_session_secret, are_valid,
}
use cluster_authentication_o.Payload.Session.Fresh.{IsCodec}
use cluster_authentication_o.Payload.Config.{View}
use cluster_authentication_o.Payload.Controller.{sync}
use cluster_authentication_o.Payload.Allowed.{IsAllowed, sync_payload-IsAllowed}

abbrev copies : ℕ → ℕ → List ℕ
copies zero x = []
copies (suc n) x = x ∷ copies n x

length-copies : (n x : ℕ) → length (copies n x) ≡ n
length-copies zero x = refl
length-copies (suc n) x = omega (arith, length-copies n x)

random_string_bounds_example :
    (t : List ℕ) × (random_string (λ n. copies n 0) 7 ≡ some t)
    × (length t ≡ 7)
    × All (λ c. is_url_safe c ≡ true) t
random_string_bounds_example = random_string_bounds (λ n. copies n 0) (λ n. length-copies n 0) 7

seven : random_string (λ n. copies n 255) 7 ≡ some (95 ∷ 95 ∷ 95 ∷ 95 ∷ 95 ∷ 95 ∷ 95 ∷ [])
unfolding random_string slice encode_to_string url_char decoded_len
seven = refl

abbrev fresh : SessionSecrets
fresh = session_secrets (copies 64 65) (copies 32 65)

abbrev codec : Codec
codec = record {
  unmarshal = λ text. ok (some fresh);
  marshal = λ s. ok "json";
  random_bytes = λ n size. copies size 0;
}

codec-IsCodec : IsCodec codec
unfolding random_string slice encode_to_string url_char decoded_len
codec-IsCodec = record {
  read_back = λ a b p q. ("json", refl, ground (arith, p, q));
  full = λ n size. length-copies size 0;
}

abbrev short : Secret
short = record {
  name = "v4-0-config-system-session";
  namespace = "openshift-authentication";
  labels = [];
  entries = ("v4-0-config-system-session", "json") ∷ [];
}

abbrev view : View
view = record {
  controller_instance_name = "openshift-authentication-PayloadConfig";
  text = λ e. "an error";
  oidc_available = ok false;
  session = ok short;
  codec = codec;
  route = ok "oauth.example.com";
  service = ok (record { name = "oauth-openshift"; namespace = "openshift-authentication" });
  operator_spec = ok (record { observed_config = "{}"; unsupported_config_overrides = "{}" });
  encode = λ c. ok "cli";
  unstructured = record {
    decoded = λ t. t;
    nested_field_copy = λ t path. ok t;
    marshal = λ t. ok t;
  };
  merge_pruned_process_config = λ cli observed unsupported. ok cli;
  server = λ c. ok tt;
}

sync_payload-IsAllowed_example : All (IsAllowed view) (sync view).0
sync_payload-IsAllowed_example = sync_payload-IsAllowed view codec-IsCodec

-- a secret without data is valid
no_data :
    is_valid_session_secret codec (
      some (record {
        name = "v4-0-config-system-session";
        namespace = "openshift-authentication";
        labels = [];
        entries = [];
      }))
    ≡ ok true
unfolding is_valid_session_secret are_valid
no_data = refl
