-- ===== src/IdpConversion/PasswordGrant.antt =====
-- checkOIDCPasswordGrantFlow of idp_conversions.go: whether an OpenID provider allows password
-- grants, and the map of the checks that were made.
use cluster_authentication_o.Base.{
  ℕ, String, Bool, true, false, ◌&&◌, List, [], ◌∷◌, none, some, Result, ok, err, errorf, context,
  is_empty, leb, ◌==◌, if◌then◌else◌, lookup,
}
use cluster_authentication_o.IdpConversion.Types.{
  Secret, Request, Response, JsonValue, text, other_value, Environment, Conversion, pure, lift,
  send, set_check, ◌>>=◌, ◌>>◌,
}
use cluster_authentication_o.IdpConversion.Discovery.{new_request}

unfoldable pub client_secret_of : Secret → Result String
client_secret_of secret = elim (lookup "clientSecret" secret.values) [
  | none ↦
      err (errorf "the referenced secret does not contain a value for the 'clientSecret' key" [])
  | some v ↦
      if is_empty v
      then err
          (errorf "the referenced secret does not contain a value for the 'clientSecret' key" [])
      else ok v
]

unfoldable pub grant_query : String → String → List (String × String)
grant_query client_id client_secret =
    ("client_id", client_id)
    ∷ ("client_secret", client_secret)
    ∷ ("grant_type", "password")
    ∷ ("scope", "openid")
    ∷ ("username", "test")
    ∷ ("password", "test")
    ∷ []

unfoldable pub with_headers : Request → Request
with_headers r = record {
  method = r.method;
  url = r.url;
  form = r.form;
  headers =
      ("Content-Type", "application/x-www-form-urlencoded") ∷ ("Accept", "application/json") ∷ [];
}

unfoldable pub is_text : JsonValue → String → Bool
is_text (text a) b = a == b
is_text other_value b = false

-- a wrong password shows that password grants are allowed, and so does a token
unfoldable pub grants_allowed : List (String × JsonValue) → Bool
unfolding is_text
grants_allowed values = elim (lookup "error" values) [
  | some v ↦ is_text v "invalid_grant"
  | none ↦ elim (lookup "access_token" values) [ none ↦ false | some v ↦ true ]
]

unfoldable pub is_server_error : ℕ → Bool
is_server_error status = leb 500 status && leb status 599

-- what is kept of a response that is no server error
unfoldable pub allowed_of : Environment → Response → Bool
unfolding grants_allowed
allowed_of env resp = elim (env.decode_map resp.body) [
  | err e ↦ false
  | ok values ↦ grants_allowed values
]

unfoldable pub record_check : Environment → String → Response → Conversion Bool
record_check env version resp =
    if is_server_error resp.status_code
    then pure false
    else (do set_check version (allowed_of env resp); pure (allowed_of env resp))

unfoldable pub try_password_grant :
    Environment → String → String → String → Secret → Conversion Bool
try_password_grant env token_url client_id ca secret = do
  client_secret ← lift (client_secret_of secret)
  rt ← lift (context "couldn't build transport: %v" [] (env.new_transport ca "ca.crt"))
  req ← lift (new_request env "POST" token_url (grant_query client_id client_secret))
  resp ← send rt.client_do (with_headers req)
  record_check env secret.resource_version resp

unfoldable pub check_secret : Environment → String → String → String → Secret → Conversion Bool
check_secret env token_url client_id ca secret s = elim (lookup secret.resource_version s.checks) [
  | some cached ↦ (s, ok cached)
  | none ↦ try_password_grant env token_url client_id ca secret s
]

unfoldable pub check_oidc_password_grant_flow :
    Environment → String → String → String → String → Conversion Bool
check_oidc_password_grant_flow env token_url client_id ca client_secret_reference = do
  secret ←
      lift
        (context "couldn't get the referenced secret: %v" [] (env.secret client_secret_reference))
  check_secret env token_url client_id ca secret
