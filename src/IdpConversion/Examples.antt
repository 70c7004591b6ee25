-- ===== src/IdpConversion/Examples.antt =====
-- A provider with a password file and one with OpenID, whose token endpoint refuses the password.
use cluster_authentication_o.Base.{
  ◌+◌, String, ◌≡◌, refl, true, none, some, ok, err, not_found, Result, List, [], ◌∷◌, ◌++◌, All,
  map, length, if◌then◌else◌, ◌==◌, Error,
}
use cluster_authentication_o.IdpConversion.Types.{
  htpasswd, openid, text, ProviderConfig, IdentityProvider, Environment, State, Secret, Response,
  Transport, OpenIdProviderJson, Url,
}
use cluster_authentication_o.IdpConversion.Providers.{Converted}
use cluster_authentication_o.IdpConversion.Discovery.{
  is_valid_url, discover_openid_urls, check_urls, new_request, metadata_of,
}
use cluster_authentication_o.IdpConversion.PasswordGrant.{
  grant_query, with_headers, allowed_of, client_secret_of, is_server_error, grants_allowed,
  check_oidc_password_grant_flow, check_secret, try_password_grant, record_check,
}
use cluster_authentication_o.IdpConversion.Convert.{
  convert_identity_providers, default_idp_mapping_methods, default_mapping_method, convert_from,
  convert_step, loop_of, outcome_of, converted_of, convert_provider_config_to_idp_data, convert_as,
  configured, convert_htpasswd, convert_openid, grant_flow,
}
use cluster_authentication_o.IdpConversion.Tally.{tally, tally-IsDecimal}
use cluster_authentication_o.IdpConversion.Mounts.Served.{IsServed, converted-IsServed}
use cluster_authentication_o.IdpConversion.Answers.{IsAnswered, Check, run_checks, asked_once}

abbrev issuer : String
issuer = "https://login.example.com/"

abbrev urls : OpenIdProviderJson
urls = record {
  auth_url = "https://login.example.com/auth";
  token_url = "https://login.example.com/token";
  user_info_url = "";
}

abbrev client_secret : Secret
client_secret = record { resource_version = "7"; values = ("clientSecret", "hush") ∷ [] }

abbrev refused : Response
refused = record { status_code = 400; body = "invalid_grant" }

abbrev transport : Transport
transport = record {
  round_trip = λ r. ok (record { status_code = 200; body = "metadata" });
  client_do = λ r. ok refused;
}

abbrev https : Url
https = record { scheme = "https"; host = "login.example.com"; fragment = "" }

abbrev env : Environment
env = record {
  show = tally;
  secret = λ name. if name == "openid-secret" then ok client_secret else err not_found;
  new_transport = λ ca key. ok transport;
  parse_url = λ u. ok https;
  decode_metadata = λ body. ok urls;
  decode_map = λ body. ok (("error", text body) ∷ []);
}

abbrev start : State
start = record { sync_data = []; checks = []; requests = [] }

abbrev empty_config : ProviderConfig
empty_config = record {
  type = htpasswd;
  basic_auth_config = none;
  github_config = none;
  gitlab_config = none;
  google_config = none;
  htpasswd_config = some "users";
  keystone_config = none;
  ldap_config = none;
  openid_config = some (record {
    client_id = "cluster";
    client_secret = "openid-secret";
    ca = "";
    extra_scopes = [];
    extra_authorize_parameters = [];
    issuer = issuer;
    claims = record { preferred_username = []; name = []; email = []; groups = [] };
  });
  request_header_config = none;
}

abbrev idps : List IdentityProvider
idps =
    record { name = "local"; mapping_method = ""; config = empty_config }
    ∷ record {
      name = "sso";
      mapping_method = "lookup";
      config = record {
        type = openid;
        basic_auth_config = none;
        github_config = none;
        gitlab_config = none;
        google_config = none;
        htpasswd_config = none;
        keystone_config = none;
        ldap_config = none;
        openid_config = empty_config.openid_config;
        request_header_config = none;
      };
    }
    ∷ []

abbrev encoded : List Converted → Result (List String)
encoded cs = ok (map (λ c. c.name) cs)

converted-IsServed_example :
    (converted : List Converted) × (errs : List Error) × (later : State)
    × (convert_identity_providers encoded env idps start
        ≡ outcome_of later errs (encoded converted))
    × (length converted + length errs ≡ 2)
    × All (IsServed tally idps later.sync_data) converted
converted-IsServed_example = converted-IsServed encoded env tally-IsDecimal idps start

discovers_urls : (discover_openid_urls env issuer "ca.crt" "" start).1 ≡ ok urls
unfolding discover_openid_urls new_request metadata_of check_urls is_valid_url
discovers_urls = refl

answered : IsAnswered env urls.token_url "cluster" "" "openid-secret" start client_secret refused
answered = record {
  url = https;
  transport = transport;
  client_secret = "hush";
  found = refl;
  new = refl;
  key = unfold client_secret_of in refl;
  built = refl;
  parsed = refl;
  answered = refl;
  no_server_error = unfold is_server_error in refl;
}

abbrev unreachable : Check
unreachable = record {
  env = record {
    show = tally;
    secret = λ name. ok client_secret;
    new_transport = λ ca key. err not_found;
    parse_url = λ u. err not_found;
    decode_metadata = λ body. err not_found;
    decode_map = λ body. err not_found;
  };
  token_url = "https://other.example.com/token";
  client_id = "other";
  ca = "other-ca";
  name = "other";
}

asked_once_example :
    let (after, result) =
      check_oidc_password_grant_flow env urls.token_url "cluster" "" "openid-secret" start in
    (result ≡ ok (allowed_of env refused))
    × (after.requests
        ≡ []
          ++ with_headers (record {
            method = "POST";
            url = urls.token_url;
            form = grant_query "cluster" answered.client_secret;
            headers = [];
          })
            ∷ [])
    × (run_checks (unreachable ∷ []) after
        ≡ (after, map (λ c. ok (allowed_of env refused)) (unreachable ∷ [])))
asked_once_example =
    asked_once env urls.token_url "cluster" "" "openid-secret" start client_secret refused answered
      (unreachable ∷ []) (record { secret = client_secret; found = refl; same = refl }, tt)

allowed : allowed_of env refused ≡ true
unfolding allowed_of grants_allowed
allowed = refl

-- both providers convert
converted_names :
    (convert_identity_providers encoded env idps start).1 ≡ some ("local" ∷ "sso" ∷ [])
unfolding convert_identity_providers default_idp_mapping_methods default_mapping_method convert_from
    convert_step loop_of outcome_of converted_of convert_provider_config_to_idp_data convert_as
    configured convert_htpasswd convert_openid grant_flow discover_openid_urls new_request
    metadata_of check_urls is_valid_url check_oidc_password_grant_flow check_secret
    try_password_grant record_check client_secret_of is_server_error
converted_names = refl
