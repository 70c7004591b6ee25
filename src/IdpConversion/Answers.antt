-- ===== src/IdpConversion/Answers.antt =====
-- What discoverOpenIDURLs and checkOIDCPasswordGrantFlow make of the answers of an OpenID provider.
use cluster_authentication_o.Base.{
  String, ◌≡◌, refl, Bool, true, false, arith, none, some, Result, ok, List, [], ◌∷◌, ◌++◌, lookup,
  All, map, eq_refl,
}
use cluster_authentication_o.IdpConversion.Types.{
  Environment, State, Secret, Request, Response, Transport, Url, OpenIdProviderJson,
}
use cluster_authentication_o.IdpConversion.Discovery.{is_valid_url, well_known_of, new_request}
use cluster_authentication_o.IdpConversion.PasswordGrant.{
  client_secret_of, grant_query, with_headers, is_server_error, allowed_of, record_check,
  try_password_grant, check_secret, check_oidc_password_grant_flow,
}

-- The provider answers the request for its metadata with URLs that are valid.
pub record IsDiscovered (env : Environment) (issuer key ca : String) (urls : OpenIdProviderJson)
    : Type 0 where
  pub url : Url
  pub transport : Transport
  pub response : Response
  pub parsed : env.parse_url (well_known_of issuer) ≡ ok url
  pub built : env.new_transport ca key ≡ ok transport
  pub answered :
      transport.round_trip
        (record { method = "GET"; url = well_known_of issuer; form = []; headers = [] })
      ≡ ok response
  pub status_ok : response.status_code ≡ 200
  pub decoded : env.decode_metadata response.body ≡ ok urls
  pub authorize : is_valid_url env urls.auth_url false ≡ true
  pub token : is_valid_url env urls.token_url false ≡ true
  pub user_info : is_valid_url env urls.user_info_url true ≡ true

-- The provider answers the request for a token, and not by an error of its own. The check was not
-- made for the version of the secret before.
pub record IsAnswered (env : Environment) (token_url client_id ca name : String) (s : State)
    (secret : Secret) (resp : Response) : Type 0 where
  pub url : Url
  pub transport : Transport
  pub client_secret : String
  pub found : env.secret name ≡ ok secret
  pub new : lookup secret.resource_version s.checks ≡ none
  pub key : client_secret_of secret ≡ ok client_secret
  pub built : env.new_transport ca "ca.crt" ≡ ok transport
  pub parsed : env.parse_url token_url ≡ ok url
  pub answered :
      transport.client_do (
        with_headers (record {
          method = "POST";
          url = token_url;
          form = grant_query client_id client_secret;
          headers = [];
        }))
      ≡ ok resp
  pub no_server_error : is_server_error resp.status_code ≡ false

-- A check of a later conversion, of any provider, by what the cluster and the network are then.
pub record Check : Type 0 where
  pub env : Environment
  pub token_url : String
  pub client_id : String
  pub ca : String
  pub name : String

-- its secret has the version
pub record HasVersion (version : String) (c : Check) : Type 0 where
  pub secret : Secret
  pub found : c.env.secret c.name ≡ ok secret
  pub same : secret.resource_version ≡ version

abbrev pub run_checks : List Check → State → State × List (Result Bool)
run_checks [] s = (s, [])
run_checks (c ∷ later) s =
    let (s', r) = check_oidc_password_grant_flow c.env c.token_url c.client_id c.ca c.name s in
    let rest = run_checks later s' in (rest.0, r ∷ rest.1)

check_cached :
    (c : Check) (version : String) (s : State) {b : Bool}
    → HasVersion version c
    → lookup version s.checks ≡ some b
    → check_oidc_password_grant_flow c.env c.token_url c.client_id c.ca c.name s ≡ (s, ok b)
unfolding check_oidc_password_grant_flow check_secret
check_cached c version s v cached = ground (arith, v.found, v.same, cached)

run_checks_cached :
    (later : List Check) (version : String) (s : State) (b : Bool)
    → All (HasVersion version) later
    → lookup version s.checks ≡ some b
    → run_checks later s ≡ (s, map (λ c. ok b) later)
run_checks_cached [] version s b all cached = refl
run_checks_cached (c ∷ later) version s b (v, all) cached =
    rw (check_cached c version s v cached)
      (ground (arith, run_checks_cached later version s b all cached))

module _ (env : Environment) (token_url client_id ca name : String) (s : State) (secret : Secret)
    (resp : Response) (first : IsAnswered env token_url client_id ca name s secret resp) where
  abbrev sent : Request
  sent = with_headers (record {
    method = "POST";
    url = token_url;
    form = grant_query client_id first.client_secret;
    headers = [];
  })

  -- the check sends the one request, and keeps its outcome
  abbrev settled : State
  settled = record {
    sync_data = s.sync_data;
    checks = (secret.resource_version, allowed_of env resp) ∷ s.checks;
    requests = s.requests ++ sent ∷ [];
  }

  check-settled :
      check_oidc_password_grant_flow env token_url client_id ca name s
      ≡ (settled, ok (allowed_of env resp))
  unfolding check_oidc_password_grant_flow check_secret try_password_grant record_check new_request
  check-settled = ground (
    arith, first.found, first.new, first.key, first.built, first.parsed, first.answered,
    first.no_server_error,
  )

  -- A provider that answers the check, and not by a server error, is asked once for each version of
  -- the secret: the check sends one request and gives its outcome, and any checks that follow, of
  -- whatever provider, transport and network, whose secrets have that version send none, change
  -- nothing, and give the same outcome.
  pub asked_once :
      (later : List Check)
      → All (HasVersion secret.resource_version) later
      → let (after, result) = check_oidc_password_grant_flow env token_url client_id ca name s in
        (result ≡ ok (allowed_of env resp))
        × (after.requests
            ≡ s.requests
              ++ with_headers (record {
                method = "POST";
                url = token_url;
                form = grant_query client_id first.client_secret;
                headers = [];
              })
                ∷ [])
        × (run_checks later after ≡ (after, map (λ c. ok (allowed_of env resp)) later))
  asked_once later all = rw check-settled (
    refl,
    refl,
    run_checks_cached later secret.resource_version settled (allowed_of env resp) all
        (rw (eq_refl secret.resource_version) refl),
  )
