-- ===== src/IdpConversion/Discovery.antt =====
-- discoverOpenIDURLs and isValidURL of idp_conversions.go: the endpoints of an OpenID provider.
use cluster_authentication_o.Base.{
  String, Bool, true, false, not, ◌&&◌, List, [], ◌∷◌, Result, ok, err, errorf, context, is_empty,
  eqb, ◌==◌, ◌<>◌, if◌then◌else◌, trim_right_slash,
}
use cluster_authentication_o.IdpConversion.Types.{
  Request, Response, OpenIdProviderJson, Environment, Conversion, pure, lift, send, ◌>>=◌, ◌>>◌,
}

unfoldable pub is_valid_url : Environment → String → Bool → Bool
is_valid_url env rawurl optional =
    if is_empty rawurl then optional else elim (env.parse_url rawurl) [
      | err e ↦ false
      | ok u ↦ u.scheme == "https" && (not (is_empty u.host) && is_empty u.fragment)
    ]

-- the loop over the three URLs: the first that is invalid ends it
unfoldable pub check_urls : Environment → String → List (String × Bool) → Result (Unit {0})
check_urls env well_known [] = ok tt
check_urls env well_known ((rawurl, optional) ∷ args) =
    let rest = check_urls env well_known args in
    if is_valid_url env rawurl optional
    then rest
    else err (errorf "invalid metadata from %s: url=%s optional=%v" (well_known ∷ rawurl ∷ []))

unfoldable pub well_known_of : String → String
well_known_of issuer = trim_right_slash issuer <> "/.well-known/openid-configuration"

-- http.NewRequest with a fixed method and a context: what can fail is the parsing of the URL
unfoldable pub new_request : Environment → String → String → List (String × String) → Result Request
new_request env method url form = elim (env.parse_url url) [
  | err e ↦ err e
  | ok u ↦ ok (record { method = method; url = url; form = form; headers = [] })
]

unfoldable pub metadata_of : Environment → String → Response → Result OpenIdProviderJson
metadata_of env well_known resp =
    if eqb resp.status_code 200
    then context "failed to decode metadata: %v" [] (env.decode_metadata resp.body)
    else err (errorf "couldn't get %v: unexpected response status %v" (well_known ∷ []))

-- the metadata that is found gives the URLs to authorize, for tokens and for users
unfoldable pub discover_openid_urls :
    Environment → String → String → String → Conversion OpenIdProviderJson
discover_openid_urls env issuer key ca = do
  req ← lift (new_request env "GET" (well_known_of issuer) [])
  rt ← lift (env.new_transport ca key)
  resp ← send rt.round_trip req
  metadata ← lift (metadata_of env (well_known_of issuer) resp)
  lift (
      check_urls env (well_known_of issuer) (
        (metadata.auth_url, false)
        ∷ (metadata.token_url, false)
        ∷ (metadata.user_info_url, true)
        ∷ []))
  pure metadata
