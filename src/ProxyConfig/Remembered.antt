-- ===== src/ProxyConfig/Remembered.antt =====
-- What a sync of proxyconfig_controller.go remembers of the identity providers.
use mathlib.Core.Path.{subst}
use cluster_authentication_o.Base.{
  ap, ◌∙◌, ◌<>◌, ℕ, length, Result-cases, String, ◌≡◌, ◌⊎◌, refl, inl, inr, arith, Bool, true,
  false, List, [], ◌∷◌, Option, none, some, Error, Result, ok, err, Bool-cases, ◌==◌,
}
use cluster_authentication_o.Common.Proxy.{ResolvedProxy, is_proxy_configured}
use cluster_authentication_o.IdpConversion.Types.{IdentityProvider}
use cluster_authentication_o.ProxyConfig.Reach.{proxied, direct, Sent, Client, check_proxy_config}
use cluster_authentication_o.ProxyConfig.Providers.{
  Validated, conclude, validate_urls, validate_idp_connectivity, probe_each, extract_idp_urls,
  compute_idp_validation_hash, hashed_lines,
}
use cluster_authentication_o.ProxyConfig.Reached.{
  IsReached, AreReached, route_via, probed_lem, route_lem,
}
use cluster_authentication_o.ProxyConfig.{
  Url, View, Outcome, prober, no_proxy_matches, get_route_healthz_url, create_http_clients,
  get_ca_pool, after_route, check_route, check_url, check_configured, check_proxy, sync_as, sync,
}

-- The texts, each with the end of its line.
abbrev pub lines : List String → String
lines [] = ""
lines (l ∷ ls) = l <> "\n" <> lines ls

lines_lem : (ls : List String) → hashed_lines ls ≡ lines ls
unfolding hashed_lines
lines_lem [] = refl
lines_lem (l ∷ ls) = ap (λ rest. l <> "\n" <> rest) (lines_lem ls)

-- The digest of a line for each part of the proxy and for each endpoint.
abbrev pub hash_of : (String → String) → ResolvedProxy → List String → String
hash_of sha256 proxy urls =
    sha256 (lines (proxy.http_proxy ∷ proxy.https_proxy ∷ proxy.no_proxy ∷ urls))

hash_lem :
    (sha256 : String → String) (proxy : ResolvedProxy) (urls : List String)
    → compute_idp_validation_hash sha256 proxy.http_proxy proxy.https_proxy proxy.no_proxy urls
      ≡ hash_of sha256 proxy urls
unfolding compute_idp_validation_hash
hash_lem sha256 proxy urls =
    ap sha256 (lines_lem (proxy.http_proxy ∷ proxy.https_proxy ∷ proxy.no_proxy ∷ urls))

-- The hash that is remembered is empty where there are no endpoints, and is otherwise that of the
-- endpoints, which were all reached by the requests from the n-th on, without a warning.
abbrev pub IsNew : View → Client × Client → ResolvedProxy → ℕ → List String → Validated → Type 0
IsNew v clients proxy n urls o =
    ((urls ≡ []) × (o.last_hash ≡ ""))
    ⊎ ((o.last_hash ≡ hash_of v.sha256 proxy urls)
        × AreReached v clients n urls
        × (o.warnings ≡ []))

conclude_lem :
    (last hash : String) (probed : List Error × Sent)
    → ((conclude last hash probed).last_hash ≡ last)
      ⊎ (((conclude last hash probed).last_hash ≡ hash)
          × (probed.0 ≡ [])
          × ((conclude last hash probed).warnings ≡ []))
unfolding conclude
conclude_lem last hash ([], sent) = inr (refl, refl, refl)
conclude_lem last hash (e ∷ errs, sent) = inl refl

urls-IsNew :
    (v : View) (clients : Client × Client) (proxy : ResolvedProxy) (last : String) (sent : Sent)
    (urls : List String)
    → let o = validate_urls v.sha256 (prober v clients) proxy last sent urls in
      (o.last_hash ≡ last) ⊎ IsNew v clients proxy (length sent) urls o
unfolding validate_urls
urls-IsNew v clients proxy last sent [] = inr (inl (refl, refl))
urls-IsNew v clients proxy last sent (url ∷ urls) =
    let hash =
      compute_idp_validation_hash v.sha256 proxy.http_proxy proxy.https_proxy proxy.no_proxy
        (url ∷ urls) in
    let same : hash ≡ hash_of v.sha256 proxy (url ∷ urls) = hash_lem v.sha256 proxy (url ∷ urls) in
    elim (Bool-cases (hash == last)) [
      | inl q ↦ inl (ground (arith, q))
      | inr q ↦ elim (conclude_lem last hash (probe_each (prober v clients) (url ∷ urls) sent)) [
        | inl k ↦ inl (ground (arith, q, k))
        | inr (k, none_failed, quiet) ↦ inr (
            inr (
              ground (arith, q, k) ∙ same,
              probed_lem v clients (url ∷ urls) sent none_failed,
              ground (arith, q, quiet),
            ))
      ]
    ]

-- What a sync that remembers another hash has done: the proxy is configured, the route was reached as
-- it should be, and the endpoints of the identity providers were asked.
pub record IsChecked (v : View) (o : Validated) : Type 0 where
  pub proxy : ResolvedProxy
  pub url : Url
  pub clients : Client × Client
  pub pool : List String
  pub providers : List IdentityProvider
  pub no_oidc : v.oidc_available ≡ ok false
  pub resolved : v.resolve_proxy ≡ ok proxy
  pub configured : is_proxy_configured proxy ≡ true
  pub routed : get_route_healthz_url v ≡ ok url
  pub pooled : get_ca_pool v ≡ ok pool
  pub with_proxy : v.new_transport pool proxied ≡ ok clients.0
  pub without_proxy : v.new_transport pool direct ≡ ok clients.1
  pub reached : IsReached v clients (route_via (no_proxy_matches v proxy url)) 0 (v.url_text url)
  pub given : v.oauth ≡ ok providers
  pub new : IsNew v clients proxy 1 (extract_idp_urls providers) o

abbrev Keeps : View → String → Outcome → Type 0
Keeps v last o = (o.0.last_hash ≡ last) ⊎ IsChecked v o.0

built_lem :
    (v : View) {clients : Client × Client}
    → create_http_clients v ≡ ok clients
    → (pool : List String) × (get_ca_pool v ≡ ok pool)
      × (v.new_transport pool proxied ≡ ok clients.0)
      × (v.new_transport pool direct ≡ ok clients.1)
unfolding create_http_clients
built_lem v h = elim (Result-cases (get_ca_pool v)) [
  | inr (e, p) ↦ absurd (ground (arith, p, h))
  | inl (pool, p) ↦ elim (Result-cases (v.new_transport pool proxied)) [
    | inr (e, q) ↦ absurd (ground (arith, p, q, h))
    | inl (c, q) ↦ elim (Result-cases (v.new_transport pool direct)) [
      | inr (e, r) ↦ absurd (ground (arith, p, q, r, h))
      | inl (d, r) ↦ (pool, p, ground (arith, p, q, r, h), ground (arith, p, q, r, h))
    ]
  ]
]

module _ (v : View) (last : String) (no_oidc : v.oidc_available ≡ ok false) where
  route-Keeps :
      (proxy : ResolvedProxy) (url : Url) (clients : Client × Client) (r : Option Error × Sent)
      (oauth : Result (List IdentityProvider))
      → v.resolve_proxy ≡ ok proxy
      → is_proxy_configured proxy ≡ true
      → get_route_healthz_url v ≡ ok url
      → create_http_clients v ≡ ok clients
      → check_proxy_config
          (prober v clients)
          (v.url_text url)
          proxy.no_proxy
          (no_proxy_matches v proxy url)
          []
        ≡ r
      → v.oauth ≡ oauth
      → Keeps v last (after_route v (prober v clients) proxy last r)
  unfolding after_route validate_idp_connectivity
  route-Keeps proxy url clients (some e, sent) oauth p q r s t g = inl refl
  route-Keeps proxy url clients (none, sent) (err e) p q r s t g = inl (ground (arith, g))
  route-Keeps proxy url clients (none, sent) (ok providers) p q r s t g =
      let (pool, pooled, with_proxy, without_proxy) = built_lem v s in
      let (reached, one) =
        route_lem v clients (v.url_text url) proxy.no_proxy (no_proxy_matches v proxy url) t in
      let urls = extract_idp_urls providers in
      let o = validate_urls v.sha256 (prober v clients) proxy last sent urls in
      elim (urls-IsNew v clients proxy last sent urls) [
        | inl k ↦ inl (ground (arith, g, k))
        | inr new ↦ inr (record {
          proxy = proxy;
          url = url;
          clients = clients;
          pool = pool;
          providers = providers;
          no_oidc = no_oidc;
          resolved = p;
          configured = q;
          routed = r;
          pooled = pooled;
          with_proxy = with_proxy;
          without_proxy = without_proxy;
          reached = reached;
          given = g;
          new = rw g (subst (λ n. IsNew v clients proxy n urls o) one new);
        })
      ]

  clients-Keeps :
      (proxy : ResolvedProxy) (url : Url) (clients : Result (Client × Client))
      → v.resolve_proxy ≡ ok proxy
      → is_proxy_configured proxy ≡ true
      → get_route_healthz_url v ≡ ok url
      → create_http_clients v ≡ clients
      → Keeps v last (check_route v proxy last url clients)
  unfolding check_route
  clients-Keeps proxy url (err e) p q r s = inl refl
  clients-Keeps proxy url (ok clients) p q r s = route-Keeps proxy url clients _ _ p q r s refl refl

  url-Keeps :
      (proxy : ResolvedProxy) (url : Result Url)
      → v.resolve_proxy ≡ ok proxy
      → is_proxy_configured proxy ≡ true
      → get_route_healthz_url v ≡ url
      → Keeps v last (check_url v proxy last url)
  unfolding check_url
  url-Keeps proxy (err e) p q r = inl refl
  url-Keeps proxy (ok url) p q r = clients-Keeps proxy url _ p q r refl

  configured-Keeps :
      (proxy : ResolvedProxy) (configured : Bool)
      → v.resolve_proxy ≡ ok proxy
      → is_proxy_configured proxy ≡ configured
      → Keeps v last (check_configured v proxy last configured)
  unfolding check_configured
  configured-Keeps proxy false p q = inl refl
  configured-Keeps proxy true p q = url-Keeps proxy _ p q refl

  proxy-Keeps :
      (r : Result ResolvedProxy) → v.resolve_proxy ≡ r → Keeps v last (check_proxy v last r)
  unfolding check_proxy
  proxy-Keeps (err e) p = inl refl
  proxy-Keeps (ok proxy) p = configured-Keeps proxy _ p refl

sync-Keeps :
    (v : View) (last : String) (r : Result Bool)
    → v.oidc_available ≡ r
    → Keeps v last (sync_as v last r)
unfolding sync_as
sync-Keeps v last (err e) p = inl refl
sync-Keeps v last (ok true) p = inl refl
sync-Keeps v last (ok false) p = proxy-Keeps v last p _ refl

-- A sync keeps the hash of the last validation, or all of the following holds. External OIDC is not
-- available and a proxy is configured. The route was reached by the first request, without the proxy
-- where the no-proxy list matches it and through the proxy otherwise. The hash is empty where the
-- providers of the OAuth configuration have no endpoints; otherwise it is that of the proxy and the
-- endpoints, each of which was reached by one request through the proxy, in order, and the sync has not
-- warned. An endpoint is reached where its request is answered with a status code from 200 to 299.
pub sync_remembers :
    (v : View) (last : String) → ((sync v last).0.last_hash ≡ last) ⊎ IsChecked v (sync v last).0
unfolding sync
sync_remembers v last = sync-Keeps v last v.oidc_available refl
