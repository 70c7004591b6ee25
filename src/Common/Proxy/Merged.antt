-- ===== src/Common/Proxy/Merged.antt =====
-- The merged list of addresses that bypass the proxy, and when a component's proxy is in use.
use mathlib.Core.List.{Memᴰ}
use cluster_authentication_o.Base.{
  String, ◌≡◌, refl, ap, ◌⊎◌, ◌↔◌, inl, inr, true, false, ◌&&◌, List, [], Error, Result, ok, err,
  arith, join_comma, Bool-cases, Result-cases, ◌==◌,
}
use cluster_authentication_o.Base.SortedSets.{
  insert_all, IsSorted, insert_all-IsSorted, insert_all_mem, sorted_unique,
}
use cluster_authentication_o.Common.Proxy.{
  ResolvedProxy, AuthenticationProxyConfig, Environment, static_no_proxy_entries, merge_no_proxy,
  get_component_proxy_config, resolve_proxy,
}

-- The sorted lists of the same members.
statics-IsSorted : (host : String) → IsSorted (insert_all (static_no_proxy_entries host) [])
statics-IsSorted host = insert_all-IsSorted (static_no_proxy_entries host) [] tt

module _ (host : String) (us : List String) where
  abbrev statics : List String
  statics = insert_all (static_no_proxy_entries host) []

  members :
      (z : String)
      → Memᴰ z (insert_all us statics) ↔ (Memᴰ z us ⊎ Memᴰ z (static_no_proxy_entries host))
  members z = (
    λ m. elim ((insert_all_mem us statics z).0 m) [
      | inl n ↦ inl n
      | inr n ↦ elim ((insert_all_mem (static_no_proxy_entries host) [] z).0 n) [
        | inl k ↦ inr k
        | inr k ↦ elim k [ ]
      ]
    ],
    λ m. (insert_all_mem us statics z).1 (elim m [
      | inl n ↦ inl n
      | inr n ↦ inr ((insert_all_mem (static_no_proxy_entries host) [] z).1 (inl n))
    ]),
  )

  -- The merged text joins a sorted list, which has each address once, and whose addresses are those of
  -- the user and the static ones.
  pub merge_no_proxy-IsSorted :
      (entries : List String) × (merge_no_proxy host us ≡ join_comma entries)
      × IsSorted entries
      × ((z : String) → Memᴰ z entries ↔ (Memᴰ z us ⊎ Memᴰ z (static_no_proxy_entries host)))
  unfolding merge_no_proxy
  merge_no_proxy-IsSorted =
      (insert_all us statics, refl, insert_all-IsSorted us statics (statics-IsSorted host), members)

-- Two lists of the user with the same addresses, in any order and with any repetitions, give the same
-- text.
pub merge_no_proxy_same :
    (host : String) (us vs : List String)
    → ((z : String) → Memᴰ z us ↔ Memᴰ z vs)
    → merge_no_proxy host us ≡ merge_no_proxy host vs
unfolding merge_no_proxy
merge_no_proxy_same host us vs same = ap join_comma (
    sorted_unique (insert_all us (statics host us)) (insert_all vs (statics host us))
      (insert_all-IsSorted us (statics host us) (statics-IsSorted host))
      (insert_all-IsSorted vs (statics host us) (statics-IsSorted host))
      (λ z. (
        λ m.
            (insert_all_mem vs (statics host us) z).1
              (elim ((insert_all_mem us (statics host us) z).0 m) [
                | inl n ↦ inl ((same z).0 n)
                | inr n ↦ inr n
              ]),
        λ m.
            (insert_all_mem us (statics host us) z).1
              (elim ((insert_all_mem vs (statics host us) z).0 m) [
                | inl n ↦ inl ((same z).1 n)
                | inr n ↦ inr n
              ]),
      )))

-- The read finds no proxy of the components: there is no resource, or it names no proxy.
abbrev pub IsWithout : Result AuthenticationProxyConfig → Type 0
IsWithout lister =
    (lister ≡ err Error.not_found)
    ⊎ ((proxy : AuthenticationProxyConfig) × (lister ≡ ok proxy)
        × ((proxy.http_proxy == "" && proxy.https_proxy == "") ≡ true))

-- The proxy of the components is enabled, and the resource names one.
abbrev pub IsNamed : Environment → Result AuthenticationProxyConfig → ResolvedProxy → Type 0
IsNamed env lister p =
    (proxy : AuthenticationProxyConfig) × (lister ≡ ok proxy)
    × ((proxy.http_proxy == "" && proxy.https_proxy == "") ≡ false)
    × (p ≡ record {
      http_proxy = proxy.http_proxy;
      https_proxy = proxy.https_proxy;
      no_proxy = merge_no_proxy env.kubernetes_service_host proxy.no_proxy;
      trusted_ca_name = proxy.trusted_ca_name;
    })

abbrev pub from_environment : Environment → ResolvedProxy
from_environment env = record (env.from_environment) { trusted_ca_name = "" }

module _ (env : Environment) (lister : Result AuthenticationProxyConfig) (p : ResolvedProxy) where
  resolved_sound :
      resolve_proxy env (ok true) lister ≡ ok p
      → IsNamed env lister p ⊎ (IsWithout lister × (p ≡ from_environment env))
  unfolding resolve_proxy get_component_proxy_config
  resolved_sound h = elim (Result-cases lister) [
    | inr (e, l) ↦ inr (inl (ground (arith, l, h)), ground (arith, l, h))
    | inl (proxy, l) ↦ elim (Bool-cases (proxy.http_proxy == "" && proxy.https_proxy == "")) [
      | inl t ↦ inr (inr (proxy, l, t), ground (arith, l, t, h))
      | inr f ↦ inl (proxy, l, f, ground (arith, l, f, h))
    ]
  ]

  resolved_complete :
      IsNamed env lister p ⊎ (IsWithout lister × (p ≡ from_environment env))
      → resolve_proxy env (ok true) lister ≡ ok p
  unfolding resolve_proxy get_component_proxy_config
  resolved_complete (inl (proxy, l, f, e)) = ground (arith, l, f, e)
  resolved_complete (inr (inl n, e)) = ground (arith, n, e)
  resolved_complete (inr (inr (proxy, l, t), e)) = ground (arith, l, t, e)

  disabled : (resolve_proxy env (ok false) lister ≡ ok p) ↔ (p ≡ from_environment env)
  unfolding resolve_proxy
  disabled = (λ h. ground (arith, h), λ e. ground (arith, e))

  -- While the proxy of the components is enabled, it resolves to the one that the resource names, with
  -- the merged addresses, or, where there is no resource or it names none, to the environment's without
  -- a trusted CA; while it is disabled, to the environment's whatever the resource is.
  pub resolve_proxy_iff :
      ((resolve_proxy env (ok true) lister ≡ ok p)
        ↔ (IsNamed env lister p ⊎ (IsWithout lister × (p ≡ from_environment env))))
      × ((resolve_proxy env (ok false) lister ≡ ok p) ↔ (p ≡ from_environment env))
  resolve_proxy_iff = ((resolved_sound, resolved_complete), disabled)
