-- ===== src/Endpoints/Lists/Admitted.antt =====
-- listOAuthRoutes of oauth_endpoints_controller.go lists no endpoint before each hostname is admitted.
use cluster_authentication_o.Base.{
  String, ◌≡◌, ◌⊎◌, refl, inl, inr, arith, Bool, true, false, not, ◌&&◌, List, [], ◌∷◌, ◌++◌, some,
  ok, has, length, eqb, ◌==◌, eq_iff, Bool-cases, Option-cases, List-cases,
}
use cluster_authentication_o.Base.SortedSets.{insert_all, has-insert_all}
use cluster_authentication_o.Common.IngressConfig.{Ingress, get_component_route_status}
use cluster_authentication_o.Endpoints.Lists.{
  RouteIngress, delete, is_admitted_condition, Found, admit_each, admit, admit_all, check_found,
  hostnames_of, check_hostnames, list_oauth_routes,
}

-- Some ingress of the route has the host, admitted.
abbrev pub admits : String → RouteIngress → Bool
admits x i = i.host == x && has is_admitted_condition i.conditions

abbrev wants : String → List String → Bool
wants x = has (λ h. h == x)

wants-delete :
    (x host : String) (hosts : List String)
    → wants x (delete host hosts) ≡ (wants x hosts && not (host == x))
unfolding delete
wants-delete x host [] = refl
wants-delete x host (h ∷ hosts) =
    ground (arith, wants-delete x host hosts, eq_iff h host, eq_iff h x, eq_iff host x)

none_wanted :
    (x : String) (hosts : List String) → eqb (length hosts) 0 ≡ true → wants x hosts ≡ false
none_wanted x [] h = refl
none_wanted x (y ∷ hosts) h = absurd (ground (arith, h))

-- a hostname that is no longer wanted was the host, with an admitted condition
admit_each_lem :
    (x host : String) (conditions : List (String × String)) (f : Found)
    → wants x f.wanted ≡ true
    → (wants x (admit_each host conditions f).wanted ≡ true)
      ⊎ (((host == x) ≡ true) × (has is_admitted_condition conditions ≡ true))
unfolding admit_each
admit_each_lem x host [] f w = inl w
admit_each_lem x host (c ∷ conditions) f w = elim (Bool-cases (is_admitted_condition c)) [
  | inr p ↦ elim (admit_each_lem x host conditions f w) [
    | inl kept ↦ inl (ground (arith, p, kept))
    | inr gone ↦ inr (gone.0, ground (arith, p, gone))
  ]
  | inl p ↦ elim (Bool-cases (host == x)) [
    | inl same ↦ inr (same, ground (arith, p))
    | inr other ↦
        let next : Found = record {
          results = f.results ++ host ∷ [];
          wanted = delete host f.wanted;
        } in
        let kept : wants x (delete host f.wanted) ≡ true =
          ground (arith, wants-delete x host f.wanted, w, other) in
        elim (admit_each_lem x host conditions next kept) [
          | inl later ↦ inl (ground (arith, p, kept, later))
          | inr gone ↦ inr (gone.0, ground (arith, p))
        ]
  ]
]

admit_lem :
    (x : String) (i : RouteIngress) (f : Found)
    → wants x f.wanted ≡ true
    → (wants x (admit i f).wanted ≡ true) ⊎ (admits x i ≡ true)
unfolding admit
admit_lem x i f w = elim (admit_each_lem x i.host i.conditions f w) [
  | inl kept ↦ inl (ground (arith, kept, w))
  | inr gone ↦ inr (ground (arith, gone))
]

admit_all_lem :
    (x : String) (ingresses : List RouteIngress) (f : Found)
    → wants x f.wanted ≡ true
    → (wants x (admit_all ingresses f).wanted ≡ true) ⊎ (has (admits x) ingresses ≡ true)
unfolding admit_all
admit_all_lem x [] f w = inl w
admit_all_lem x (i ∷ ingresses) f w = elim (admit_lem x i f w) [
  | inr here ↦ inr (ground (arith, here))
  | inl kept ↦ elim (admit_all_lem x ingresses (admit i f) kept) [
    | inl later ↦ inl later
    | inr there ↦ inr (ground (arith, there))
  ]
]

check_found_lem :
    (f : Found) {urls : List String} → check_found f ≡ ok urls → eqb (length f.wanted) 0 ≡ true
unfolding check_found
check_found_lem f h = elim (List-cases f.results) [
  | inl p ↦ absurd (ground (arith, p, h))
  | inr (r, rs, p) ↦ ground (arith, p, h)
]

-- Where the endpoints of the route are listed, the status of the ingress has hostnames, and each of
-- them is the host of an ingress of the route that is admitted.
pub routes_admitted :
    (ingress : Ingress) (ingresses : List RouteIngress) {urls : List String} (x : String)
    → list_oauth_routes (ok ingress) (ok ingresses) ≡ ok urls
    → (hosts : List String) × (hostnames_of
          (get_component_route_status ingress "openshift-authentication" "oauth-openshift")
        ≡ some hosts)
      × ((has (λ h. h == x) hosts ≡ false) ⊎ (has (admits x) ingresses ≡ true))
unfolding list_oauth_routes check_hostnames
routes_admitted ingress ingresses {urls} x h =
    elim (Option-cases (
      hostnames_of
        (get_component_route_status ingress "openshift-authentication" "oauth-openshift"))) [
          | inl p ↦ absurd (ground (arith, p, h))
          | inr (hosts, p) ↦
              let start : Found = record { results = []; wanted = insert_all hosts [] } in
              let last = admit_all ingresses start in
              let gone =
                none_wanted x last.wanted
                  (check_found_lem last {urls = urls} (ground (arith, p, h))) in
              (
                hosts,
                p,
                elim (Bool-cases (wants x hosts)) [
                  | inr n ↦ inl n
                  | inl w ↦
                      elim (admit_all_lem x ingresses start
                        (ground (arith, has-insert_all x hosts [], w))) [
                          | inl kept ↦ absurd (ground (arith, kept, gone))
                          | inr there ↦ inr there
                        ]
                ],
              )
        ]
