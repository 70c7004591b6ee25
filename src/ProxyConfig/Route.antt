-- ===== src/ProxyConfig/Route.antt =====
-- What the check of the route in proxyconfig_controller.go asks, and when it fails.
use cluster_authentication_o.Base.{
  String, ◌≡◌, ◌↔◌, inl, inr, arith, Bool, true, false, Option, none, some, Error, Option-cases,
}
use cluster_authentication_o.ProxyConfig.Reach.{
  Sent, Prober, is_endpoint_reachable, lazy_checker, after_other, after_expected, other, expected,
  check_proxy_config,
}

-- The answer of the client that is expected to reach the endpoint, and that of the other one after it.
abbrev pub first_answer : Prober → String → Bool → Sent → Option Error × Sent
first_answer p url m sent = is_endpoint_reachable p url (expected m) sent

abbrev pub second_answer : Prober → String → Bool → Sent → Option Error × Sent
second_answer p url m sent =
    is_endpoint_reachable p url (other (expected m)) (first_answer p url m sent).1

-- The requests that are needed: one, and the other one where the first fails.
abbrev pub needed : Prober → String → Bool → Sent → Sent
needed p url m sent = elim (first_answer p url m sent).0 [
  | none ↦ (first_answer p url m sent).1
  | some e ↦ (second_answer p url m sent).1
]

-- Whatever the clients answer, the check of an endpoint has no error exactly where the endpoint is
-- reached by the client that is expected to reach it: the one without the proxy where the no-proxy list
-- matches, and the one with it otherwise. The other client is asked after it and only where it fails,
-- and neither of them is asked twice, although the messages mention their answers again.
pub check_once :
    (p : Prober) (url no_proxy : String) (m : Bool) (sent : Sent)
    → (((check_proxy_config p url no_proxy m sent).0 ≡ none)
        ↔ ((first_answer p url m sent).0 ≡ none))
      × ((check_proxy_config p url no_proxy m sent).1 ≡ needed p url m sent)
unfolding check_proxy_config after_expected after_other lazy_checker
check_once p url no_proxy true sent = elim (Option-cases (first_answer p url true sent).0) [
  | inl a ↦ ground (arith, a)
  | inr (e, a) ↦ elim (Option-cases (second_answer p url true sent).0) [
    | inl b ↦ ground (arith, a, b)
    | inr (f, b) ↦ ground (arith, a, b)
  ]
]
check_once p url no_proxy false sent = elim (Option-cases (first_answer p url false sent).0) [
  | inl a ↦ ground (arith, a)
  | inr (e, a) ↦ elim (Option-cases (second_answer p url false sent).0) [
    | inl b ↦ ground (arith, a, b)
    | inr (f, b) ↦ ground (arith, a, b)
  ]
]
