-- ===== src/ProxyConfig/Reached.antt =====
-- What it is for the clients of proxyconfig_controller.go to reach an endpoint.
use mathlib.Core.Path.{subst}
use cluster_authentication_o.Base.{
  ℕ, suc, sym, ◌≤◌, length, length-append, ◌++◌, ap, ◌∙◌, Option-cases, String, ◌≡◌, refl, inl, inr,
  arith, Bool, true, false, List, [], ◌∷◌, none, Result, ok, err,
}
use cluster_authentication_o.ProxyConfig.Reach.{
  client_of, Via, proxied, direct, is_endpoint_reachable, answer_error, status_error, Sent, Client,
  Prober, check_proxy_config,
}
use cluster_authentication_o.ProxyConfig.Providers.{probe_each}
use cluster_authentication_o.ProxyConfig.Route.{check_once}
use cluster_authentication_o.ProxyConfig.{View, prober}

abbrev pub client_for : Client × Client → Via → Client
client_for clients proxied = clients.0
client_for clients direct = clients.1

-- The n-th request goes to the URL through the client, which answers with a status code from 200 to
-- 299.
abbrev pub IsReached : View → Client × Client → Via → ℕ → String → Type 0
IsReached v clients via n url =
    (v.new_request url ≡ none)
    × ((code : ℕ) × ((client_for clients via).client_do n url ≡ ok code)
        × (200 ≤ code)
        × (code ≤ 299))

-- Each URL is reached by one request through the proxy, the first by the n-th.
abbrev pub AreReached : View → Client × Client → ℕ → List String → Type 0
AreReached v clients n [] = Unit
AreReached v clients n (url ∷ urls) =
    IsReached v clients proxied n url × AreReached v clients (suc n) urls

answer_lem :
    (p : Prober) (url : String) (r : Result ℕ)
    → answer_error p url r ≡ none
    → (code : ℕ) × (r ≡ ok code) × (200 ≤ code) × (code ≤ 299)
unfolding answer_error status_error
answer_lem p url (err e) h = absurd (ground (arith, h))
answer_lem p url (ok code) h = (code, refl, ground (arith, h), ground (arith, h))

reached_lem :
    (v : View) (clients : Client × Client) (via : Via) (url : String) (sent : Sent)
    → (is_endpoint_reachable (prober v clients) url via sent).0 ≡ none
    → IsReached v clients via (length sent) url
      × ((is_endpoint_reachable (prober v clients) url via sent).1 ≡ sent ++ (via, url) ∷ [])
unfolding is_endpoint_reachable
reached_lem v clients via url sent h = elim (Option-cases (v.new_request url)) [
  | inr (e, p) ↦ absurd (ground (arith, p, h))
  | inl p ↦ ((p, client_answers v clients via url sent (ground (arith, p, h))), ground (arith, p))
]
  where
    client_answers :
        (v : View) (clients : Client × Client) (via : Via) (url : String) (sent : Sent)
        → answer_error
            (prober v clients)
            url
            ((client_of (prober v clients) via).client_do (length sent) url)
          ≡ none
        → (code : ℕ) × ((client_for clients via).client_do (length sent) url ≡ ok code)
          × (200 ≤ code)
          × (code ≤ 299)
    client_answers v clients proxied url sent = answer_lem (prober v clients) url _
    client_answers v clients direct url sent = answer_lem (prober v clients) url _

probe_head :
    (p : Prober) (url : String) (urls : List String) (sent : Sent)
    → (probe_each p (url ∷ urls) sent).0 ≡ []
    → let (e, later) = is_endpoint_reachable p url proxied sent in
      (e ≡ none) × ((probe_each p urls later).0 ≡ [])
unfolding probe_each
probe_head p url urls sent h = elim (Option-cases (is_endpoint_reachable p url proxied sent).0) [
  | inl q ↦ (q, ground (arith, q, h))
  | inr (e, q) ↦ absurd (ground (arith, q, h))
]

pub probed_lem :
    (v : View) (clients : Client × Client) (urls : List String) (sent : Sent)
    → (probe_each (prober v clients) urls sent).0 ≡ []
    → AreReached v clients (length sent) urls
probed_lem v clients [] sent h = tt
probed_lem v clients (url ∷ urls) sent h =
    let (none_failed, rest) = probe_head (prober v clients) url urls sent h in
    let (reached, more) = reached_lem v clients proxied url sent none_failed in
    let later = probed_lem v clients urls _ rest in
    let count : length (is_endpoint_reachable (prober v clients) url proxied sent).1
        ≡ suc (length sent) =
      ap length more ∙ ground (arith, length-append sent ((proxied, url) ∷ [])) in
    (reached, subst (λ n. AreReached v clients n urls) count later)

-- The client that is to reach the route: the one without the proxy where the no-proxy list matches.
abbrev pub route_via : Bool → Via
route_via true = direct
route_via false = proxied

pub route_lem :
    (v : View) (clients : Client × Client) (url no_proxy : String) (m : Bool) {sent : Sent}
    → check_proxy_config (prober v clients) url no_proxy m [] ≡ (none, sent)
    → IsReached v clients (route_via m) 0 url × (length sent ≡ 1)
route_lem v clients url no_proxy true h =
    let (iff, same) = check_once (prober v clients) url no_proxy true [] in
    let first = iff.0 (ap (λ r. r.0) h) in
    let (reached, asked) = reached_lem v clients direct url [] first in
    (reached, ap length (sym (ap (λ r. r.1) h) ∙ same) ∙ ground (arith, first, asked))
route_lem v clients url no_proxy false h =
    let (iff, same) = check_once (prober v clients) url no_proxy false [] in
    let first = iff.0 (ap (λ r. r.0) h) in
    let (reached, asked) = reached_lem v clients proxied url [] first in
    (reached, ap length (sym (ap (λ r. r.1) h) ∙ same) ∙ ground (arith, first, asked))
