-- ===== src/ProxyConfig/Reach.antt =====
-- proxyconfig_controller.go: the requests, and the check of the route with and without the proxy.
use cluster_authentication_o.Base.{
  ℕ, String, Bool, true, false, ◌||◌, List, [], ◌∷◌, ◌++◌, Option, none, some, Error, errorf,
  Result, ok, err, ltb, length, if◌then◌else◌,
}

-- the client of a request: with the proxy, or without it
pub data Via : Type 0 where
  proxied direct : Via

-- the requests that a sync has sent so far
abbrev pub Sent : Type 0
Sent = List (Via × String)

-- http.Client.Do of the n-th request: the status code
pub record Client : Type 0 where
  pub client_do : ℕ → String → Result ℕ

pub record Prober : Type 0 where
  pub text : Error → String
  pub show : ℕ → String
  -- http.NewRequest
  pub new_request : String → Option Error
  pub with_proxy : Client
  pub without_proxy : Client

abbrev pub client_of : Prober → Via → Client
client_of p proxied = p.with_proxy
client_of p direct = p.without_proxy

unfoldable pub status_error : Prober → String → ℕ → Option Error
status_error p url code =
    if ltb code 200 || ltb 299 code
    then some (errorf "%q returned %d" (url ∷ p.show code ∷ []))
    else none

-- what the answer to a request, sent or not, says of the endpoint
unfoldable pub answer_error : Prober → String → Result ℕ → Option Error
unfolding status_error
answer_error p url (err e) = some e
answer_error p url (ok code) = status_error p url code

unfoldable pub is_endpoint_reachable : Prober → String → Via → Sent → Option Error × Sent
unfolding answer_error
is_endpoint_reachable p url via sent = elim (p.new_request url) [
  | some e ↦ (some e, sent)
  | none ↦
      (answer_error p url ((client_of p via).client_do (length sent) url), sent ++ (via, url) ∷ [])
]

-- the two lazy checkers: the answers that they hold, and the requests
pub record Checkers : Type 0 where
  pub with_proxy : Option (Option Error)
  pub without_proxy : Option (Option Error)
  pub sent : Sent

abbrev pub held : Via → Checkers → Option (Option Error)
held proxied c = c.with_proxy
held direct c = c.without_proxy

abbrev pub hold : Via → Option Error × Sent → Checkers → Checkers
hold proxied (r, sent) c = record {
  with_proxy = some r;
  without_proxy = c.without_proxy;
  sent = sent;
}
hold direct (r, sent) c = record { with_proxy = c.with_proxy; without_proxy = some r; sent = sent }

-- a lazy checker computes its answer once
unfoldable pub lazy_checker : Prober → String → Via → Checkers → Option Error × Checkers
unfolding is_endpoint_reachable
lazy_checker p url via c = elim (held via c) [
  | some r ↦ (r, c)
  | none ↦ let answer = is_endpoint_reachable p url via c.sent in (answer.0, hold via answer c)
]

-- the text of an answer in a message
unfoldable pub answer_text : Prober → Option Error → String
answer_text p none = "<nil>"
answer_text p (some e) = p.text e

-- the messages: the client that is expected to reach the endpoint failed, the other one did not
unfoldable pub only_other : Prober → String → String → Via → Option Error → Error
unfolding answer_text
only_other p url no_proxy direct e =
    errorf "failed to reach endpoint(%q) found in NO_PROXY(%q) with error: %v"
      (url ∷ no_proxy ∷ answer_text p e ∷ [])
only_other p url no_proxy proxied e =
    errorf "failed to reach endpoint(%q) missing in NO_PROXY(%q) with error: %v"
      (url ∷ no_proxy ∷ answer_text p e ∷ [])

-- the messages where both clients fail
unfoldable pub neither : Prober → String → String → Via → Option Error → Option Error → Error
unfolding answer_text
neither p url no_proxy direct with_proxy without_proxy =
    errorf "endpoint(%q) found in NO_PROXY(%q) is unreachable with proxy(%v) and without proxy(%v)"
      (url ∷ no_proxy ∷ answer_text p with_proxy ∷ answer_text p without_proxy ∷ [])
neither p url no_proxy proxied with_proxy without_proxy =
    errorf "endpoint(%q) is unreachable with proxy(%v) and without proxy(%v)"
      (url ∷ answer_text p with_proxy ∷ answer_text p without_proxy ∷ [])

abbrev pub other : Via → Via
other proxied = direct
other direct = proxied

-- the other client has answered; the messages ask the checkers again
unfoldable pub after_other :
    Prober → String → String → Via → Option Error × Checkers → Option Error × Checkers
unfolding lazy_checker only_other neither
after_other p url no_proxy via (none, c) =
    let (e, d) = lazy_checker p url via c in (some (only_other p url no_proxy via e), d)
after_other p url no_proxy via (some e, c) =
    let (with_proxy, d) = lazy_checker p url proxied c in
    let (without_proxy, f) = lazy_checker p url direct d in
    (some (neither p url no_proxy via with_proxy without_proxy), f)

-- the client that is expected to reach the endpoint has answered
unfoldable pub after_expected :
    Prober → String → String → Via → Option Error × Checkers → Option Error × Checkers
unfolding after_other
after_expected p url no_proxy via (none, c) = (none, c)
after_expected p url no_proxy via (some e, c) =
    after_other p url no_proxy via (lazy_checker p url (other via) c)

-- where NO_PROXY matches the endpoint, it is to be reached without the proxy
abbrev pub expected : Bool → Via
expected true = direct
expected false = proxied

unfoldable pub check_proxy_config : Prober → String → String → Bool → Sent → Option Error × Sent
unfolding lazy_checker after_expected
check_proxy_config p url no_proxy no_proxy_matches sent =
    let via = expected no_proxy_matches in
    let start : Checkers = record { with_proxy = none; without_proxy = none; sent = sent } in
    let (e, c) = after_expected p url no_proxy via (lazy_checker p url via start) in (e, c.sent)
