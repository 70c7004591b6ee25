-- ===== src/Endpoints/Accessible/Asked.antt =====
-- What a sync of endpoint_accessible_controller.go reports, whatever the order of the answers.
use mathlib.Core.List.{Permᴰ}
use cluster_authentication_o.Base.{
  All, ℕ, suc, ◌≤◌, String, ◌≡◌, ◌≢◌, ◌↔◌, errorf, refl, ap, ◌∙◌, inl, inr, arith, Bool, true,
  false, not, ◌&&◌, List, [], ◌∷◌, ◌++◌, Option, none, some, Error, Result, ok, err, has, length,
  length-append, ltb, eqb, join_errors, Bool-cases, Option-cases, Result-cases,
}
use cluster_authentication_o.Base.Members.{every, Includes, has-Includes, every-All}
use cluster_authentication_o.Base.Loops.{join-some}
use cluster_authentication_o.Common.Conditions.{status_true, status_false, AppliedCondition}
use cluster_authentication_o.Endpoints.Tls.{TlsConfig}
use cluster_authentication_o.Endpoints.Accessible.{
  insecure_skip_verify, given, Client, View, ask, is_success, ask_each, available, aggregate_text,
  apply, reported, with_missing, report, answer_errors, build_tls_client, check_endpoints,
  sync_enabled, sync,
}

-- The endpoint answers a request with a status code from 200 to 299.
abbrev pub IsAnswered : View → Client → String → Type 0
IsAnswered v client e =
    (v.new_request e ≡ none)
    × ((code : ℕ) × (text : String) × (client.client_do e ≡ ok (code, text))
        × (200 ≤ code)
        × (code ≤ 299))

-- what the model asks, as a test
abbrev answers : View → Client → String → Bool
answers v client e = elim (ask v client e) [ none ↦ true | some x ↦ false ]

answers_lem :
    (v : View) (client : Client) (e : String) → (answers v client e ≡ true) ↔ IsAnswered v client e
unfolding ask is_success
answers_lem v client e = elim (Option-cases (v.new_request e)) [
  | inr (x, p) ↦ (λ h. absurd (ground (arith, p, h)), λ h. absurd (ground (arith, p, h.0)))
  | inl p ↦ elim (Result-cases (client.client_do e)) [
    | inr (x, q) ↦ (
      λ h. absurd (ground (arith, p, q, h)),
      λ (_, (code, text, r, lo, hi)). absurd (ground (arith, q, r)),
    )
    | inl ((code, text), q) ↦ (
      λ h. (p, (code, text, q, ground (arith, p, q, h), ground (arith, p, q, h))),
      λ (_, (c, t, r, lo, hi)). ground (arith, p, q, r, lo, hi),
    )
  ]
]

length-Permᴰ : {xs ys : List Error} → Permᴰ xs ys → length xs ≡ length ys
length-Permᴰ Permᴰ.nil = refl
length-Permᴰ (Permᴰ.cons e p) = ap suc (length-Permᴰ p)
length-Permᴰ (Permᴰ.swap e f) = refl
length-Permᴰ (Permᴰ.trans p q) = length-Permᴰ p ∙ length-Permᴰ q

counts :
    (v : View) (client : Client) (es : List String)
    → let errs = ask_each v client es in
      (length errs ≤ length es)
      × (every (answers v client) es ≡ eqb (length errs) 0)
      × (has (answers v client) es ≡ ltb (length errs) (length es))
unfolding ask_each
counts v client [] = (omega arith, refl, refl)
counts v client (e ∷ es) =
    let (le, all, any) = counts v client es in
    elim (Option-cases (ask v client e)) [
      | inl p ↦ (ground (arith, p, le), ground (arith, p, all), ground (arith, p, le, any))
      | inr (x, p) ↦ (ground (arith, p, le), ground (arith, p, all), ground (arith, p, le, any))
    ]

-- no error is joined exactly of no errors
join_lem : (errs : List Error) → (join_errors errs ≡ none) ↔ (length errs ≡ 0)
join_lem [] = ground arith
join_lem (e ∷ es) = let (j, p) = join-some e es in ground (arith, p)

reported_lem :
    (errs : List Error) (r : Result (Unit {0}))
    → (join_errors (errs ++ answer_errors r) ≡ none) ↔ ((length errs ≡ 0) × (r ≡ ok tt))
reported_lem errs (ok u) = ground (arith, join_lem (errs ++ []), length-append errs [])
reported_lem errs (err e) = ground (arith, join_lem (errs ++ e ∷ []), length-append errs (e ∷ []))

-- The check is not disabled.
abbrev pub is_enabled : Option (Result Bool) → Bool
is_enabled none = true
is_enabled (some (ok skip)) = not skip
is_enabled (some (err e)) = false

-- The client has the configuration of getTLSConfigFn, or without one skips the verification.
abbrev pub IsClient : View → Option (Result (Option TlsConfig)) → Client → Type 0
IsClient v none client = client ≡ v.new_client insecure_skip_verify
IsClient v (some (ok config)) client = client ≡ v.new_client (given config)
IsClient v (some (err e)) client = ⊥

client_lem :
    (v : View) (c : Option (Result (Option TlsConfig))) (client : Client)
    → v.get_tls_config ≡ c
    → IsClient v c client
    → build_tls_client v ≡ ok client
unfolding build_tls_client
client_lem v none client p h = rw h (ground (arith, p))
client_lem v (some (ok config)) client p h = rw h (ground (arith, p))
client_lem v (some (err e)) client p h = absurd h

sync_lem :
    (v : View) (endpoints : List String) (client : Client)
    → is_enabled v.endpoint_check_disabled ≡ true
    → v.endpoints ≡ ok endpoints
    → build_tls_client v ≡ ok client
    → sync v ≡ report v (length endpoints) (v.arrived (ask_each v client endpoints))
unfolding sync sync_enabled check_endpoints
sync_lem v endpoints client enabled found built = elim (Option-cases v.endpoint_check_disabled) [
  | inl p ↦ ground (arith, p, found, built)
  | inr (r, p) ↦ elim (Result-cases r) [
    | inl (skip, q) ↦ ground (arith, p, q, enabled, found, built)
    | inr (e, q) ↦ absurd (ground (arith, p, q, enabled))
  ]
]

missing_some :
    (n : ℕ) (errs : List Error)
    → (ltb 0 n && ltb (length errs) n) ≡ false
    → length (with_missing n errs) ≢ 0
unfolding with_missing
missing_some n errs p h =
    ground
      (arith, p, h, length-append errs (errorf "failed to get oauth-openshift endpoints" [] ∷ []))

report_lem :
    (v : View) (n : ℕ) (errs : List Error)
    → (c : AppliedCondition) × (e : Option Error) × (report v n errs ≡ (apply v (c ∷ []) ∷ [], e))
      × ((c.status ≡ status_true) ↔ ((ltb 0 n && ltb (length errs) n) ≡ true))
      × ((e ≡ none) ↔ (
          ((ltb 0 n && ltb (length errs) n) ≡ true)
          × (length errs ≡ 0)
          × (v.server (apply v (c ∷ [])) ≡ ok tt)))
unfolding report reported
report_lem v n errs = elim (Bool-cases (ltb 0 n && ltb (length errs) n)) [
  | inl p ↦
      let c = available v status_true "AsExpected" "" in
      let r = v.server (apply v (c ∷ [])) in
      (
        c,
        join_errors (errs ++ answer_errors r),
        ground (arith, p),
        (λ h. p, λ h. refl),
        (
          λ h. let (none_failed, applied) = (reported_lem errs r).0 h in (p, none_failed, applied),
          λ h. (reported_lem errs r).1 (h.1, h.2),
        ),
      )
  | inr p ↦
      let missing = with_missing n errs in
      let c = available v status_false "EndpointUnavailable" (aggregate_text v missing) in
      let r = v.server (apply v (c ∷ [])) in
      (
        c,
        join_errors (missing ++ answer_errors r),
        ground (arith, p),
        (λ h. ground (arith, h), λ h. ground (arith, h, p)),
        (
          λ h. absurd (missing_some n errs p ((reported_lem missing r).0 h).0),
          λ h. ground (arith, h.0, p),
        ),
      )
]

-- A sync that is not disabled, with endpoints and a client (which skips the verification of TLS where
-- there is no getTLSConfigFn, and has the configuration that this gives otherwise), applies one
-- condition, whatever the order in which the errors of the endpoints arrive. It is True exactly where some endpoint answers
-- its request with a status code from 200 to 299, and the sync has no error exactly where there are
-- endpoints, all of them answer so, and the condition is accepted.
pub accessible_iff :
    (v : View) (endpoints : List String) (client : Client)
    → is_enabled v.endpoint_check_disabled ≡ true
    → v.endpoints ≡ ok endpoints
    → IsClient v v.get_tls_config client
    → Permᴰ (ask_each v client endpoints) (v.arrived (ask_each v client endpoints))
    → (c : AppliedCondition) × (e : Option Error) × (sync v ≡ (apply v (c ∷ []) ∷ [], e))
      × ((c.status ≡ status_true) ↔ Includes (IsAnswered v client) endpoints)
      × ((e ≡ none) ↔ (
          Includes (IsAnswered v client) endpoints
          × All (IsAnswered v client) endpoints
          × (v.server (apply v (c ∷ [])) ≡ ok tt)))
accessible_iff v endpoints client enabled found built perm =
    let errs = v.arrived (ask_each v client endpoints) in
    let (le, all, any) = counts v client endpoints in
    let same = length-Permᴰ perm in
    let (c, e, p, status, fine) = report_lem v (length endpoints) errs in
    let some_answer =
      has-Includes (answers v client) (IsAnswered v client) (answers_lem v client) endpoints in
    let all_answer =
      every-All (answers v client) (IsAnswered v client) (answers_lem v client) endpoints in
    let tested : (c.status ≡ status_true) ↔ (has (answers v client) endpoints ≡ true) =
      ground (arith, status, same, any) in
    let tests : (e ≡ none) ↔ (
        (has (answers v client) endpoints ≡ true)
        × (every (answers v client) endpoints ≡ true)
        × (v.server (apply v (c ∷ [])) ≡ ok tt)) =
      ground (arith, fine, same, any, all) in
    (
      c,
      e,
      sync_lem v endpoints client enabled found (client_lem v v.get_tls_config client refl built)
          ∙ p,
      (λ h. some_answer.0 (tested.0 h), λ h. tested.1 (some_answer.1 h)),
      (
        λ h.
            let (any_ok, all_ok, applied) = tests.0 h in
            (some_answer.0 any_ok, all_answer.0 all_ok, applied),
        λ (any_ok, all_ok, applied). tests.1 (some_answer.1 any_ok, all_answer.1 all_ok, applied),
      ),
    )
