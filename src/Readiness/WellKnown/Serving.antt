-- ===== src/Readiness/WellKnown/Serving.antt =====
-- When a kube-apiserver serves the metadata, and when it has failed for long, in words of their own.
use mathlib.Core.Path.{subst}
use cluster_authentication_o.Base.{
  wrapf, All, has, ℕ, zero, suc, ◌+◌, ◌<◌, String, ◌<>◌, ◌≡◌, ◌≢◌, ◌↔◌, ◌⊎◌, ap, ◌∙◌, inl, inr,
  arith, true, false, List, [], Error, none, some, ok, is_empty, lookup, eqb, eq_iff, Bool-cases,
  Option-cases, Result-cases,
}
use cluster_authentication_o.Base.Members.{every, Includes, has-Includes, every-All}
use cluster_authentication_o.Common.Conditions.{OperatorCondition, find_operator_condition}
use cluster_authentication_o.Readiness.Degradation.{
  condition_name, is_older, is_degraded_by, is_degraded,
}
use cluster_authentication_o.Readiness.Endpoint.{
  View, Fault, plain, observed, no_oauth_metadata, Response, get_oauth_metadata, metadata_of,
  attempt, attempts, check_status, received_values, check_response, check_answer, well_known_of,
  check_well_known_endpoint_ready,
}
use cluster_authentication_o.Readiness.WellKnown.Attempts.{FailedBefore, attempts_end}
use cluster_authentication_o.Readiness.WellKnown.Checks.{is_ready, partial}

-- The metadata that the config map holds.
abbrev pub Stores : View → String → Type 0
Stores v expected =
    (entries : List (String × String)) × (json : String) × (v.oauth_config_map ≡ ok entries)
    × (lookup "oauthMetadata" entries ≡ some json)
    × (is_empty json ≡ false)
    × (v.unmarshal json ≡ ok expected)

-- The response has the status 200 and the metadata.
abbrev pub IsGood : View → String → Response → Type 0
IsGood v expected resp =
    (resp.status_code ≡ 200)
    × ((body : String) × (resp.body ≡ ok body) × (v.unmarshal body ≡ ok expected))

-- One of the first three requests is the first to be answered.
abbrev pub Answers : View → String → Response → Type 0
Answers v url resp = (n : ℕ) × (n < 3) × FailedBefore v url n × (v.round_trip url n ≡ ok resp)

-- The kube-apiserver at the address serves the metadata that the config map holds.
abbrev pub IsServing : View → String → Type 0
IsServing v ip =
    let url = "https://" <> ip <> "/.well-known/oauth-authorization-server" in
    (expected : String) × (resp : Response) × Stores v expected
    × (v.new_request url ≡ ok tt)
    × Answers v url resp
    × IsGood v expected resp

stores_lem :
    (v : View)
    → ((expected : String) × (get_oauth_metadata v ≡ (none, expected)) × Stores v expected)
      ⊎ ((f : Fault) × ((get_oauth_metadata v).0 ≡ some f)
          × ((expected : String) → Stores v expected → ⊥))
unfolding get_oauth_metadata metadata_of
stores_lem v = elim (Result-cases v.oauth_config_map) [
  | inr (e, p) ↦
      inr (plain e, ground (arith, p), λ expected (entries, json, a, b, c, d). ground (arith, a, p))
  | inl (entries, p) ↦ elim (Option-cases (lookup "oauthMetadata" entries)) [
    | inl q ↦ inr (
      observed no_oauth_metadata,
      ground (arith, p, q),
      λ expected (es, json, a, b, c, d). ground (arith, a, b, p, q),
    )
    | inr (json, q) ↦ elim (Bool-cases (is_empty json)) [
      | inl r ↦ inr (
        observed no_oauth_metadata,
        ground (arith, p, q, r),
        λ expected (es, j, a, b, c, d). ground (arith, a, b, c, p, q, r),
      )
      | inr r ↦ elim (Result-cases (v.unmarshal json)) [
        | inr (e, t) ↦ inr (
          plain (wrapf "failed to unmarshal cm metadata: %w" [] e),
          ground (arith, p, q, r, t),
          λ expected (es, j, a, b, c, d). ground (arith, a, b, d, p, q, t),
        )
        | inl (expected, t) ↦
            inl (expected, ground (arith, p, q, r, t), (entries, json, p, q, r, t))
      ]
    ]
  ]
]

stored_unique : (v : View) (a b : String) → Stores v a → Stores v b → a ≡ b
stored_unique v a b (es, j, p, q, r, t) (fs, k, p', q', r', t') =
    ground (arith, p, q, r, t, p', q', r', t')

good_lem :
    (v : View) (url expected : String) (resp : Response)
    → (check_response v url expected resp ≡ none) ↔ IsGood v expected resp
unfolding check_response check_status received_values
good_lem v url expected resp = elim (Bool-cases (eqb resp.status_code 200)) [
  | inr p ↦ (λ h. absurd (ground (arith, p, h)), λ h. absurd (ground (arith, p, h.0)))
  | inl p ↦ elim (Result-cases resp.body) [
    | inr (e, q) ↦
        (λ h. absurd (ground (arith, p, q, h)), λ (s, (body, r, t)). absurd (ground (arith, q, r)))
    | inl (body, q) ↦ elim (Result-cases (v.unmarshal body)) [
      | inr (e, r) ↦ (
        λ h. absurd (ground (arith, p, q, r, h)),
        λ (s, (b, t, u)). absurd (ground (arith, q, r, t, u)),
      )
      | inl (values, r) ↦ (
        λ h. (ground (arith, p), (body, q, ground (arith, p, q, r, h, eq_iff expected values))),
        λ (s, (b, t, u)). ground (arith, p, q, r, t, u, eq_iff expected values),
      )
    ]
  ]
]

answers_first :
    (v : View) (url : String) (resp : Response) (n : ℕ)
    → n < 3
    → FailedBefore v url n
    → v.round_trip url n ≡ ok resp
    → (attempts v url).1 ≡ ok resp
unfolding attempts attempt
answers_first v url resp zero lt before p = ground (arith, p)
answers_first v url resp (suc zero) lt (u, (e, q)) p = ground (arith, p, q)
answers_first v url resp (suc (suc zero)) lt ((u, (e, q)), (d, r)) p = ground (arith, p, q, r)
answers_first v url resp (suc (suc (suc n))) lt before p = absurd (omega (arith, lt))

answer_lem :
    (v : View) (url expected : String)
    → check_answer v url expected (attempts v url).1 ≡ none
    → (resp : Response) × Answers v url resp × IsGood v expected resp
unfolding check_answer
answer_lem v url expected h =
    let (n, lt, p, before, stop) = attempts_end v url in
    elim (Result-cases (v.round_trip url n)) [
      | inr (e, q) ↦ absurd (ground (arith, p, q, h))
      | inl (resp, q) ↦
          (resp, (n, lt, before, q), (good_lem v url expected resp).0 (ground (arith, p, q, h)))
    ]

not_bad :
    (v : View) (url expected : String) (e : Error)
    → Stores v expected
    → check_answer v url expected (attempts v url).1 ≡ some e
    → (x : String) (resp : Response) → Stores v x
    → Answers v url resp
    → IsGood v x resp
    → ⊥
unfolding check_answer
not_bad v url expected e stored bad x resp s (n, lt, before, answered) good =
    let first = answers_first v url resp n lt before answered in
    let fine =
      (good_lem v url expected resp).1
        (subst (λ y. IsGood v y resp) (stored_unique v x expected s stored) good) in
    ground (arith, bad, first, fine)

ready_iff : (v : View) (ip : String) → (is_ready v ip ≡ true) ↔ IsServing v ip
unfolding check_well_known_endpoint_ready well_known_of check_answer
ready_iff v ip =
    let url = "https://" <> ip <> "/.well-known/oauth-authorization-server" in
    elim (stores_lem v) [
      | inr (f, p, nothing) ↦ (λ h. absurd (ground (arith, p, h)), λ h. absurd (nothing h.0 h.2))
      | inl (expected, p, stored) ↦ elim (Result-cases (v.new_request url)) [
        | inr (e, q) ↦ (λ h. absurd (ground (arith, p, q, h)), λ h. absurd (ground (arith, q, h.3)))
        | inl (u, q) ↦ elim (Option-cases (check_answer v url expected (attempts v url).1)) [
          | inr (e, bad) ↦ (
            λ h. absurd (ground (arith, p, q, bad, h)),
            λ h. absurd (not_bad v url expected e stored bad h.0 h.1 h.2 h.4 h.5),
          )
          | inl fine ↦ (
            λ h.
                let (resp, answered, good) = answer_lem v url expected fine in
                (expected, resp, stored, q, answered, good),
            λ h. ground (arith, p, q, fine),
          )
        ]
      ]
    ]

pub some_ready :
    (v : View) (ips : List String) → (has (is_ready v) ips ≡ true) ↔ Includes (IsServing v) ips
some_ready v = has-Includes (is_ready v) (IsServing v) (ready_iff v)

pub every_ready :
    (v : View) (ips : List String) → (every (is_ready v) ips ≡ true) ↔ All (IsServing v) ips
every_ready v = every-All (is_ready v) (IsServing v) (ready_iff v)

-- The last status has the condition of the failure, with its reason and the text of its error, for more
-- than five minutes; an instant is in nanoseconds, and 0 is none.
abbrev pub HasFailedLong : View → List OperatorCondition → Error → Type 0
HasFailedLong v status e =
    (c : OperatorCondition) × (find_operator_condition status
        "WellKnownReadyControllerDegradationObserved"
      ≡ some c)
    × (c.reason ≡ "AtLeastOneWellKnownEndpointUnavailable")
    × (c.message ≡ v.text e)
    × (c.last_transition_time ≢ 0)
    × (c.last_transition_time + 300000000000 < v.now)

condition_lem :
    (v : View) (e : Error) (c : OperatorCondition)
    → (is_degraded_by v.text v.now (partial e) (some c) ≡ true) ↔ (
        (c.reason ≡ "AtLeastOneWellKnownEndpointUnavailable")
        × (c.message ≡ v.text e)
        × (c.last_transition_time ≢ 0)
        × (c.last_transition_time + 300000000000 < v.now))
unfolding is_degraded_by is_older
condition_lem v e c =
    ground
      (arith, eq_iff c.reason "AtLeastOneWellKnownEndpointUnavailable", eq_iff c.message (v.text e))

pub long_iff :
    (v : View) (status : List OperatorCondition) (e : Error)
    → (is_degraded v.text v.now (partial e) "WellKnownReadyController" (some status) ≡ true)
      ↔ HasFailedLong v status e
unfolding is_degraded condition_name is_degraded_by
long_iff v status e =
    elim (Option-cases
      (find_operator_condition status "WellKnownReadyControllerDegradationObserved")) [
        | inl p ↦ (λ h. absurd (ground (arith, p, h)), λ h. absurd (ground (arith, p, h.1)))
        | inr (c, p) ↦ (
          λ h.
              let (a, b, t, f) = (condition_lem v e c).0 (ground (arith, p, h)) in
              (c, p, a, b, t, f),
          λ (d, q, a, b, t, f).
              ap (is_degraded_by v.text v.now (partial e)) q ∙ (condition_lem v e d).1 (a, b, t, f),
        )
      ]
