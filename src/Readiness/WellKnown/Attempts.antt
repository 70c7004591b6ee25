-- ===== src/Readiness/WellKnown/Attempts.antt =====
-- The loop of attempts of checkWellknownEndpointReady.
use cluster_authentication_o.Base.{
  ℕ, zero, suc, ◌<◌, String, ◌≡◌, ◌⊎◌, refl, inl, inr, arith, List, [], ◌∷◌, Error, Result, ok, err,
  Result-cases,
}
use cluster_authentication_o.Readiness.Endpoint.{
  View, Response, Call, get, attempt_error, attempt, attempts,
}

abbrev pub gets : String → ℕ → List Call
gets url zero = []
gets url (suc n) = get url ∷ gets url n

-- What an attempt gives if it is the last.
abbrev pub answer_of : View → String → ℕ → Result Response
answer_of v url k = elim (v.round_trip url k) [
  | ok resp ↦ ok resp
  | err e ↦ err (attempt_error v url e)
]

-- Each attempt before the n-th failed.
abbrev pub FailedBefore : View → String → ℕ → Type 0
FailedBefore v url zero = Unit
FailedBefore v url (suc n) = FailedBefore v url n × ((e : Error) × (v.round_trip url n ≡ err e))

-- However the endpoint answers, the loop ends: it sends one request for each attempt up to some
-- attempt among the first three, all before that one failed, and its result is what that one gave;
-- it is the third, or it was answered.
pub attempts_end :
    (v : View) (url : String)
    → (n : ℕ) × (n < 3)
      × (attempts v url ≡ (gets url (suc n), answer_of v url n))
      × FailedBefore v url n
      × ((n ≡ 2) ⊎ ((resp : Response) × (v.round_trip url n ≡ ok resp)))
unfolding attempts attempt
attempts_end v url = elim (Result-cases (v.round_trip url 0)) [
  | inl (resp, p) ↦ (0, omega arith, ground (arith, p), tt, inr (resp, p))
  | inr (e, p) ↦ elim (Result-cases (v.round_trip url 1)) [
    | inl (resp, q) ↦ (1, omega arith, ground (arith, p, q), (tt, (e, p)), inr (resp, q))
    | inr (d, q) ↦ elim (Result-cases (v.round_trip url 2)) [
      | inl (resp, r) ↦ (2, omega arith, ground (arith, p, q, r), ((tt, (e, p)), (d, q)), inl refl)
      | inr (c, r) ↦ (2, omega arith, ground (arith, p, q, r), ((tt, (e, p)), (d, q)), inl refl)
    ]
  ]
]
