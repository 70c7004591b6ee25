-- ===== src/Payload/Allowed.antt =====
-- Which calls a sync of payload_config_controller.go makes.
use cluster_authentication_o.Base.{
  String, ◌≡◌, refl, inl, inr, arith, Bool, true, false, List, [], ◌∷◌, Option, none, some, Error,
  Result, ok, err, All, map, if◌then◌else◌, ◌⊎◌,
}
use cluster_authentication_o.Base.AllCalls.{All-bind}
use cluster_authentication_o.Base.Calls.{lift}
use cluster_authentication_o.Common.Conditions.{OperatorCondition, StatusCall, answered}
use cluster_authentication_o.Payload.Session.{
  Secret, is_valid_session_secret, random_session_secret,
}
use cluster_authentication_o.Payload.Session.Fresh.{IsCodec, fresh_valid}
use cluster_authentication_o.Payload.Config.{
  View, Service, OperatorSpec, Call, apply_secret, apply_config_map, delete_secret,
  delete_config_map, status, call_or_degraded, apply_session_secret, apply_generated, apply_valid,
  session_from, apply_complete, get_session_secret, complete_config, get_cli_config_map,
  handle_oauth_config, get_oauth_server_route, get_oauth_server_service, get_auth_config,
}
use cluster_authentication_o.Payload.Controller.{
  deleted, handled, found_conditions, config_conditions, sync_config, delete, remove_operands,
  clear, sync,
}

-- What each call rests on.
abbrev pub IsAllowed : View → Call → Type 0
IsAllowed v (apply_secret s) =
    (v.oidc_available ≡ ok false) × (is_valid_session_secret v.codec (some s) ≡ ok true)
IsAllowed v (apply_config_map m) =
    (v.oidc_available ≡ ok false)
    × ((host : String) × (service : Service) × (spec : OperatorSpec) × (config : String) × (v.route
          ≡ ok host)
        × (v.service ≡ ok service)
        × (v.operator_spec ≡ ok spec)
        × (complete_config v host service spec ≡ inr config)
        × (m ≡ get_cli_config_map config))
IsAllowed v (delete_secret name) = v.oidc_available ≡ ok true
IsAllowed v (delete_config_map name) = v.oidc_available ≡ ok true
IsAllowed v (status c) = Unit

answered-IsAllowed :
    (v : View) (c : Call) (f : Error → OperatorCondition) (r : Result (Unit {0}))
    → IsAllowed v c
    → All (IsAllowed v) (answered c f r).0
unfolding answered
answered-IsAllowed v c f (ok u) allowed = (allowed, tt)
answered-IsAllowed v c f (err e) allowed = (allowed, tt)

deleted-IsAllowed :
    (v : View) (c : Call) (format : String) (r : Result (Unit {0}))
    → IsAllowed v c
    → All (IsAllowed v) (deleted c format r).0
unfolding deleted
deleted-IsAllowed v c format (ok u) allowed = (allowed, tt)
deleted-IsAllowed v c format (err e) allowed = (allowed, tt)

status-IsAllowed : (v : View) (cs : List StatusCall) → All (IsAllowed v) (map status cs)
status-IsAllowed v [] = tt
status-IsAllowed v (c ∷ cs) = (tt, status-IsAllowed v cs)

clear-IsAllowed : (v : View) → v.oidc_available ≡ ok true → All (IsAllowed v) (clear v).0
unfolding clear remove_operands delete
clear-IsAllowed v oidc =
    All-bind (IsAllowed v) (remove_operands v) _
      (All-bind (IsAllowed v) (delete v _ _) _ (deleted-IsAllowed v _ _ _ oidc)
        (λ u p. deleted-IsAllowed v _ _ _ oidc))
      (λ u p. (tt, tt))

module _ (v : View) (laws : IsCodec v.codec) (no_oidc : v.oidc_available ≡ ok false) where
  generated-IsAllowed : All (IsAllowed v) (apply_generated v (random_session_secret v.codec)).0
  unfolding apply_generated apply_session_secret call_or_degraded
  generated-IsAllowed =
      let (s, p, valid) = fresh_valid v.codec laws in
      rw p (answered-IsAllowed v (apply_secret s) _ _ (no_oidc, valid))

  valid-IsAllowed :
      (s : Secret) (valid : Bool)
      → is_valid_session_secret v.codec (some s) ≡ ok valid
      → All (IsAllowed v) (apply_valid v s valid).0
  unfolding apply_valid apply_session_secret call_or_degraded
  valid-IsAllowed s true p = answered-IsAllowed v (apply_secret s) _ _ (no_oidc, p)
  valid-IsAllowed s false p = generated-IsAllowed

  session-IsAllowed : (session : Result Secret) → All (IsAllowed v) (session_from v session).0
  unfolding session_from
  session-IsAllowed (err e) = generated-IsAllowed
  session-IsAllowed (ok s) =
      All-bind (IsAllowed v) (lift (is_valid_session_secret v.codec (some s))) (apply_valid v s) tt
        (valid-IsAllowed s)

  complete-IsAllowed :
      (host : String) (service : Service) (spec : OperatorSpec)
      (c : List OperatorCondition ⊎ String)
      → v.route ≡ ok host
      → v.service ≡ ok service
      → v.operator_spec ≡ ok spec
      → complete_config v host service spec ≡ c
      → All (IsAllowed v) (apply_complete v c).0
  unfolding apply_complete call_or_degraded
  complete-IsAllowed host service spec (inl conditions) p q r e = tt
  complete-IsAllowed host service spec (inr config) p q r e =
      answered-IsAllowed v _ _ _ (no_oidc, (host, service, spec, config, p, q, r, e, refl))

  handled-IsAllowed :
      (host : Option String) (service : Option Service) (spec : Option OperatorSpec)
      → (get_oauth_server_route v "OAuthConfigRoute").0 ≡ host
      → (get_oauth_server_service v "OAuthConfigService").0 ≡ service
      → (get_auth_config v).0 ≡ spec
      → All (IsAllowed v) (handled v host service spec).0
  unfolding handled handle_oauth_config get_oauth_server_route get_oauth_server_service
      get_auth_config
  handled-IsAllowed (some host) (some service) (some spec) p q r =
      complete-IsAllowed host service spec _ (ground (arith, p)) (ground (arith, q))
        (ground (arith, r)) refl
  handled-IsAllowed none service spec p q r = tt
  handled-IsAllowed (some host) none spec p q r = tt
  handled-IsAllowed (some host) (some service) none p q r = tt

  config-IsAllowed :
      (found : List OperatorCondition) → All (IsAllowed v) (config_conditions v found).0
  unfolding config_conditions
  config-IsAllowed [] = handled-IsAllowed _ _ _ refl refl refl
  config-IsAllowed (c ∷ found) = tt

  sync_config-IsAllowed : All (IsAllowed v) (sync_config v).0
  unfolding sync_config get_session_secret
  sync_config-IsAllowed =
      All-bind (IsAllowed v) (get_session_secret v) _ (session-IsAllowed v.session) (λ session p.
        All-bind (IsAllowed v) (config_conditions v (found_conditions v session)) _
          (config-IsAllowed (found_conditions v session)) (λ config q. status-IsAllowed v _))

-- Where the JSON of a session secret can be read back and the random reads are full, a sync applies
-- the session secret and the configuration of the OAuth server only without external OIDC and deletes
-- them only with it. A secret that it applies is valid, whatever the secret in the cluster is, and a
-- configuration is the complete one of the route, the service and the operator's specification that
-- were read.
pub sync_payload-IsAllowed : (v : View) → IsCodec v.codec → All (IsAllowed v) (sync v).0
unfolding sync
sync_payload-IsAllowed v laws = All-bind (IsAllowed v) (lift v.oidc_available) _ tt go
  where
    go :
        (oidc : Bool)
        → v.oidc_available ≡ ok oidc
        → All (IsAllowed v) (if oidc then clear v else sync_config v).0
    go true p = clear-IsAllowed v p
    go false p = sync_config-IsAllowed v laws p
