-- ===== src/ExternalOidc/Examples.antt =====
-- A controller in a cluster with one provider and with no feature gate enabled.
use cluster_authentication_o.Base.{
  String, ◌≡◌, ◌≢◌, refl, ◌⊎◌, false, [], ◌∷◌, none, some, not_found, ok, err, trim_suffix,
  trim_right_slash,
}
use cluster_authentication_o.Base.Loops.{collect}
use cluster_authentication_o.Generation.Types.{
  oidc, no_opinion, OidcProvider, Authentication, AuthenticationConfiguration, JwtAuthenticator,
  Deps,
}
use cluster_authentication_o.Generation.Issuer.{
  generate_issuer, discovery_url_of, certificate_authority_of,
}
use cluster_authentication_o.Generation.Mappings.{
  username_prefix, generate_username_claim_mapping_legacy, generate_username_claim_mapping,
  generate_groups_claim_mapping, generate_claim_mappings,
}
use cluster_authentication_o.Generation.Rules.{generate_claim_validation_rules}
use cluster_authentication_o.Generation.Generator.{
  parity_rules, generate_jwt_for_provider, generate_authentication_configuration,
  validate_apiserver_authentication_configuration, validate_jwts, validate_jwt, ca_cert_pool,
  well_known_url, validate_ca_cert,
}
use cluster_authentication_o.Generation.Whole.{IsConfigurationOf}
use cluster_authentication_o.Common.Oidc.{external_oidc_webhook_architecture_required}
use cluster_authentication_o.ExternalOidc.{
  View, get_expected_apply_config, get_existing_apply_config, same_data, apply_auth_config,
  sync_config, sync_oidc, sync,
}
use cluster_authentication_o.ExternalOidc.Options.{Setup, auth_config_generator}
use cluster_authentication_o.ExternalOidc.Sync.{
  IsWanted, applied, deleted, sync-IsWanted, applied_is_served,
}
use cluster_authentication_o.ExternalOidc.Settling.{effects, fresh_view, wanted_data, sync_settles}

abbrev deps : Deps
deps = record {
  config_map = λ name. ok (("ca-bundle.crt", "PEM") ∷ []);
  enabled = λ gate. false;
  parse_url = λ s. ok (record {
    scheme = "https";
    host = "idp.example";
    user = false;
    raw_query = "";
    fragment = "";
  });
  compile_claims = λ e. err not_found;
  compile_user = λ e. err not_found;
  new_pool = λ pem. ok (pem ∷ []);
  get_well_known = λ url pool. ok (record { status_code = 200; status = "200 OK"; body = ok "{}" });
}

abbrev provider : OidcProvider
provider = record {
  name = "idp";
  issuer = record {
    url = "https://idp.example";
    audiences = "console" ∷ [];
    certificate_authority = "";
    discovery_url = "";
  };
  claim_mappings = record {
    username = record {
      claim = "sub";
      expression = "";
      prefix_policy = no_opinion;
      prefix_string = none;
    };
    groups = record { claim = "groups"; expression = ""; prefix = "oidc:" };
    uid = none;
    extra = [];
  };
  claim_validation_rules = [];
  user_validation_rules = [];
}

abbrev jwt : JwtAuthenticator
jwt = record {
  issuer = record {
    url = "https://idp.example";
    discovery_url = none;
    certificate_authority = "";
    audiences = "console" ∷ [];
    audience_match_policy = "MatchAny";
  };
  claim_mappings = record {
    username = record { claim = "sub"; prefix = some "https://idp.example#"; expression = "" };
    groups = record { claim = "groups"; prefix = some "oidc:"; expression = "" };
    uid = record { claim = ""; expression = "" };
    extra = [];
  };
  claim_validation_rules = [];
  user_validation_rules = [];
}

abbrev auth : Authentication
auth = record { type = oidc; service_account_issuer = ""; oidc_providers = provider ∷ [] }

abbrev configuration : AuthenticationConfiguration
configuration = record { kind = "AuthenticationConfiguration"; jwt = jwt ∷ [] }

abbrev setup : Setup
setup = record {
  deps = deps;
  secret = λ name. err not_found;
  resolve_proxy = err not_found;
  oauth_generator = λ options a. err not_found;
  marshal = λ c. ok "{}";
}

generated : generate_authentication_configuration deps auth ≡ ok configuration
unfolding generate_authentication_configuration collect generate_jwt_for_provider generate_issuer
    discovery_url_of certificate_authority_of generate_claim_mappings
    generate_username_claim_mapping username_prefix generate_username_claim_mapping_legacy
    generate_groups_claim_mapping generate_claim_validation_rules parity_rules
    validate_apiserver_authentication_configuration validate_jwts validate_jwt ca_cert_pool
    well_known_url validate_ca_cert trim_right_slash trim_suffix
generated = refl

wanted : wanted_data setup auth ≡ ok (some (("auth-config.json", "{}") ∷ []))
unfolding auth_config_generator external_oidc_webhook_architecture_required
wanted = rw generated refl

-- a sync over an older text
abbrev view : View
view = fresh_view auth (some (("auth-config.json", "old") ∷ []))

sync-IsWanted_example :
    let cs = (sync setup view).0 in
    ((applied cs ≡ [])
      × ((deleted cs ≡ false) ⊎ ((a : Authentication) × (view.auth ≡ ok a) × (a.type ≢ oidc))))
    ⊎ ((text : String) × (applied cs ≡ text ∷ []) × (deleted cs ≡ false) × IsWanted setup view text)
sync-IsWanted_example = sync-IsWanted setup view

sync_settles_example :
    let out = sync setup view in
    (out.1 ≡ ok tt)
    × (effects out.0 (some (("auth-config.json", "old") ∷ []))
        ≡ some (("auth-config.json", "{}") ∷ []))
    × (sync setup (fresh_view auth (some (("auth-config.json", "{}") ∷ []))) ≡ ([], ok tt))
sync_settles_example =
    sync_settles setup auth (some (("auth-config.json", "old") ∷ []))
      (some (("auth-config.json", "{}") ∷ [])) wanted

no_webhook : external_oidc_webhook_architecture_required deps.enabled ≡ false
unfolding external_oidc_webhook_architecture_required
no_webhook = refl

applies_text : applied (sync setup view).0 ≡ "{}" ∷ []
unfolding sync sync_oidc auth_config_generator external_oidc_webhook_architecture_required
    get_expected_apply_config get_existing_apply_config sync_config same_data apply_auth_config
applies_text = rw generated refl

applied_is_served_example :
    (a : Authentication) × (config : AuthenticationConfiguration) × (view.auth ≡ ok a)
    × (a.type ≡ oidc)
    × (setup.marshal config ≡ ok "{}")
    × IsConfigurationOf setup.deps a config
applied_is_served_example = applied_is_served setup view "{}" [] no_webhook applies_text
