-- ===== src/Lib.antt =====
-- The operator of the cluster's authentication (pkg/operator, pkg/controllers): controllers that each
-- bring one part of the cluster to the state that its configuration asks for. This library models the
-- controllers' own logic. A controller's sync is a function of what it reads (a record `View`, `Env` or
-- `AuthConfigChecker`: the listers' answers, the clock, the answers of the API server) to the calls that it
-- makes, in order, and its result (Base.Calls); a controller with a state of its own is a function on that
-- state. Errors are values (Base.Errors): the format of a wrapped error is kept, its text is not rendered.
--
-- The parts, and the code they model:
--
-- Base: Go's errors, texts, loops that stop at the first error, and API calls.
-- Generation: pkg/controllers/externaloidc/generation/kubeapiserver/generate.go, which turns the
--   authentication resource into the structured configuration of the kube-apiserver. Generation.Expr is the
--   search in CEL expressions (hasSelectExp, usesEmailClaim, usesEmailVerifiedClaim), Generation.Issuer
--   generateIssuer, Generation.Mappings the generate...ClaimMapping functions, Generation.Rules the
--   validation rules, Generation.Generator generateJWTForProvider, GenerateAuthenticationConfiguration and
--   the probe of the issuers' well-known endpoints. Generation.Types has the types of the API that they read
--   and write, and `Deps` what they call of other packages.
-- Common.Oidc: pkg/controllers/common/external_oidc.go, whether external OIDC is in effect
--   (OIDCAvailable), which the other controllers ask before they act. Common.Conditions: common/conditions.go
--   (ApplyControllerConditions). Common.IngressConfig: common/ingress_config.go.
-- Common.Proxy: common/proxy.go, the proxy of the components (ResolveProxy, mergeNoProxy); Base.SortedSets has
--   the sorted sets of strings that it lists.
-- ExternalOidc: pkg/controllers/externaloidc/externaloidc_controller.go, which keeps the generated
--   configuration in a config map; it calls Generation and Common.Oidc.
-- CustomRoute: pkg/controllers/customroute. CustomRoute.Conditions is custom_route_conditions.go,
--   CustomRoute.Controller is custom_route_controller.go; they call Common.IngressConfig and DataSync.
-- DataSync.Validation: pkg/operator/datasync/validation.go, the checks of certificates and keys.
-- Switched: pkg/controllers/switchedcontroller/switched_controller.go, which starts and stops a delegate
--   controller. Its state has the mutex, the context and the contexts that are cancelled.
-- IngressNodes: pkg/controllers/ingressnodesavailable/ingress_nodes_available_controller.go, and IngressState:
--   pkg/controllers/ingressstate/ingress_state_controller.go; they ask Common.Oidc and report by
--   Common.Conditions.
-- DataSync.SyncData: pkg/operator/datasync/syncdata.go, how the secrets and config maps of identity providers
--   are synced (HandleIdPConfigSync), and DataSync.Sources the rest of that file with the validators of
--   validation.go: the additions, the volumes and the validation.
-- ProxyMatching: pkg/controllers/proxyconfig/proxymatching.go, the no-proxy lists (parseNoProxy, matches).
-- IdpConversion: pkg/controllers/configobservation/oauth/idp_conversions.go. Its state is the sync data of
--   DataSync.Sources, the package's map of password grant checks, and the requests that were sent;
--   IdpConversion.Convert is convertIdentityProviders, IdpConversion.Discovery discoverOpenIDURLs and
--   IdpConversion.PasswordGrant checkOIDCPasswordGrantFlow.
-- Readiness: pkg/controllers/readiness. Readiness.Degradation is error.go, Readiness.Override
--   unsupported_override.go, Readiness.Addresses getAPIServerIPs, Readiness.Endpoint the check of one
--   kube-apiserver, and Readiness.WellKnown that of all of them and the sync of wellknown_ready_controller.go.
-- Payload: pkg/controllers/payload/payload_config_controller.go. Payload.Random is randomString, Payload.Session
--   the session secret, Payload.Config the configuration, with common/route.go, service.go and config.go, and
--   Payload.Controller the sync.
-- RouterCerts: pkg/controllers/routercerts/controller.go. RouterCerts is populateVerifyOptionsFromCertSlice,
--   verifyWithAnyCertificate, validateRouterCertificates and the sync with its deferred update.
-- Endpoints: pkg/controllers/oauthendpoints/oauth_endpoints_controller.go and
--   pkg/libs/endpointaccessible/endpoint_accessible_controller.go. Endpoints.Lists are the three lists of
--   endpoints, Endpoints.Tls the two TLS configurations, and Endpoints.Accessible the sync: the errors of the
--   goroutines arrive in an order that is a parameter.
-- Metadata: pkg/controllers/metadata/metadata_controller.go. Metadata is the controller with its handlers and its
--   sync; the conditions go through Common.Conditions.
-- ProxyConfig: pkg/controllers/proxyconfig/proxyconfig_controller.go, which matches addresses by ProxyMatching. Its
--   state is lastIdPValidationHash and the requests of the sync; ProxyConfig.Reach is checkProxyConfig with its
--   lazy checkers, and ProxyConfig.Providers validateIdPConnectivity.
--
-- Parameters, since their code is in other packages: the CEL compiler, URL parsing, PEM and certificate
-- parsing, JSON marshalling, HTTP requests with their transport, the listers and clients of Kubernetes, the
-- field-manager extraction of applied configurations and the order in which a Go set or map is listed.
-- The theorems hold for every instance of them; an order of a set or map lists the same items.
--
-- Every loop of the modelled code runs over a finite list, so the definitions are structural recursions and
-- none needs fuel; the attempts of Readiness.Endpoint are counted down from the three of the source. Times are
-- numbers of nanoseconds. The revisions of nodes are integers, since the code compares them with zero. No
-- wrap-around is written: counts are lengths of lists and sums of those, and times lie far within the range of
-- Go's time.Time.
--
-- Not modelled: the wiring of informers and queues (operator/starter.go), logging and events but for their
-- order among the calls, the generated assets, the transport (pkg/transport), the commands, and the controllers of
-- the deployment, the OAuth clients, the trust distribution, the service CA, the webhook authenticator and the
-- termination, with the configuration observers (but for the identity providers) and the workload.
pub mod Base
pub mod Generation
pub mod Common
pub mod DataSync
pub mod IngressNodes
pub mod IngressState
pub mod ProxyMatching
pub mod IdpConversion
pub mod Readiness
pub mod Payload
pub mod RouterCerts
pub mod Endpoints
pub mod Metadata
pub mod ProxyConfig
pub mod CustomRoute
pub mod ExternalOidc
pub mod Switched
