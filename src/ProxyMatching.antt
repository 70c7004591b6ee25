-- ===== src/ProxyMatching.antt =====
-- pkg/controllers/proxyconfig/proxymatching.go: which addresses a no-proxy list exempts. The parsing of
-- addresses, and the trimming and lower-casing of texts, are parameters. An IP is its 16-byte form.
pub mod Exempt
mod Examples
use cluster_authentication_o.Base.{
  ℕ, String, Bool, true, false, not, ◌&&◌, ◌||◌, List, [], ◌∷◌, ◌++◌, Option, none, some, Result,
  ok, err, is_empty, has, has_prefix, drop_first, drop_last, split_comma, is_ascii, has_suffix, ltb,
  ◌==◌, ◌<>◌, if◌then◌else◌,
}

pub record Net : Type 0 where
  -- strings.ToLower(strings.TrimSpace(s))
  pub normalise : String → String
  pub split_host_port : String → Result (String × String)
  pub parse_ip : String → Option String
  pub parse_cidr : String → Option String
  pub contains : String → String → Bool
  pub is_loopback : String → Bool
  pub idna_to_ascii : String → Result String
  pub join_host_port : String → String → String

pub data Matcher : Type 0 where
  all_match : Matcher
  cidr_match : String → Matcher
  ip_match : String → String → Matcher
  -- the host with its leading dot, the port, and whether the host itself matches
  domain_match : String → String → Bool → Matcher

pub record ProxyMatchers : Type 0 where
  pub ip_matchers : List Matcher
  pub domain_matchers : List Matcher

-- portMap
port_of : String → String
port_of scheme =
    if scheme == "http"
    then "80"
    else if scheme == "https"
    then "443"
    else if scheme == "socks5"
    then "1080"
    else ""

-- what one entry of the list adds
pub data Rule : Type 0 where
  ignored everything : Rule
  ip_rule domain_rule : Matcher → Rule

module _ (net : Net) where
  -- the `match` methods; there is an IP where the code asks a matcher of IPs
  unfoldable pub match : Matcher → String → String → Option String → Bool
  match all_match host port ip = true
  match (cidr_match cidr) host port ip = elim ip [ none ↦ false | some i ↦ net.contains cidr i ]
  match (ip_match m p) host port ip = elim ip [
    | none ↦ false
    | some i ↦ m == i && (is_empty p || p == port)
  ]
  match (domain_match h p match_host) host port ip =
      (has_suffix host h || (match_host && host == drop_first h)) && (is_empty p || p == port)

  unfoldable pub match_some : List Matcher → String → String → Option String → Bool
  match_some ms host port ip = has (λ m. match m host port ip) ms

  unfoldable pub match_ips : List Matcher → String → String → Option String → Bool
  match_ips ms host port none = false
  match_ips ms host port (some i) = match_some ms host port (some i)

  unfoldable pub is_loopback_ip : Option String → Bool
  is_loopback_ip none = false
  is_loopback_ip (some i) = net.is_loopback i

  unfoldable pub matches : ProxyMatchers → String → Bool
  unfolding match_ips is_loopback_ip
  matches ms addr = if is_empty addr then false else elim (net.split_host_port addr) [
    | err e ↦ true
    | ok (host, port) ↦
        let ip = net.parse_ip host in
        if host == "localhost"
        then true
        else if is_loopback_ip ip
        then true
        else match_ips ms.ip_matchers (net.normalise host) port ip
          || match_some ms.domain_matchers (net.normalise host) port ip
  ]

  unbracket : String → String
  unbracket host =
      if has_prefix host "[" && has_suffix host "]" then drop_last (drop_first host) else host

  strip_star : String → String
  strip_star host = if has_prefix host "*." then drop_first host else host

  -- the host is not empty here
  domain_of : String → String → Rule
  unfolding strip_star
  domain_of host port =
      let h = strip_star host in
      if has_prefix h "."
      then domain_rule (domain_match h port false)
      else domain_rule (domain_match ("." <> h) port true)

  host_rule : String → String → Rule
  unfolding domain_of
  host_rule host port = elim (net.parse_ip host) [
    | some ip ↦ ip_rule (ip_match ip port)
    | none ↦ if is_empty host then ignored else domain_of host port
  ]

  -- an entry after its trimming
  address_rule : String → Rule
  unfolding host_rule unbracket
  address_rule p = elim (net.split_host_port p) [
    | ok (host, port) ↦ if is_empty host then ignored else host_rule (unbracket host) port
    | err e ↦ host_rule p ""
  ]

  unfoldable pub rule_of : String → Rule
  unfolding address_rule
  rule_of entry =
      let p = net.normalise entry in
      if is_empty p
      then ignored
      else if p == "*"
      then everything
      else elim (net.parse_cidr p) [ some cidr ↦ ip_rule (cidr_match cidr) | none ↦ address_rule p ]

  -- the loop over the entries, which `*` ends
  unfoldable pub parse_entries : ProxyMatchers → List String → ProxyMatchers
  parse_entries ms [] = ms
  parse_entries ms (e ∷ entries) = elim (rule_of e) [
    | ignored ↦ parse_entries ms entries
    | everything ↦ record { ip_matchers = all_match ∷ []; domain_matchers = all_match ∷ [] }
    | ip_rule m ↦ parse_entries (record ms { ip_matchers = ms.ip_matchers ++ m ∷ [] }) entries
    | domain_rule m ↦
        parse_entries (record ms { domain_matchers = ms.domain_matchers ++ m ∷ [] }) entries
  ]

  unfoldable pub parse_no_proxy : String → ProxyMatchers
  parse_no_proxy config =
      parse_entries (record { ip_matchers = []; domain_matchers = [] }) (split_comma config)

  unfoldable pub canonical_addr : String → String → String → String
  unfolding port_of
  canonical_addr hostname port scheme =
      let addr =
        (if is_ascii hostname
          then hostname
          else elim (net.idna_to_ascii hostname) [ ok v ↦ v | err e ↦ hostname ]) in
      net.join_host_port addr (if is_empty port then port_of scheme else port)
