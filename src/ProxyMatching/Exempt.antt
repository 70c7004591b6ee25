-- ===== src/ProxyMatching/Exempt.antt =====
-- An address is exempt exactly where one entry of the list exempts it.
use cluster_authentication_o.Base.{
  String, ◌≡◌, refl, inl, inr, Bool, true, false, ◌⊎◌, not, ◌&&◌, ◌||◌, List, [], ◌∷◌, ◌++◌, Option,
  none, some, ok, err, arith, is_empty, has, split_comma, Result-cases, ◌==◌,
}
use cluster_authentication_o.ProxyMatching.{
  Net, Matcher, all_match, ProxyMatchers, match, match_some, match_ips, is_loopback_ip, matches,
  Rule, ignored, everything, ip_rule, domain_rule, rule_of, parse_entries, parse_no_proxy,
}

module _ (net : Net) where
  -- The rule exempts the host, its port and its IP, by itself: a rule of IPs only where there is an IP.
  abbrev pub exempts : Rule → String → String → Option String → Bool
  exempts ignored host port ip = false
  exempts everything host port ip = true
  exempts (ip_rule m) host port none = false
  exempts (ip_rule m) host port (some i) = match net m host port (some i)
  exempts (domain_rule m) host port ip = match net m host port ip

  -- What the list should say of an address, with no regard to the order of its entries.
  abbrev pub is_exempt : List String → String → Bool
  is_exempt entries addr = not (is_empty addr) && elim (net.split_host_port addr) [
    | err e ↦ true
    | ok (host, port) ↦
        host == "localhost"
        || (is_loopback_ip net (net.parse_ip host)
            || has (λ e. exempts (rule_of net e) (net.normalise host) port (net.parse_ip host))
                entries)
  ]

  abbrev matched : ProxyMatchers → String → String → Option String → Bool
  matched ms host port ip =
      match_ips net ms.ip_matchers host port ip || match_some net ms.domain_matchers host port ip

  some_append :
      (xs ys : List Matcher) (host port : String) (ip : Option String)
      → match_some net (xs ++ ys) host port ip
        ≡ (match_some net xs host port ip || match_some net ys host port ip)
  unfolding match_some
  some_append [] ys host port ip = refl
  some_append (x ∷ xs) ys host port ip = ground (arith, some_append xs ys host port ip)

  all_matched :
      (host port : String) (ip : Option String)
      → matched
          (record { ip_matchers = all_match ∷ []; domain_matchers = all_match ∷ [] })
          host
          port
          ip
        ≡ true
  unfolding match_ips match_some match
  all_matched host port none = refl
  all_matched host port (some i) = refl

  ip_added :
      (ms : ProxyMatchers) (m : Matcher) (host port : String) (ip : Option String)
      → matched (record ms { ip_matchers = ms.ip_matchers ++ m ∷ [] }) host port ip
        ≡ (matched ms host port ip || exempts (ip_rule m) host port ip)
  unfolding match_ips match_some
  ip_added ms m host port none = ground arith
  ip_added ms m host port (some i) =
      ground (arith, some_append ms.ip_matchers (m ∷ []) host port (some i))

  domain_added :
      (ms : ProxyMatchers) (m : Matcher) (host port : String) (ip : Option String)
      → matched (record ms { domain_matchers = ms.domain_matchers ++ m ∷ [] }) host port ip
        ≡ (matched ms host port ip || exempts (domain_rule m) host port ip)
  unfolding match_some
  domain_added ms m host port ip =
      ground (arith, some_append ms.domain_matchers (m ∷ []) host port ip)

  -- the four rules
  Rule-cases :
      (r : Rule)
      → (r ≡ ignored)
        ⊎ ((r ≡ everything)
            ⊎ (((m : Matcher) × (r ≡ ip_rule m)) ⊎ ((m : Matcher) × (r ≡ domain_rule m))))
  Rule-cases ignored = inl refl
  Rule-cases everything = inr (inl refl)
  Rule-cases (ip_rule m) = inr (inr (inl (m, refl)))
  Rule-cases (domain_rule m) = inr (inr (inr (m, refl)))

  entries_matched :
      (ms : ProxyMatchers) (entries : List String) (host port : String) (ip : Option String)
      → matched (parse_entries net ms entries) host port ip
        ≡ (matched ms host port ip || has (λ e. exempts (rule_of net e) host port ip) entries)
  unfolding parse_entries
  entries_matched ms [] host port ip = ground arith
  entries_matched ms (e ∷ entries) host port ip = elim (Rule-cases (rule_of net e)) [
    | inl p ↦ ground (arith, p, entries_matched ms entries host port ip)
    | inr (inl p) ↦ ground (arith, p, all_matched host port ip)
    | inr (inr (inl (m, p))) ↦ ground (
      arith,
      p,
      ip_added ms m host port ip,
      entries_matched (record ms { ip_matchers = ms.ip_matchers ++ m ∷ [] }) entries host port ip,
    )
    | inr (inr (inr (m, p))) ↦ ground (
      arith,
      p,
      domain_added ms m host port ip,
      entries_matched (record ms { domain_matchers = ms.domain_matchers ++ m ∷ [] }) entries host
          port ip,
    )
  ]

  none_matched :
      (host port : String) (ip : Option String)
      → matched (record { ip_matchers = []; domain_matchers = [] }) host port ip ≡ false
  unfolding match_ips match_some
  none_matched host port none = refl
  none_matched host port (some i) = refl

  -- For any parsing of addresses, an address matches the parsed list exactly where it is not empty and
  -- either has no port, or is local, or some entry of the list exempts it by itself.
  pub matches-parse_no_proxy :
      (config addr : String)
      → matches net (parse_no_proxy net config) addr ≡ is_exempt (split_comma config) addr
  unfolding matches parse_no_proxy
  matches-parse_no_proxy config addr = elim (Result-cases (net.split_host_port addr)) [
    | inr (e, p) ↦ ground (arith, p)
    | inl ((host, port), p) ↦ ground (
      arith,
      p,
      entries_matched (record { ip_matchers = []; domain_matchers = [] }) (split_comma config)
          (net.normalise host) port (net.parse_ip host),
      none_matched (net.normalise host) port (net.parse_ip host),
    )
  ]
