-- ===== src/ProxyMatching/Examples.antt =====
-- A list with a domain, a domain with a port and an entry without a host.
use cluster_authentication_o.Base.{
  ◌≡◌, refl, true, false, ok, err, not_found, none, split_comma, ◌==◌, if◌then◌else◌, has_suffix,
  has_prefix,
}
use cluster_authentication_o.ProxyMatching.{
  Net, matches, match, match_some, match_ips, is_loopback_ip, parse_no_proxy, parse_entries,
  rule_of,
}
use cluster_authentication_o.ProxyMatching.Exempt.{is_exempt, matches-parse_no_proxy}

abbrev net : Net
net = record {
  normalise = λ s. s;
  split_host_port = λ s.
      if s == "idp.example:443"
      then ok ("idp.example", "443")
      else if s == "login.corp:80"
      then ok ("login.corp", "80")
      else err not_found;
  parse_ip = λ s. none;
  parse_cidr = λ s. none;
  contains = λ cidr ip. false;
  is_loopback = λ ip. false;
  idna_to_ascii = λ s. ok s;
  join_host_port = λ host port. host;
}

matches-parse_no_proxy_example :
    matches net (parse_no_proxy net ".example,login.corp:80") "idp.example:443"
    ≡ is_exempt net (split_comma ".example,login.corp:80") "idp.example:443"
matches-parse_no_proxy_example =
    matches-parse_no_proxy net ".example,login.corp:80" "idp.example:443"

subdomain_matches :
    matches net (parse_no_proxy net ".example,login.corp:80") "idp.example:443" ≡ true
unfolding matches match match_some match_ips is_loopback_ip parse_no_proxy parse_entries rule_of
    split_comma has_suffix has_prefix
subdomain_matches = refl
