-- ===== src/Egress/Policy/Tests.antt =====
-- Runs of the egress policy on inputs of the source's own tests, and instances of the theorems. The
-- network is a small function here: an address block is the range from its base on, of 256.
use hands.Base.{
  All, ℕ, ◌+◌, ◌≡◌, refl, ◌≢◌, ◌↔◌, true, not, ◌&&◌, none, some, List, [], ◌∷◌, ◌++◌, leb, ltb,
  ◌==◌,
}
use hands.Base.Result.{ok, err}
use hands.Base.Text.{codes, byte_len, is_whitespace}
use hands.Egress.Policy.Host.{
  permanent_deny, normalize_host, normalize_dns_name, normalize_host_pattern, host_matches,
  strip_wildcard, same_text,
}
use hands.Egress.Policy.{
  Network, Destination, DenyPolicy, Rule, host_rule, cidr_rule, tls, tcp, cname, a_record,
  AuthorizedTarget, sort, dedup, match_destination, validate_destination, validate_policy, check_ip,
  checked_ipv4_answers, authorize_host, authorize,
}
use hands.Egress.Policy.Sound.{IsAuthorized, authorize-IsAuthorized}
use hands.Egress.Policy.Valid.{HasSource, validate_policy-HasSource}
use hands.Egress.Policy.Pattern.{wildcard_matches}

abbrev network : Network ℕ
network = record {
  contains = λ base address. leb base address && ltb address (base + 256);
  is_public_unicast = λ address. not (address == 127);
  parse_address = λ _. none;
  lookup = λ _. some (cname (codes "edge.example.net.") ∷ a_record 2001 ∷ a_record 2000 ∷ []);
  idna = λ name. some name;
}

abbrev deny : DenyPolicy ℕ
deny = record { hosts = codes "metadata.aex.dev" ∷ []; cidrs = 10 ∷ [] }

abbrev destinations : List (Destination ℕ)
destinations =
    record { host = some (codes "*.Example.com"); cidr = none; ports = 443 ∷ []; protocol = tls }
    ∷ record { host = none; cidr = some 2000; ports = 22 ∷ 80 ∷ []; protocol = tcp }
    ∷ []

abbrev rules : List (Rule ℕ)
rules = host_rule (codes "*.example.com") 443 ∷ cidr_rule 2000 22 ∷ cidr_rule 2000 80 ∷ []

rules_test : validate_policy network destinations ≡ ok rules
unfolding validate_policy validate_destination match_destination sort dedup normalize_host_pattern
    normalize_host strip_wildcard byte_len is_whitespace
rules_test = refl

abbrev target : AuthorizedTarget
target = record { address = 2000; port = 443; expected_sni = some (codes "api.example.com") }

target_test : authorize network rules deny (codes "api.example.com") 443 ≡ ok target
unfolding authorize authorize_host normalize_host normalize_dns_name checked_ipv4_answers check_ip
    sort dedup host_matches strip_wildcard same_text byte_len is_whitespace
target_test = refl

alias_test :
    checked_ipv4_answers network deny (cname (codes "metadata.aex.dev.") ∷ a_record 8 ∷ [])
    ≡ err permanent_deny
unfolding normalize_host normalize_dns_name checked_ipv4_answers check_ip host_matches
    strip_wildcard same_text byte_len is_whitespace
alias_test = refl

authorize-IsAuthorized_example : (◌≢◌ {A = ℕ} 443 0) × IsAuthorized network rules deny 443 target
authorize-IsAuthorized_example =
    authorize-IsAuthorized network rules deny (codes "api.example.com") 443 target target_test

validate_policy-HasSource_example : All (HasSource network destinations) rules
validate_policy-HasSource_example = validate_policy-HasSource network destinations rules rules_test

wildcard_matches_example :
    (host_matches (codes "*.example.com") (codes "notexample.com") ≡ true)
    ↔ ((label : List ℕ) × (label ≢ []) × (codes "notexample.com" ≡ label ++ codes ".example.com"))
wildcard_matches_example = wildcard_matches (codes "example.com") (codes "notexample.com")
