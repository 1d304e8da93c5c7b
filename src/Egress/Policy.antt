-- ===== src/Egress/Policy.antt =====
-- crates/hand-egress-gateway/src/policy.rs: which destination a verified capability may reach. Host
-- has the host names; here stand the policy of a capability and the decision on one target.
pub mod Host
mod Pattern
mod Valid
mod Sound
mod Tests
use hands.Base.{
  ℕ, ◌+◌, Bool, true, false, not, ◌&&◌, ◌||◌, Option, none, some, List, [], ◌∷◌, ◌++◌, map, ltb,
  leb, ◌==◌, length, all, any, if◌then◌else◌,
}
use hands.Base.Result.{Result, ok, err, refuse_if, ok_or, ◌>>=◌, ◌>>◌}
use Host.{
  PolicyError, malformed_policy, malformed_target, ipv6_unsupported, permanent_deny, denied,
  resolution_failed, Idna, normalize_host, normalize_dns_name, normalize_host_pattern, host_matches,
}

abbrev pub max_ports_per_destination : ℕ
max_ports_per_destination = 32

-- `DestinationProtocol`.
pub data Protocol : Type 0 where
  tls tcp : Protocol

-- The packages that the decision calls: address blocks, the classifier of public addresses, the
-- parser of addresses and the resolver. An IPv4 address is a number.
pub data IpAddr : Type 0 where
  v4 : ℕ → IpAddr
  v6 : IpAddr

-- `RData` of an answer; a name stands as its `to_ascii`.
pub data RData : Type 0 where
  cname : List ℕ → RData
  a_record : ℕ → RData
  aaaa_record : RData
  other : RData

pub record Network (Cidr : Type 0) : Type 0 where
  pub contains : Cidr → ℕ → Bool
  pub is_public_unicast : ℕ → Bool
  pub parse_address : List ℕ → Option IpAddr
  pub lookup : List ℕ → Option (List RData)
  pub idna : Idna

-- `CapabilityDestination`.
pub record Destination (Cidr : Type 0) : Type 0 where
  pub host : Option (List ℕ)
  pub cidr : Option Cidr
  pub ports : List ℕ
  pub protocol : Protocol

-- `ValidatedDestination`.
pub data Rule (Cidr : Type 0) : Type 0 where
  host_rule : List ℕ → ℕ → Rule Cidr
  cidr_rule : Cidr → ℕ → Rule Cidr

pub record DenyPolicy (Cidr : Type 0) : Type 0 where
  pub hosts : List (List ℕ)
  pub cidrs : List Cidr

pub record AuthorizedTarget : Type 0 where
  pub address : ℕ
  pub port : ℕ
  pub expected_sni : Option (List ℕ)

-- `sort_unstable` on numbers, as an insertion sort: equal numbers cannot be told apart.
abbrev pub insert_sorted : ℕ → List ℕ → List ℕ
insert_sorted x [] = x ∷ []
insert_sorted x (y ∷ ys) = let rest = insert_sorted x ys in if leb x y then x ∷ y ∷ ys else y ∷ rest

unfoldable pub sort : List ℕ → List ℕ
sort [] = []
sort (x ∷ xs) = insert_sorted x (sort xs)

-- `dedup`: consecutive repetitions, of which the first stays.
abbrev pub dedup_after : ℕ → List ℕ → List ℕ
dedup_after x [] = []
dedup_after x (y ∷ ys) = let rest = dedup_after y ys in if x == y then rest else y ∷ rest

unfoldable pub dedup : List ℕ → List ℕ
dedup [] = []
dedup (x ∷ xs) = x ∷ dedup_after x xs

-- `ports == [443]`.
abbrev pub is_https : List ℕ → Bool
is_https [] = false
is_https (port ∷ []) = port == 443
is_https (port ∷ _ ∷ _) = false

module _ {Cidr : Type 0} (net : Network Cidr) where
  -- The match of `ValidatedPolicy::new` on a destination, behind the tests on its ports.
  unfoldable pub match_destination :
      Option (List ℕ) → Option Cidr → Protocol → List ℕ → Result PolicyError (List (Rule Cidr))
  match_destination (some host) none tls ports =
      if is_https ports
      then (do
        pattern_text ← normalize_host_pattern net.idna host
        ok (host_rule pattern_text 443 ∷ []))
      else err malformed_policy
  match_destination none (some cidr) tcp ports = ok (map (cidr_rule cidr) ports)
  match_destination (some host) none tcp ports = err malformed_policy
  match_destination (some host) (some cidr) protocol ports = err malformed_policy
  match_destination none (some cidr) tls ports = err malformed_policy
  match_destination none none protocol ports = err malformed_policy

  unfoldable pub validate_destination : Destination Cidr → Result PolicyError (List (Rule Cidr))
  validate_destination destination = do
    refuse_if
        (length destination.ports == 0 || ltb max_ports_per_destination (length destination.ports))
        malformed_policy
    let ports = dedup (sort destination.ports)
    refuse_if (not (length ports == length destination.ports) || any (λ p. p == 0) ports)
        malformed_policy
    match_destination destination.host destination.cidr destination.protocol ports

  -- `ValidatedPolicy::new`.
  unfoldable pub validate_policy : List (Destination Cidr) → Result PolicyError (List (Rule Cidr))
  validate_policy [] = ok []
  validate_policy (destination ∷ destinations) = do
    rules ← validate_destination destination
    rest ← validate_policy destinations
    ok (rules ++ rest)

  abbrev pub denies_host : DenyPolicy Cidr → List ℕ → Bool
  denies_host deny host = any (λ pattern_text. host_matches pattern_text host) deny.hosts

  abbrev pub denies_ip : DenyPolicy Cidr → ℕ → Bool
  denies_ip deny address = any (λ cidr. net.contains cidr address) deny.cidrs

  unfoldable pub check_ip : DenyPolicy Cidr → ℕ → Result PolicyError (Unit {0})
  check_ip deny address =
      refuse_if (not (net.is_public_unicast address) || denies_ip deny address) permanent_deny

  unfoldable pub checked_ipv4_answers : DenyPolicy Cidr → List RData → Result PolicyError (List ℕ)
  checked_ipv4_answers deny [] = ok []
  checked_ipv4_answers deny (cname name ∷ records) = do
    alias ← normalize_dns_name net.idna name
    refuse_if (denies_host deny alias) permanent_deny
    checked_ipv4_answers deny records
  checked_ipv4_answers deny (a_record address ∷ records) = do
    check_ip deny address
    addresses ← checked_ipv4_answers deny records
    ok (address ∷ addresses)
  checked_ipv4_answers deny (aaaa_record ∷ records) = err ipv6_unsupported
  checked_ipv4_answers deny (other ∷ records) = checked_ipv4_answers deny records

  -- The two `matches!` of `authorize`.
  abbrev pub rule_allows_ip : ℕ → ℕ → Rule Cidr → Bool
  rule_allows_ip address port (cidr_rule cidr allowed) =
      allowed == port && net.contains cidr address
  rule_allows_ip address port (host_rule _ _) = false

  abbrev pub rule_allows_host : List ℕ → ℕ → Rule Cidr → Bool
  rule_allows_host host port (host_rule pattern_text allowed) =
      allowed == port && host_matches pattern_text host
  rule_allows_host host port (cidr_rule _ _) = false

  abbrev pub is_empty : List ℕ → Bool
  is_empty [] = true
  is_empty (_ ∷ _) = false

  -- `addresses[0]` behind the test that there is one.
  abbrev pub select_first : List ℕ → ℕ → Option (List ℕ) → Result PolicyError AuthorizedTarget
  select_first [] port sni = err resolution_failed
  select_first (address ∷ _) port sni =
      ok (record { address = address; port = port; expected_sni = sni })

  -- `authorize` for a literal address.
  unfoldable pub authorize_address :
      List (Rule Cidr) → DenyPolicy Cidr → IpAddr → ℕ → Result PolicyError AuthorizedTarget
  authorize_address policy deny v6 port = err ipv6_unsupported
  authorize_address policy deny (v4 address) port = do
    check_ip deny address
    refuse_if (not (any (rule_allows_ip address port) policy)) denied
    ok (record { address = address; port = port; expected_sni = none })

  -- `authorize` for a host name.
  unfoldable pub authorize_host :
      List (Rule Cidr) → DenyPolicy Cidr → List ℕ → ℕ → Result PolicyError AuthorizedTarget
  authorize_host policy deny authority port = do
    host ← normalize_host net.idna authority
    refuse_if (denies_host deny host) permanent_deny
    let by_host = any (rule_allows_host host port) policy
    answers ← ok_or (net.lookup (host ++ b'.' ∷ [])) resolution_failed
    checked ← checked_ipv4_answers deny answers
    let addresses = dedup (sort checked)
    refuse_if (is_empty addresses) resolution_failed
    let by_cidr = all (λ address. any (rule_allows_ip address port) policy) addresses
    refuse_if (not by_host && not by_cidr) denied
    select_first addresses port (if by_host then some host else none)

  unfoldable pub authorize :
      List (Rule Cidr) → DenyPolicy Cidr → List ℕ → ℕ → Result PolicyError AuthorizedTarget
  authorize policy deny authority port =
      if port == 0 then err malformed_target else elim (net.parse_address authority) [
        | some address ↦ authorize_address policy deny address port
        | none ↦ authorize_host policy deny authority port
      ]
