-- ===== src/Egress/Policy/Sound.antt =====
-- crates/hand-egress-gateway/src/policy.rs: what an authorization guarantees.
use hands.Base.{
  ℕ, ◌≡◌, refl, ◌≢◌, Bool, true, false, not, ◌&&◌, Option, none, some, List, [], ◌∷◌, inl, inr, all,
  any, arith, Option-cases, Bool-cases, if◌then◌else◌, ◌++◌,
}
use hands.Base.Result.{ok, Result-cases}
use hands.Egress.Policy.Host.{normalize_host, normalize_dns_name}
use hands.Egress.Policy.{
  RData, cname, a_record, aaaa_record, other, IpAddr, v4, v6, Network, Rule, DenyPolicy,
  AuthorizedTarget, insert_sorted, sort, dedup_after, dedup, denies_host, denies_ip, check_ip,
  checked_ipv4_answers, rule_allows_ip, rule_allows_host, select_first, authorize_address,
  authorize_host, authorize,
}

all-insert_sorted :
    (p : ℕ → Bool) (x : ℕ) (xs : List ℕ) → all p (insert_sorted x xs) ≡ p x && all p xs
all-insert_sorted p x [] = refl
all-insert_sorted p x (y ∷ ys) = ground (arith, all-insert_sorted p x ys)

all-sort : (p : ℕ → Bool) (xs : List ℕ) → all p (sort xs) ≡ all p xs
unfolding sort
all-sort p [] = refl
all-sort p (x ∷ xs) = ground (arith, all-insert_sorted p x (sort xs), all-sort p xs)

all-dedup_after :
    (p : ℕ → Bool) (x : ℕ) (xs : List ℕ) → all p xs ≡ true → all p (dedup_after x xs) ≡ true
all-dedup_after p x [] h = refl
all-dedup_after p x (y ∷ ys) h = ground (arith, all-dedup_after p y ys)

all-dedup : (p : ℕ → Bool) (xs : List ℕ) → all p xs ≡ true → all p (dedup xs) ≡ true
unfolding dedup
all-dedup p [] h = refl
all-dedup p (x ∷ xs) h = ground (arith, all-dedup_after p x xs)

module _ {Cidr : Type 0} (net : Network Cidr) (policy : List (Rule Cidr))
    (deny : DenyPolicy Cidr) where
  -- An address that no deny reaches.
  abbrev pub is_open_address : ℕ → Bool
  is_open_address address = net.is_public_unicast address && not (denies_ip net deny address)

  check_ip-accepts :
      (address : ℕ) → check_ip net deny address ≡ ok tt → is_open_address address ≡ true
  unfolding check_ip
  check_ip-accepts address h = ground arith

  checked_ipv4_answers-open :
      (records : List RData) (addresses : List ℕ)
      → checked_ipv4_answers net deny records ≡ ok addresses
      → all is_open_address addresses ≡ true
  unfolding checked_ipv4_answers
  checked_ipv4_answers-open [] addresses h = ground arith
  checked_ipv4_answers-open (cname name ∷ records) addresses h =
      elim (Result-cases (normalize_dns_name net.idna name)) [
        | inr (e, p) ↦ absurd (ground arith)
        | inl (alias, p) ↦ checked_ipv4_answers-open records addresses (ground arith)
      ]
  checked_ipv4_answers-open (a_record address ∷ records) addresses h =
      elim (Result-cases (check_ip net deny address)) [
        | inr (e, p) ↦ absurd (ground arith)
        | inl (u, p) ↦ elim (Result-cases (checked_ipv4_answers net deny records)) [
          | inr (e, q) ↦ absurd (ground arith)
          | inl (rest, q) ↦
              ground (arith, check_ip-accepts address, checked_ipv4_answers-open records rest q)
        ]
      ]
  checked_ipv4_answers-open (aaaa_record ∷ records) addresses h = absurd (ground arith)
  checked_ipv4_answers-open (other ∷ records) addresses h =
      checked_ipv4_answers-open records addresses (ground arith)

  -- The rule of the capability that lets the target pass: one on its address, or one on the host
  -- whose TLS name will be checked.
  abbrev pub IsPermitted : ℕ → ℕ → Option (List ℕ) → Type 0
  IsPermitted address port none = any (rule_allows_ip net address port) policy ≡ true
  IsPermitted address port (some host) =
      (any (rule_allows_host net host port) policy ≡ true) × (denies_host net deny host ≡ false)

  abbrev pub IsAuthorized : ℕ → AuthorizedTarget → Type 0
  IsAuthorized port target =
      (target.port ≡ port)
      × (is_open_address target.address ≡ true)
      × IsPermitted target.address port target.expected_sni

  authorize_address-IsAuthorized :
      (address : IpAddr) (port : ℕ) (target : AuthorizedTarget)
      → authorize_address net policy deny address port ≡ ok target
      → IsAuthorized port target
  unfolding authorize_address
  authorize_address-IsAuthorized v6 port target h = absurd (ground arith)
  authorize_address-IsAuthorized (v4 address) port target h =
      elim (Result-cases (check_ip net deny address)) [
        | inr (e, p) ↦ absurd (ground arith)
        | inl (u, p) ↦ ground (arith, check_ip-accepts address)
      ]

  select_first-IsAuthorized :
      (addresses : List ℕ) (port : ℕ) (sni : Option (List ℕ)) (target : AuthorizedTarget)
      → all is_open_address addresses ≡ true
      → ((address : ℕ) (rest : List ℕ) → addresses ≡ address ∷ rest → IsPermitted address port sni)
      → select_first net addresses port sni ≡ ok target
      → IsAuthorized port target
  select_first-IsAuthorized [] port sni target a b h = absurd (ground arith)
  select_first-IsAuthorized (address ∷ rest) port sni target a b h =
      ground (arith, b address rest refl)

  -- A target that the rules on its host or on all its addresses let pass.
  selected-IsAuthorized :
      (host addresses : List ℕ) (port : ℕ) (target : AuthorizedTarget)
      → denies_host net deny host ≡ false
      → all is_open_address addresses ≡ true
      → not (any (rule_allows_host net host port) policy)
          && not (all (λ address. any (rule_allows_ip net address port) policy) addresses)
        ≡ false
      → select_first net addresses port
          (if any (rule_allows_host net host port) policy then some host else none)
        ≡ ok target
      → IsAuthorized port target
  selected-IsAuthorized host [] port target d a b h = absurd (ground arith)
  selected-IsAuthorized host (address ∷ rest) port target d a b h =
      elim (Bool-cases (any (rule_allows_host net host port) policy)) [
        | inl q ↦ ground arith
        | inr q ↦ ground arith
      ]

  authorize_host-IsAuthorized :
      (authority : List ℕ) (port : ℕ) (target : AuthorizedTarget)
      → authorize_host net policy deny authority port ≡ ok target
      → IsAuthorized port target
  unfolding authorize_host
  authorize_host-IsAuthorized authority port target h =
      elim (Result-cases (normalize_host net.idna authority)) [
        | inr (e, p) ↦ absurd (ground arith)
        | inl (host, p) ↦ elim (Option-cases (net.lookup (host ++ b'.' ∷ []))) [
          | inl q ↦ absurd (ground arith)
          | inr (answers, q) ↦ elim (Result-cases (checked_ipv4_answers net deny answers)) [
            | inr (e, z) ↦ absurd (ground arith)
            | inl (checked, z) ↦
                selected-IsAuthorized host (dedup (sort checked)) port target (ground arith)
                  (ground (
                    arith,
                    all-dedup is_open_address (sort checked),
                    all-sort is_open_address checked,
                    checked_ipv4_answers-open answers checked z,
                  ))
                  (ground arith) (ground arith)
          ]
        ]
      ]

  -- A target that the gateway authorizes has the requested port, which is not 0, and an address that
  -- is public unicast and outside every denied block; and either a rule of the capability allows that
  -- address and port, or the target carries a host to check the TLS name against, a rule of the
  -- capability allows that host and port, and no denied host pattern matches it.
  pub authorize-IsAuthorized :
      (authority : List ℕ) (port : ℕ) (target : AuthorizedTarget)
      → authorize net policy deny authority port ≡ ok target
      → (port ≢ 0) × IsAuthorized port target
  unfolding authorize
  authorize-IsAuthorized authority port target h =
      elim (Option-cases (net.parse_address authority)) [
        | inl q ↦ (ground arith, authorize_host-IsAuthorized authority port target (ground arith))
        | inr (address, q) ↦
            (ground arith, authorize_address-IsAuthorized address port target (ground arith))
      ]
