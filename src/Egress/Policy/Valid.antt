-- ===== src/Egress/Policy/Valid.antt =====
-- crates/hand-egress-gateway/src/policy.rs: where the rules of a validated policy come from.
use hands.Base.{
  ℕ, ◌≡◌, refl, sym, ap, subst, ◌≢◌, ◌∙◌, ◌⊎◌, inl, inr, Bool, true, false, not, ◌&&◌, Option, none,
  some, List, [], ◌∷◌, ◌++◌, ◌==◌, ==_iff, all, any, map, All, arith, Bool-cases,
}
use hands.Base.Result.{ok, Result-cases}
use hands.Egress.Policy.Host.{normalize_host_pattern}
use hands.Egress.Policy.{
  Protocol, tls, tcp, Network, Destination, Rule, host_rule, cidr_rule, insert_sorted, sort,
  dedup_after, dedup, is_https, match_destination, validate_destination, validate_policy,
}

-- A test that holds of every number of a list holds of every number of it sorted, and conversely.
module _ (p : ℕ → Bool) where
  all-insert_sorted : (x : ℕ) (xs : List ℕ) → all p (insert_sorted x xs) ≡ p x && all p xs
  all-insert_sorted x [] = refl
  all-insert_sorted x (y ∷ ys) = ground (arith, all-insert_sorted x ys)

  all-sort : (xs : List ℕ) → all p (sort xs) ≡ all p xs
  unfolding sort
  all-sort [] = refl
  all-sort (x ∷ xs) = ground (arith, all-insert_sorted x (sort xs), all-sort xs)

  same_test : (x y : ℕ) → x == y ≡ true → p x ≡ p y
  same_test x y h = ap p ((==_iff x y).0 h)

  all-dedup_after : (x : ℕ) (xs : List ℕ) → p x && all p (dedup_after x xs) ≡ p x && all p xs
  all-dedup_after x [] = refl
  all-dedup_after x (y ∷ ys) = elim (Bool-cases (x == y)) [
    | inl same ↦ ground (arith, all-dedup_after y ys, same_test x y same)
    | inr other ↦ ground (arith, all-dedup_after y ys)
  ]

  all-dedup : (xs : List ℕ) → all p (dedup xs) ≡ all p xs
  unfolding dedup
  all-dedup [] = refl
  all-dedup (x ∷ xs) = all-dedup_after x xs

  all-dedup-sort : (xs : List ℕ) → all p (dedup (sort xs)) ≡ all p xs
  all-dedup-sort xs = all-dedup (sort xs) ∙ all-sort xs

any-not-all : (p : ℕ → Bool) (xs : List ℕ) → any p xs ≡ not (all (λ x. not (p x)) xs)
any-not-all p [] = refl
any-not-all p (x ∷ xs) = ground (arith, any-not-all p xs)

any-dedup-sort : (p : ℕ → Bool) (xs : List ℕ) → any p (dedup (sort xs)) ≡ any p xs
any-dedup-sort p xs =
    any-not-all p (dedup (sort xs))
    ∙ ap not (all-dedup-sort (λ x. not (p x)) xs)
    ∙ sym (any-not-all p xs)

is_https-all : (ports : List ℕ) → is_https ports ≡ true → all (λ p. p == 443) ports ≡ true
is_https-all [] h = refl
is_https-all (port ∷ []) h = ground arith
is_https-all (port ∷ other ∷ ports) h = absurd (ground arith)

module _ {Cidr : Type 0} (net : Network Cidr) where
  -- The part of a destination that a rule repeats: a rule on a host is of a TLS destination on that
  -- host, which allows port 443 and no other, and a rule on addresses is of a TCP destination on that
  -- block, which allows its port.
  abbrev pub IsSource : Destination Cidr → Rule Cidr → Type 0
  IsSource d (host_rule pattern_text port) =
      (d.protocol ≡ tls)
      × (d.cidr ≡ none)
      × ((host : List ℕ) × (d.host ≡ some host)
          × (normalize_host_pattern net.idna host ≡ ok pattern_text))
      × (port ≡ 443)
      × (all (λ p. p == 443) d.ports ≡ true)
  IsSource d (cidr_rule cidr port) =
      (d.protocol ≡ tcp)
      × (d.host ≡ none)
      × (d.cidr ≡ some cidr)
      × (any (λ p. p == port) d.ports ≡ true)
      × (port ≢ 0)

  abbrev pub HasSource : List (Destination Cidr) → Rule Cidr → Type 0
  HasSource [] rule = ⊥
  HasSource (d ∷ ds) rule = IsSource d rule ⊎ HasSource ds rule

  cidr_rules :
      (d : Destination Cidr) (cidr : Cidr) (ports : List ℕ)
      → d.protocol ≡ tcp
      → d.host ≡ none
      → d.cidr ≡ some cidr
      → any (λ p. p == 0) ports ≡ false
      → ((port : ℕ) → any (λ p. p == port) ports ≡ true → any (λ p. p == port) d.ports ≡ true)
      → All (IsSource d) (map (cidr_rule cidr) ports)
  cidr_rules d cidr [] e f g z within = tt
  cidr_rules d cidr (port ∷ ports) e f g z within = (
    (
      e,
      f,
      g,
      within port (ground (arith, ==_iff port port)),
      λ zero_port. ground (arith, zero_port),
    ),
    cidr_rules d cidr ports e f g (ground arith) (λ q h. within q (ground (arith, h))),
  )

  match_destination-IsSource :
      (d : Destination Cidr) (host : Option (List ℕ)) (cidr : Option Cidr) (protocol : Protocol)
      (rules : List (Rule Cidr))
      → d.host ≡ host
      → d.cidr ≡ cidr
      → d.protocol ≡ protocol
      → any (λ p. p == 0) (dedup (sort d.ports)) ≡ false
      → match_destination net host cidr protocol (dedup (sort d.ports)) ≡ ok rules
      → All (IsSource d) rules
  unfolding match_destination
  match_destination-IsSource d (some host) none tls rules eh ec ep z h =
      elim (Bool-cases (is_https (dedup (sort d.ports)))) [
        | inr refused ↦ absurd (ground arith)
        | inl https ↦ elim (Result-cases (normalize_host_pattern net.idna host)) [
          | inl (text, p) ↦
              let made : rules ≡ host_rule text 443 ∷ [] = ground arith in
              let only =
                sym (all-dedup-sort (λ p. p == 443) d.ports)
                ∙ is_https-all (dedup (sort d.ports)) https in
              subst (All (IsSource d)) (sym made) ((ep, ec, (host, eh, p), refl, only), tt)
          | inr (e, p) ↦ absurd (ground arith)
        ]
      ]
  match_destination-IsSource d none (some cidr) tcp rules eh ec ep z h =
      let made : rules ≡ map (cidr_rule cidr) (dedup (sort d.ports)) = ground arith in
      subst (All (IsSource d)) (sym made) (
        cidr_rules d cidr (dedup (sort d.ports)) ep eh ec z
          (λ port held. sym (any-dedup-sort (λ p. p == port) d.ports) ∙ held))
  match_destination-IsSource d (some host) none tcp rules eh ec ep z h = absurd (ground arith)
  match_destination-IsSource d (some host) (some cidr) tls rules eh ec ep z h =
      absurd (ground arith)
  match_destination-IsSource d (some host) (some cidr) tcp rules eh ec ep z h =
      absurd (ground arith)
  match_destination-IsSource d none (some cidr) tls rules eh ec ep z h = absurd (ground arith)
  match_destination-IsSource d none none tls rules eh ec ep z h = absurd (ground arith)
  match_destination-IsSource d none none tcp rules eh ec ep z h = absurd (ground arith)

  validate_destination-IsSource :
      (d : Destination Cidr) (rules : List (Rule Cidr))
      → validate_destination net d ≡ ok rules
      → All (IsSource d) rules
  unfolding validate_destination
  validate_destination-IsSource d rules h =
      match_destination-IsSource d d.host d.cidr d.protocol rules refl refl refl (ground arith)
        (ground arith)

  -- The rules of two lists of destinations.
  sources-append :
      (d : Destination Cidr) (ds : List (Destination Cidr)) (xs ys : List (Rule Cidr))
      → All (IsSource d) xs
      → All (HasSource ds) ys
      → All (HasSource (d ∷ ds)) (xs ++ ys)
  sources-append d ds [] [] h k = tt
  sources-append d ds [] (y ∷ ys) h k = (inr k.0, sources-append d ds [] ys tt k.1)
  sources-append d ds (x ∷ xs) ys h k = (inl h.0, sources-append d ds xs ys h.1 k)

  -- Validation admits nothing that a destination of the capability does not state: every rule on a
  -- host comes from a TLS destination without an address block, whose host normalises to the rule's
  -- pattern and whose ports are all 443, and is for that port; every rule on addresses comes from a
  -- TCP destination without a host, has its block and one of its ports, and the port is not 0.
  pub validate_policy-HasSource :
      (destinations : List (Destination Cidr)) (rules : List (Rule Cidr))
      → validate_policy net destinations ≡ ok rules
      → All (HasSource destinations) rules
  unfolding validate_policy
  validate_policy-HasSource [] rules h =
      let made : rules ≡ [] = ground arith in subst (All (HasSource [])) (sym made) tt
  validate_policy-HasSource (d ∷ ds) rules h = elim (Result-cases (validate_destination net d)) [
    | inr (e, p) ↦ absurd (ground arith)
    | inl (first, p) ↦ elim (Result-cases (validate_policy net ds)) [
      | inr (e, q) ↦ absurd (ground arith)
      | inl (rest, q) ↦
          let made : rules ≡ first ++ rest = ground arith in
          subst (All (HasSource (d ∷ ds))) (sym made) (
            sources-append d ds first rest (validate_destination-IsSource d first p)
              (validate_policy-HasSource ds rest q))
    ]
  ]
