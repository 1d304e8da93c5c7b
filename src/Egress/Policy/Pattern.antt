-- ===== src/Egress/Policy/Pattern.antt =====
-- crates/hand-egress-gateway/src/policy.rs: what a host pattern matches.
use hands.Base.{
  ℕ, ◌+◌, ◌-◌, ◌≤◌, ◌<◌, ◌≡◌, refl, sym, subst, ap, ◌≢◌, ◌↔◌, ◌∙◌, true, List, [], ◌∷◌, ◌++◌, zero,
  suc, length, length-append, take, drop, arith,
}
use hands.Egress.Policy.Host.{same_text, is_dot_at, strip_wildcard, host_matches}

same_text_iff : (xs ys : List ℕ) → (same_text xs ys ≡ true) ↔ (xs ≡ ys)
unfolding same_text
same_text_iff [] [] = ground arith
same_text_iff [] (y ∷ ys) = ground arith
same_text_iff (x ∷ xs) [] = ground arith
same_text_iff (x ∷ xs) (y ∷ ys) = ground (arith, same_text_iff xs ys)

drop-length : (xs ys : List ℕ) → drop (length xs) (xs ++ ys) ≡ ys
drop-length [] ys = refl
drop-length (x ∷ xs) ys = drop-length xs ys

take-drop : (n : ℕ) (xs : List ℕ) → take n xs ++ drop n xs ≡ xs
take-drop zero xs = refl
take-drop (suc n) [] = refl
take-drop (suc n) (x ∷ xs) = ap (λ ys. x ∷ ys) (take-drop n xs)

length-take : (n : ℕ) (xs : List ℕ) → n ≤ length xs → length (take n xs) ≡ n
length-take zero xs h = refl
length-take (suc n) [] h = absurd (ground arith)
length-take (suc n) (x ∷ xs) h = ground (arith, length-take n xs)

dot-at : (n : ℕ) (xs : List ℕ) → is_dot_at n xs ≡ true → drop n xs ≡ b'.' ∷ drop (suc n) xs
dot-at zero [] h = absurd (ground arith)
dot-at zero (x ∷ xs) h = ground arith
dot-at (suc n) [] h = absurd (ground arith)
dot-at (suc n) (x ∷ xs) h = dot-at n xs h

dot-at-length : (xs ys : List ℕ) → is_dot_at (length xs) (xs ++ b'.' ∷ ys) ≡ true
dot-at-length [] ys = refl
dot-at-length (x ∷ xs) ys = dot-at-length xs ys

append_dot : (xs ys : List ℕ) → (xs ++ b'.' ∷ []) ++ ys ≡ xs ++ b'.' ∷ ys
append_dot [] ys = refl
append_dot (x ∷ xs) ys = ap (λ zs. x ∷ zs) (append_dot xs ys)

wildcard_sound :
    (suffix host : List ℕ)
    → host_matches (b'*' ∷ b'.' ∷ suffix) host ≡ true
    → (label : List ℕ) × (label ≢ []) × (host ≡ label ++ b'.' ∷ suffix)
unfolding host_matches strip_wildcard
wildcard_sound suffix host h =
    let n = length host - length suffix - 1 in
    let dot = dot-at n host (ground arith) in
    let longer : length suffix + 1 < length host = ground arith in
    let same : drop (length host - length suffix) host ≡ suffix =
      (same_text_iff (drop (length host - length suffix) host) suffix).0 (ground arith) in
    let next : suc n ≡ length host - length suffix = omega arith in
    (
      take n host,
      (λ empty. ground (arith, length-take n host)),
      sym (take-drop n host)
          ∙ ap (λ rest. take n host ++ rest) dot
          ∙ ap (λ k. take n host ++ b'.' ∷ drop k host) next
          ∙ ap (λ rest. take n host ++ b'.' ∷ rest) same,
    )

length-nonempty : (xs : List ℕ) → xs ≢ [] → 0 < length xs
length-nonempty [] h = absurd (h refl)
length-nonempty (x ∷ xs) h = ground arith

wildcard_complete :
    (suffix label : List ℕ)
    → label ≢ []
    → host_matches (b'*' ∷ b'.' ∷ suffix) (label ++ b'.' ∷ suffix) ≡ true
unfolding host_matches strip_wildcard
wildcard_complete suffix label h =
    let host = label ++ b'.' ∷ suffix in
    let sized : length (label ++ b'.' ∷ suffix) ≡ length label + suc (length suffix) =
      length-append label (b'.' ∷ suffix) in
    let start : length (label ++ b'.' ∷ suffix) - length suffix ≡ length (label ++ b'.' ∷ []) =
      omega (arith, length-append label (b'.' ∷ [])) in
    let before : length (label ++ b'.' ∷ suffix) - length suffix - 1 ≡ length label = omega arith in
    let rest : drop (length host - length suffix) host ≡ suffix =
      ap (λ k. drop k host) start
      ∙ ap (λ text. drop (length (label ++ b'.' ∷ [])) text) (sym (append_dot label suffix))
      ∙ drop-length (label ++ b'.' ∷ []) suffix in
    let same = (same_text_iff (drop (length host - length suffix) host) suffix).1 rest in
    let dot : is_dot_at (length host - length suffix - 1) host ≡ true =
      ap (λ k. is_dot_at k host) before ∙ dot-at-length label suffix in
    ground (arith, length-nonempty label h)

-- A wildcard pattern matches exactly the hosts that put a non-empty prefix and a dot in front of its
-- suffix: neither the bare suffix nor a name that merely ends in it.
pub wildcard_matches :
    (suffix host : List ℕ)
    → (host_matches (b'*' ∷ b'.' ∷ suffix) host ≡ true)
      ↔ ((label : List ℕ) × (label ≢ []) × (host ≡ label ++ b'.' ∷ suffix))
wildcard_matches suffix host = (
  wildcard_sound suffix host,
  λ (label, nonempty, eq).
      subst (λ text. host_matches (b'*' ∷ b'.' ∷ suffix) text ≡ true) (sym eq)
        (wildcard_complete suffix label nonempty),
)
