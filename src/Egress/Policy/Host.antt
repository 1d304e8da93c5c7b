-- ===== src/Egress/Policy/Host.antt =====
-- crates/hand-egress-gateway/src/policy.rs: host names and their patterns. A text is its code
-- points; a normalized host is ASCII, where these are its bytes.
use hands.Base.{
  ℕ, ◌+◌, ◌-◌, Bool, true, false, not, ◌&&◌, ◌||◌, Option, none, some, List, [], ◌∷◌, map, ltb, leb,
  ◌==◌, length, any, drop, if◌then◌else◌,
}
use hands.Base.Result.{Result, ok, refuse_if, ok_or, ◌>>=◌, ◌>>◌}
use hands.Base.Text.{byte_len, is_whitespace}

pub data PolicyError : Type 0 where
  malformed_policy malformed_target ipv6_unsupported permanent_deny denied resolution_failed :
      PolicyError

-- `idna::domain_to_ascii_strict`; `none` is a name that it refuses.
abbrev pub Idna : Type 0
Idna = List ℕ → Option (List ℕ)

-- `[u8] ==`.
unfoldable pub same_text : List ℕ → List ℕ → Bool
same_text [] [] = true
same_text (x ∷ xs) (y ∷ ys) = x == y && same_text xs ys
same_text _ _ = false

abbrev pub starts_with_dot : List ℕ → Bool
starts_with_dot [] = false
starts_with_dot (c ∷ _) = c == b'.'

abbrev pub ends_with_dot : List ℕ → Bool
ends_with_dot [] = false
ends_with_dot (c ∷ []) = c == b'.'
ends_with_dot (c ∷ d ∷ cs) = ends_with_dot (d ∷ cs)

-- `to_ascii_lowercase`.
abbrev pub lower : ℕ → ℕ
lower c = if leb b'A' c && leb c b'Z' then c + 32 else c

-- `split('.')` and the test on each label; `label` is the length of the label so far.
abbrev pub has_bad_label : ℕ → List ℕ → Bool
has_bad_label label [] = label == 0 || ltb 63 label
has_bad_label label (c ∷ cs) = elim (c == b'.') [
  | true ↦ label == 0 || ltb 63 label || has_bad_label 0 cs
  | false ↦ has_bad_label (label + 1) cs
]

-- `trim_end_matches('.')`.
abbrev pub keep_unless_dot : ℕ → List ℕ → List ℕ
keep_unless_dot c [] = if c == b'.' then [] else c ∷ []
keep_unless_dot c (d ∷ ds) = c ∷ d ∷ ds

abbrev pub trim_end_dots : List ℕ → List ℕ
trim_end_dots [] = []
trim_end_dots (c ∷ cs) = keep_unless_dot c (trim_end_dots cs)

-- `strip_prefix("*.")`.
unfoldable pub strip_wildcard : List ℕ → Option (List ℕ)
strip_wildcard [] = none
strip_wildcard (_ ∷ []) = none
strip_wildcard (c ∷ d ∷ suffix) = if c == b'*' && d == b'.' then some suffix else none

-- `ends_with`, behind the test that the text is longer.
abbrev pub ends_with : List ℕ → List ℕ → Bool
ends_with text suffix = same_text (drop (length text - length suffix) text) suffix

-- The byte at a position is a dot.
abbrev pub is_dot_at : ℕ → List ℕ → Bool
is_dot_at n text = starts_with_dot (drop n text)

unfoldable pub host_matches : List ℕ → List ℕ → Bool
host_matches pattern_text host = elim (strip_wildcard pattern_text) [
  | some suffix ↦
      ltb (length suffix + 1) (length host)
      && ends_with host suffix
      && is_dot_at (length host - length suffix - 1) host
  | none ↦ same_text pattern_text host
]

module _ (to_ascii : Idna) where
  unfoldable pub normalize_host : List ℕ → Result PolicyError (List ℕ)
  normalize_host value = do
    refuse_if
        (length value == 0
          || ltb 253 (byte_len value)
          || starts_with_dot value
          || ends_with_dot value
          || any (λ c. c == b'*') value
          || any is_whitespace value)
        malformed_target
    encoded ← ok_or (to_ascii value) malformed_target
    let ascii = map lower encoded
    refuse_if (length ascii == 0 || has_bad_label 0 ascii) malformed_target
    ok ascii

  unfoldable pub normalize_dns_name : List ℕ → Result PolicyError (List ℕ)
  normalize_dns_name value = normalize_host (trim_end_dots value)

  unfoldable pub normalize_host_pattern : List ℕ → Result PolicyError (List ℕ)
  normalize_host_pattern value = elim (strip_wildcard value) [
    | some suffix ↦ do
      normal ← normalize_host suffix
      refuse_if (not (any (λ c. c == b'.') normal)) malformed_policy
      ok (b'*' ∷ b'.' ∷ normal)
    | none ↦ normalize_host value
  ]
