-- ===== src/Policy/Identity.antt =====
-- crates/hand-policy/src/identity.rs: the identifier, digest and token grammars.
use hands.Base.{
  ℕ, String, Bool, false, not, ◌&&◌, ◌||◌, List, [], ◌∷◌, ltb, leb, ◌==◌, all, any, if◌then◌else◌,
}
use hands.Base.Result.{Result, ok, err}
use hands.Base.Text.{
  codes, byte_len, is_ascii, is_ascii_digit, is_ascii_alphanumeric, is_whitespace,
}

pub record IdentityError : Type 0 where
  pub field : String

abbrev pub identifier_char : ℕ → Bool
identifier_char ch =
    is_ascii_alphanumeric ch || ch == b'.' || ch == b'_' || ch == b':' || ch == b'-'

-- The grammar over `chars()`; the tests stand in the order of the source.
unfoldable pub check_identifier : List ℕ → Bool
check_identifier [] = false
check_identifier (first ∷ chars) = not (
    ltb 128 (byte_len (first ∷ chars))
    || not (is_ascii (first ∷ chars))
    || not (is_ascii_alphanumeric first)
    || any (λ ch. not (identifier_char ch)) chars)

unfoldable pub validate_identifier : String → String → Result IdentityError (Unit {0})
validate_identifier value field =
    if check_identifier (codes value) then ok tt else err (record { field = field })

abbrev pub digest_byte : ℕ → Bool
digest_byte byte = is_ascii_digit byte || (leb b'a' byte && leb byte b'f')

-- A text that passes is ASCII, so its code points are its bytes; one that is not ASCII holds a
-- code point, and a byte, that fails.
unfoldable pub check_hex : ℕ → List ℕ → Bool
check_hex bytes value = byte_len value == bytes && all digest_byte value

unfoldable pub validate_digest : String → String → Result IdentityError (Unit {0})
unfolding check_hex
validate_digest value field =
    if check_hex 64 (codes value) then ok tt else err (record { field = field })

unfoldable pub check_bounded_token : List ℕ → ℕ → Bool
check_bounded_token value max = not (
    byte_len value == 0
    || ltb max (byte_len value)
    || not (is_ascii value)
    || any is_whitespace value)

unfoldable pub validate_bounded_token : String → String → ℕ → Result IdentityError (Unit {0})
validate_bounded_token value field max =
    if check_bounded_token (codes value) max then ok tt else err (record { field = field })
