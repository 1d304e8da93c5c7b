-- ===== src/Guest/LogFile.antt =====
-- The append-only files of crates/hand-guest/src/file_effects.rs and crates/hand-guest/src/acks.rs:
-- the replies of the file system, a write over what stands in the file, and the lines of a file
-- whose last append may be torn.
use hands.Base.{
  ℕ, ◌+◌, ◌-◌, min, ◌≡◌, refl, ap, Bool, true, false, not, Option, none, some, List, [], ◌∷◌, ◌++◌,
  ◌==◌, length, take, drop, all, arith, if◌then◌else◌,
}

-- The reply of `write_all`: all was written, or it failed behind a number of bytes.
pub data WriteReply : Type 0 where
  written : WriteReply
  torn : ℕ → WriteReply

-- The replies of the file system to one method: whether the sync of `writer`, the seek, the
-- `set_len` after a torn write and the last sync succeed.
pub record Io : Type 0 where
  pub sync_first : Bool
  pub seek : Bool
  pub write : WriteReply
  pub set_len : Bool
  pub sync_last : Bool

-- A file system that carries out every call.
abbrev pub sound : Io
sound = record { sync_first = true; seek = true; write = written; set_len = true; sync_last = true }

-- What a write that failed left: a part of the bytes, never all of them.
abbrev pub torn_part : ℕ → List ℕ → List ℕ
torn_part n encoded = take (min n (length encoded - 1)) encoded

-- A write at a position, over what stands there.
abbrev pub overwrite : ℕ → List ℕ → List ℕ → List ℕ
overwrite start encoded content =
    take start content ++ encoded ++ drop (start + length encoded) content

-- `rposition` of the newline, plus one, or 0 where there is none. Where the last byte is a newline
-- this is the whole length, and it is 0 for no bytes, so it is both branches of the source.
unfoldable pub valid_len : List ℕ → ℕ
valid_len [] = 0
valid_len (b ∷ bytes) =
    let rest = valid_len bytes in if rest == 0 then (if b == b'\n' then 1 else 0) else 1 + rest

-- A byte in front of the first line.
abbrev pub push : ℕ → List (List ℕ) → List (List ℕ)
push b [] = (b ∷ []) ∷ []
push b (line ∷ lines) = (b ∷ line) ∷ lines

-- `split` at the newlines.
unfoldable pub split : List ℕ → List (List ℕ)
split [] = [] ∷ []
split (b ∷ bytes) = let lines = split bytes in if b == b'\n' then [] ∷ lines else push b lines

-- `Option::is_some`.
abbrev pub is_some : {A : Type 0} → Option A → Bool
is_some none = false
is_some (some _) = true

abbrev pub is_newline_free : List ℕ → Bool
is_newline_free = all λ b. not (b == b'\n')

pub split-line :
    (line rest : List ℕ)
    → is_newline_free line ≡ true
    → split (line ++ b'\n' ∷ rest) ≡ line ∷ split rest
unfolding split
split-line [] rest h = refl
split-line (b ∷ line) rest h = ground (arith, split-line line rest)

pub valid_len-line :
    (line rest : List ℕ) → valid_len (line ++ b'\n' ∷ rest) ≡ length line + (1 + valid_len rest)
unfolding valid_len
valid_len-line [] rest = ground arith
valid_len-line (b ∷ line) rest = ground (arith, valid_len-line line rest)

pub valid_len-tail : (tail : List ℕ) → is_newline_free tail ≡ true → valid_len tail ≡ 0
unfolding valid_len
valid_len-tail [] h = refl
valid_len-tail (b ∷ tail) h = ground (arith, valid_len-tail tail)

pub take-length : (xs ys : List ℕ) → take (length xs) (xs ++ ys) ≡ xs
take-length [] ys = refl
take-length (x ∷ xs) ys = ap (λ zs. x ∷ zs) (take-length xs ys)

pub append_line : (xs ys : List ℕ) (x : ℕ) → (xs ++ x ∷ []) ++ ys ≡ xs ++ x ∷ ys
append_line [] ys x = refl
append_line (w ∷ xs) ys x = ap (λ zs. w ∷ zs) (append_line xs ys x)

pub append_assoc : (xs ys zs : List ℕ) → (xs ++ ys) ++ zs ≡ xs ++ (ys ++ zs)
append_assoc [] ys zs = refl
append_assoc (x ∷ xs) ys zs = ap (λ ws. x ∷ ws) (append_assoc xs ys zs)
