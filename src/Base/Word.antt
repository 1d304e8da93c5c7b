-- ===== src/Base/Word.antt =====
-- 64-bit unsigned arithmetic: `u64`, and `usize` on the 64-bit targets that the program runs on.
use Prim.Native.Nat.{ℕ, ◌+◌, ◌-◌, ◌^◌}
use mathlib.Core.Option.{Option, none, some}
use hands.Base.Tests.{ltb, leb, if◌then◌else◌}

abbrev pub word_mod : ℕ
word_mod = 2 ^ 64

-- `checked_add`.
unfoldable pub checked_add : ℕ → ℕ → Option ℕ
checked_add a b = if ltb (a + b) word_mod then some (a + b) else none

-- `checked_sub`.
unfoldable pub checked_sub : ℕ → ℕ → Option ℕ
checked_sub a b = if leb b a then some (a - b) else none

-- `saturating_add`.
unfoldable pub saturating_add : ℕ → ℕ → ℕ
saturating_add a b = if ltb (a + b) word_mod then a + b else word_mod - 1

-- `saturating_sub`: subtraction on ℕ stops at 0 too.
abbrev pub saturating_sub : ℕ → ℕ → ℕ
saturating_sub a b = a - b

-- `clamp`.
unfoldable pub clamp : ℕ → ℕ → ℕ → ℕ
clamp x lo hi = if ltb x lo then lo else if ltb hi x then hi else x
