-- ===== src/Bytes.antt =====
-- Go strings as lists of bytes, with what the program uses of the package `strings`.
mod Trim
unfoldable pub use Trim.{trim_space}
pub use Trim.{IsTrimmed, trim_space-IsTrimmed, All-trim_space, All-blank}
use mathlib.Core.Option
use Prim.Native.Char.{code}
use Prim.Native.String.{String}
use go_adcore.Common.{
  ℕ, zero, suc, Option, none, some, ◌-◌, ◌+◌, ◌≡◌, ◌↔◌, Bool, true, false, ◌&&◌, ◌||◌, List, [],
  ◌∷◌, ◌++◌, arith, ◌==◌,
}

abbrev pub Bytes : Type 0
Bytes = List ℕ

-- The bytes of an ASCII literal.
abbrev pub codes : String → Bytes
codes String.[] = []
codes (String.◌∷◌ c s) = code c ∷ codes s

-- `==` on strings
unfoldable pub equal : Bytes → Bytes → Bool
equal [] [] = true
equal (x ∷ xs) (y ∷ ys) = x == y && equal xs ys
equal _ _ = false

pub equal_iff : (s t : Bytes) → (equal s t ≡ true) ↔ (s ≡ t)
unfolding equal
equal_iff [] [] = ground arith
equal_iff [] (d ∷ t) = ground arith
equal_iff (c ∷ s) [] = ground arith
equal_iff (c ∷ s) (d ∷ t) = ground (arith, equal_iff s t)

-- `strings.IndexByte(s, c) >= 0`
unfoldable pub contains_byte : Bytes → ℕ → Bool
contains_byte [] c = false
contains_byte (x ∷ xs) c = x == c || contains_byte xs c

-- `strings.Join(parts, sep)`
unfoldable pub join : Bytes → List Bytes → Bytes
join sep [] = []
join sep (p ∷ []) = p
join sep (p ∷ q ∷ rest) = p ++ (sep ++ join sep (q ∷ rest))

-- `b[i] = v`; none where Go panics
unfoldable pub set? : Bytes → ℕ → ℕ → Option Bytes
set? [] i v = none
set? (x ∷ xs) zero v = some (v ∷ xs)
set? (x ∷ xs) (suc i) v = Option.map (◌∷◌ x) (set? xs i v)

-- `b[i]`; none where Go panics
unfoldable pub get_elem? : Bytes → ℕ → Option ℕ
get_elem? [] i = none
get_elem? (x ∷ xs) zero = some x
get_elem? (x ∷ xs) (suc i) = get_elem? xs i
