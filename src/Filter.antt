-- ===== src/Filter.antt =====
-- filter.go: LDAP assertion values and filters. A result of none is an index out of range, where
-- Go panics; the children prove that there is none.
pub mod Escaping
pub mod Assertions
use go_adcore.Common.{
  ℕ, zero, suc, ◌+◌, ◌*◌, ◌/◌, ◌%◌, Bool, ◌||◌, List, [], ◌∷◌, ◌++◌, Option, none, some, ◌==◌, ltb,
  if◌then◌else◌, length,
}
use go_adcore.Bytes.{Bytes, codes, set?, get_elem?}

infixl 5 ◌>>=◌
abbrev pub ◌>>=◌ : Option Bytes → (Bytes → Option Bytes) → Option Bytes
none >>= f = none
some b >>= f = f b

-- `func mustEscape`
unfoldable pub must_escape : ℕ → Bool
must_escape c = ltb 0x7f c || c == b'(' || c == b')' || c == b'\\' || c == b'*' || c == 0

abbrev pub hex_values : Bytes
hex_values = codes "0123456789abcdef"

-- the first loop of `EscapeFilter`
unfoldable pub count_escapes : Bytes → ℕ
count_escapes [] = 0
count_escapes (c ∷ cs) = (if must_escape c then 1 else 0) + count_escapes cs

-- `make([]byte, n)`
unfoldable pub zeros : ℕ → Bytes
zeros zero = []
zeros (suc n) = 0 ∷ zeros n

-- `buf[j] = v`, where `v` may have panicked
write : Bytes → ℕ → Option ℕ → Option Bytes
write buf j none = none
write buf j (some v) = set? buf j v

-- one round of the second loop
write_byte : ℕ → ℕ → Bytes → Option Bytes
write_byte c j buf =
    if must_escape c
    then (do
      one ← set? buf j b'\\'
      two ← write one (j + 1) (get_elem? hex_values (c / 16))
      write two (j + 2) (get_elem? hex_values (c % 16)))
    else set? buf j c

-- the second loop, with `i` at the head of the list
unfoldable pub fill : Bytes → ℕ → Bytes → Option Bytes
unfolding write_byte write
fill [] j buf = some buf
fill (c ∷ cs) j buf = do
  next ← write_byte c j buf
  fill cs (if must_escape c then j + 3 else j + 1) next

-- `func EscapeFilter`
unfoldable pub escape_filter : Bytes → Option Bytes
escape_filter filter =
    if count_escapes filter == 0
    then some filter
    else fill filter 0 (zeros (length filter + count_escapes filter * 2))

-- `func Equal`
unfoldable pub equal_filter : Bytes → Bytes → Option Bytes
equal_filter attr value = do
  escaped ← escape_filter value
  some (b'(' ∷ (attr ++ (b'=' ∷ (escaped ++ (b')' ∷ [])))))

unfoldable pub append_terms : Bytes → List Bytes → Bytes
append_terms out [] = out
append_terms out (t ∷ terms) = append_terms (out ++ t) terms

-- `func And`
unfoldable pub and_filter : List Bytes → Bytes
unfolding append_terms
and_filter [] = []
and_filter (t ∷ []) = t
and_filter (s ∷ t ∷ terms) = append_terms (codes "(&") (s ∷ t ∷ terms) ++ (b')' ∷ [])
