-- ===== src/Dn/Render.antt =====
-- `escapeValue` and `DN.String` of dn.go.
use go_adcore.Common.{
  ℕ, Bool, true, false, ◌&&◌, ◌||◌, List, [], ◌∷◌, ◌++◌, ◌==◌, if◌then◌else◌, is_nil,
}
use go_adcore.Bytes.{Bytes, codes, contains_byte}
use go_adcore.Dn.{AttributeTypeAndValue, RelativeDn, Dn}

-- what the loop of `escapeValue` writes for one byte; the flags are `i == 0` and `i == len(v)-1`
unfoldable pub escape_byte : Bool → Bool → ℕ → Bytes
escape_byte first last c =
    if c == 0
    then codes "\\00"
    else if contains_byte (codes ",+\"\\<>;=") c
    then b'\\' ∷ c ∷ []
    else if c == b' ' && (first || last)
    then b'\\' ∷ b' ' ∷ []
    else if c == b'#' && first
    then b'\\' ∷ b'#' ∷ []
    else c ∷ []

unfoldable pub escape_from : Bool → Bytes → Bytes
escape_from first [] = []
escape_from first (c ∷ cs) = escape_byte first (is_nil cs) c ++ escape_from false cs

-- `func escapeValue` and `func EscapeValue`
unfoldable pub escape_value : Bytes → Bytes
unfolding escape_from
escape_value = escape_from true

-- the inner loop of `String`; the flag is `j == 0`
unfoldable pub write_attributes : Bool → List AttributeTypeAndValue → Bytes
write_attributes first [] = []
write_attributes first (a ∷ rest) =
    (if first then [] else b'+' ∷ [])
    ++ (a.kind ++ (b'=' ∷ (escape_value a.value ++ write_attributes false rest)))

-- the outer loop; the flag is `i == 0`
unfoldable pub write_rdns : Bool → List RelativeDn → Bytes
write_rdns first [] = []
write_rdns first (r ∷ rest) =
    (if first then [] else b',' ∷ [])
    ++ (write_attributes true r.attributes ++ write_rdns false rest)

-- `func (d *DN) String`
unfoldable pub to_string : Dn → Bytes
unfolding write_rdns write_attributes escape_value escape_byte contains_byte
to_string d = write_rdns true d.rdns
