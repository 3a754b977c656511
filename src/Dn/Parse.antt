-- ===== src/Dn/Parse.antt =====
-- `ParseDN` of dn.go: the loop over the bytes with its local variables as a record, a step for
-- each byte, and what follows the loop. An error value keeps what its message depends on.
use go_adcore.Common.{
  ℕ, ◌+◌, ◌-◌, ◌*◌, Bool, true, false, not, ◌&&◌, ◌||◌, List, [], ◌∷◌, ◌++◌, Option, none, some,
  ◌==◌, leb, ltb, if◌then◌else◌, is_nil, length, take, Result, ok, err, ◌>>=◌,
}
use go_adcore.Bytes.{Bytes, codes, contains_byte, trim_space}
use go_adcore.Dn.{AttributeTypeAndValue, RelativeDn, Dn}

pub data ParseError : Type 0 where
  no_equals : Bytes → ParseError
  empty_type : ParseError
  bad_hex_escape : Bytes → ParseError
  incomplete_hex_escape : ParseError
  not_escapable : ℕ → ParseError
  ber_value : ParseError
  dangling_escape : ParseError

unfoldable pub is_hex_digit : ℕ → Bool
is_hex_digit c =
    (leb b'0' c && leb c b'9') || (leb b'a' c && leb c b'f') || (leb b'A' c && leb c b'F')

abbrev pub escapable_chars : Bytes
escapable_chars = codes "\\\"+,;<>= #"

-- One digit of `strconv.ParseUint(_, 16, 8)`
unfoldable pub hex_digit_value : ℕ → Option ℕ
hex_digit_value c =
    if leb b'0' c && leb c b'9'
    then some (c - b'0')
    else if leb b'a' c && leb c b'f'
    then some (c - b'a' + 10)
    else if leb b'A' c && leb c b'F'
    then some (c - b'A' + 10)
    else none

-- `strconv.ParseUint(s, 16, 8)` with `n` read so far: none on a bad digit and out of range
unfoldable pub parse_uint_16 : ℕ → Bytes → Option ℕ
unfolding hex_digit_value
parse_uint_16 n [] = if ltb n 256 then some n else none
parse_uint_16 n (c ∷ cs) = elim (hex_digit_value c) [
  | none ↦ none
  | some d ↦ parse_uint_16 (n * 16 + d) cs
]

-- The variables of the loop; `rdns` is `dn.RDNs` and `attributes` is `rdn.Attributes`.
pub record Parser : Type 0 where
  pub rdns : List RelativeDn
  pub attributes : List AttributeTypeAndValue
  pub type_buf : Bytes
  pub val_buf : Bytes
  pub hex_buf : Bytes
  pub has_eq : Bool
  pub escaping : Bool
  pub leading : Bool
  pub trail_ws : ℕ

abbrev pub initial : Parser
initial = record {
  rdns = [];
  attributes = [];
  type_buf = [];
  val_buf = [];
  hex_buf = [];
  has_eq = false;
  escaping = false;
  leading = false;
  trail_ws = 0;
}

-- the closure `appendVal`
unfoldable pub append_val : Parser → ℕ → Bool → Parser
append_val p b escaped = record p {
  val_buf = p.val_buf ++ b ∷ [];
  trail_ws = if b == b' ' && not escaped then p.trail_ws + 1 else 0;
}

-- the closure `endAttr`
unfoldable pub end_attr : Parser → Result ParseError Parser
end_attr p =
    if not p.has_eq
    then err (no_equals p.type_buf)
    else if is_nil (trim_space p.type_buf)
    then err empty_type
    else ok (record p {
      attributes =
          p.attributes
          ++ record {
            kind = trim_space p.type_buf;
            value = take (length p.val_buf - p.trail_ws) p.val_buf;
          }
            ∷ [];
      type_buf = [];
      val_buf = [];
      has_eq = false;
      trail_ws = 0;
    })

-- the closure `endRDN`
unfoldable pub end_rdn : Parser → Result ParseError Parser
unfolding end_attr
end_rdn p = do
  q ← end_attr p
  ok (record q { rdns = q.rdns ++ record { attributes = q.attributes } ∷ []; attributes = [] })

-- the second hex digit of a pair is in
close_hex : Parser → Bytes → Result ParseError Parser
close_hex p buf = elim (parse_uint_16 0 buf) [
  | none ↦ err (bad_hex_escape buf)
  | some b ↦ ok (record (append_val p b true) { hex_buf = []; escaping = false; leading = false })
]

-- `case escaping`
step_escaping : Parser → ℕ → Result ParseError Parser
unfolding close_hex
step_escaping p c =
    if is_hex_digit c
    then (if length (p.hex_buf ++ c ∷ []) == 2
        then close_hex p (p.hex_buf ++ c ∷ [])
        else ok (record p { hex_buf = p.hex_buf ++ c ∷ [] }))
    else if length p.hex_buf == 1
    then err incomplete_hex_escape
    else if not (contains_byte escapable_chars c)
    then err (not_escapable c)
    else ok (record (append_val p c true) { escaping = false; leading = false })

-- the `switch` of the loop
unfoldable pub step : Parser → ℕ → Result ParseError Parser
unfolding step_escaping append_val
step p c =
    if p.escaping
    then step_escaping p c
    else if not p.has_eq
    then (if c == b'='
        then ok (record p { has_eq = true; leading = true })
        else ok (record p { type_buf = p.type_buf ++ c ∷ [] }))
    else if c == b'\\'
    then ok (record p { escaping = true })
    else if c == b',' || c == b';'
    then (do q ← end_rdn p; ok (record q { leading = false }))
    else if c == b'+'
    then (do q ← end_attr p; ok (record q { leading = true }))
    else if c == b' ' && p.leading
    then ok p
    else if c == b'#' && is_nil p.val_buf
    then err ber_value
    else ok (record (append_val p c false) { leading = false })

-- after the loop
unfoldable pub finish : Parser → Result ParseError Dn
finish p =
    if p.escaping || not (is_nil p.hex_buf)
    then err dangling_escape
    else do q ← end_rdn p; ok (record { rdns = q.rdns })

-- the loop
unfoldable pub run : Parser → Bytes → Result ParseError Dn
run p [] = finish p
run p (c ∷ cs) = do q ← step p c; run q cs

-- `func ParseDN`
unfoldable pub parse_dn : Bytes → Result ParseError Dn
parse_dn str = if is_nil (trim_space str) then ok (record { rdns = [] }) else run initial str
