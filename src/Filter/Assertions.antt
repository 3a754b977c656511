-- ===== src/Filter/Assertions.antt =====
-- What a filter built by `Equal` and `And` means to a reader of RFC 4515: the value is the one
-- given, and the parentheses are those of the filter.
use mathlib.Core.Option
use mathlib.Core.List.{append_assoc}
use go_adcore.Common.{
  ℕ, zero, suc, ◌+◌, ◌-◌, ◌*◌, ◌/◌, ◌%◌, ◌≤◌, ◌<◌, ◌≡◌, ◌≢◌, refl, ap, ◌∙◌, true, false, List, [],
  ◌∷◌, ◌++◌, Option, none, some, ◌==◌, ltb, if◌then◌else◌, All, All-append, arith, Bool-cases, inl,
  inr,
}
use go_adcore.Bytes.{Bytes, codes}
use go_adcore.Dn.Parse.{hex_digit_value}
use go_adcore.Filter.{must_escape, escape_filter, equal_filter, append_terms, and_filter}
use go_adcore.Filter.Escaping.{escape_byte, escape_all, escape_filter-escape_all}

-- Where a reader of an assertion value stands: outside an escape, or in it with one digit read.
pub data Reading : Type 0 where
  plain backslash : Reading
  digit : ℕ → Reading

-- The value that an assertion value of RFC 4515 stands for; none if it is malformed.
unfoldable pub unescape : Reading → Bytes → Option Bytes
unescape plain [] = some []
unescape plain (c ∷ cs) = elim (c == b'\\') [
  | true ↦ unescape backslash cs
  | false ↦ Option.map (◌∷◌ c) (unescape plain cs)
]
unescape backslash [] = none
unescape backslash (c ∷ cs) = elim (hex_digit_value c) [
  | none ↦ none
  | some h ↦ unescape (digit h) cs
]
unescape (digit h) [] = none
unescape (digit h) (c ∷ cs) = elim (hex_digit_value c) [
  | none ↦ none
  | some l ↦ Option.map (◌∷◌ (h * 16 + l)) (unescape plain cs)
]

abbrev hex_digit : ℕ → ℕ
hex_digit n = if ltb n 10 then b'0' + n else b'a' + (n - 10)

hex_digit_value-hex_digit : (n : ℕ) → n < 16 → hex_digit_value (hex_digit n) ≡ some n
unfolding hex_digit_value
hex_digit_value-hex_digit n h = ground arith

unescape_pair :
    (a b h l : ℕ) (rest : Bytes)
    → hex_digit_value a ≡ some h
    → hex_digit_value b ≡ some l
    → unescape plain (b'\\' ∷ a ∷ b ∷ rest) ≡ Option.map (◌∷◌ (h * 16 + l)) (unescape plain rest)
unfolding unescape
unescape_pair a b h l rest e f = ground arith

unescape_plain :
    (c : ℕ) (rest : Bytes)
    → c ≢ b'\\'
    → unescape plain (c ∷ rest) ≡ Option.map (◌∷◌ c) (unescape plain rest)
unfolding unescape
unescape_plain c rest ne = ground arith

unescape-escape_byte :
    (c : ℕ) (rest : Bytes)
    → c < 256
    → unescape plain (escape_byte c ++ rest) ≡ Option.map (◌∷◌ c) (unescape plain rest)
unfolding escape_byte
unescape-escape_byte c rest small = elim (Bool-cases (must_escape c)) [
  | inl e ↦
      let value : c / 16 * 16 + c % 16 ≡ c = omega arith in
      rw e (
        unescape_pair _ _ (c / 16) (c % 16) rest (hex_digit_value-hex_digit (c / 16) (omega arith))
          (hex_digit_value-hex_digit (c % 16) (omega arith))
        ∙ ap (λ d. Option.map (◌∷◌ d) (unescape plain rest)) value)
  | inr e ↦ rw e (unescape_plain c rest (unfold must_escape in ground arith))
]

unescape-escape_all : (s : Bytes) → All (λ c. c < 256) s → unescape plain (escape_all s) ≡ some s
unfolding escape_all
unescape-escape_all [] small = unfold unescape in refl
unescape-escape_all (c ∷ cs) small =
    unescape-escape_byte c (escape_all cs) small.0 ∙ rw (unescape-escape_all cs small.1)

-- A byte that is neither a delimiter of a filter nor outside printable ASCII by RFC 4515.
abbrev pub IsSafe : ℕ → Type 0
IsSafe c = (c ≢ b'(') × (c ≢ b')') × (c ≢ b'*') × (c ≢ 0) × (c ≤ 0x7f)

escape_byte-IsSafe : (c : ℕ) → c < 256 → All IsSafe (escape_byte c)
unfolding escape_byte must_escape
escape_byte-IsSafe c small = ground arith

escape_all-IsSafe : (s : Bytes) → All (λ c. c < 256) s → All IsSafe (escape_all s)
unfolding escape_all
escape_all-IsSafe [] small = tt
escape_all-IsSafe (c ∷ cs) small =
    All-append IsSafe (escape_byte c) (escape_all cs) (escape_byte-IsSafe c small.0)
      (escape_all-IsSafe cs small.1)

-- `EscapeFilter` succeeds; what it returns stands for the value, and has no delimiter of a filter,
-- no NUL and no byte above 0x7f in it.
pub escape_filter_lem :
    (s : Bytes)
    → All (λ c. c < 256) s
    → (out : Bytes) × (escape_filter s ≡ some out) × (unescape plain out ≡ some s) × All IsSafe out
escape_filter_lem s small = (
  escape_all s,
  escape_filter-escape_all s small,
  unescape-escape_all s small,
  escape_all-IsSafe s small,
)

-- The depth of parentheses after one byte; none where one closes that was not opened.
next_depth : ℕ → ℕ → Option ℕ
next_depth zero c = if c == b')' then none else if c == b'(' then some 1 else some 0
next_depth (suc k) c =
    if c == b')' then some k else if c == b'(' then some (suc (suc k)) else some (suc k)

-- The depth behind a text that starts at depth `k`.
unfoldable pub depth : ℕ → Bytes → Option ℕ
unfolding next_depth
depth k [] = some k
depth k (c ∷ cs) = elim (next_depth k c) [ none ↦ none | some k' ↦ depth k' cs ]

-- Each parenthesis of the text is closed in it, at every depth and whatever follows.
pub record IsBalanced (s : Bytes) : Type 0 where
  pub at_depth : (k : ℕ) (rest : Bytes) → depth k (s ++ rest) ≡ depth k rest

abbrev pub NoParens : Bytes → Type 0
NoParens = All (λ c. (c ≢ b'(') × (c ≢ b')'))

depth_byte : (k c : ℕ) (rest : Bytes) → c ≢ b'(' → c ≢ b')' → depth k (c ∷ rest) ≡ depth k rest
unfolding depth
depth_byte zero c rest n m = ground arith
depth_byte (suc k) c rest n m = ground arith

depth_open : (k : ℕ) (rest : Bytes) → depth k (b'(' ∷ rest) ≡ depth (suc k) rest
unfolding depth
depth_open zero rest = refl
depth_open (suc k) rest = refl

depth_close : (k : ℕ) (rest : Bytes) → depth (suc k) (b')' ∷ rest) ≡ depth k rest
unfolding depth
depth_close k rest = refl

depth-NoParens :
    (s : Bytes) (k : ℕ) (rest : Bytes) → NoParens s → depth k (s ++ rest) ≡ depth k rest
depth-NoParens [] k rest h = refl
depth-NoParens (c ∷ s) k rest h =
    depth_byte k c (s ++ rest) h.0.0 h.0.1 ∙ depth-NoParens s k rest h.1

IsSafe→NoParens : (s : Bytes) → All IsSafe s → NoParens s
IsSafe→NoParens [] h = tt
IsSafe→NoParens (c ∷ s) h = ((h.0.0, h.0.1), IsSafe→NoParens s h.1)

-- `Equal` succeeds, and with an attribute name that has no parenthesis its filter is balanced:
-- no value opens or closes a part of the filter.
pub equal_filter-IsBalanced :
    (attr value : Bytes)
    → NoParens attr
    → All (λ c. c < 256) value
    → (out : Bytes) × (equal_filter attr value ≡ some out) × IsBalanced out
unfolding equal_filter
equal_filter-IsBalanced attr value plain_name small =
    let (escaped, e, same, safe) = escape_filter_lem value small in
    (
      b'(' ∷ (attr ++ (b'=' ∷ (escaped ++ (b')' ∷ [])))),
      rw e,
      record {
        at_depth = λ k rest. simp append_assoc (
            depth_open k _
            ∙ depth-NoParens attr (suc k) _ plain_name
            ∙ depth_byte (suc k) b'=' _ (omega arith) (omega arith)
            ∙ depth-NoParens escaped (suc k) _ (IsSafe→NoParens escaped safe)
            ∙ depth_close k rest);
      },
    )

depth-append_terms :
    (terms : List Bytes) (out : Bytes) (k j : ℕ) (rest : Bytes)
    → ((r : Bytes) → depth k (out ++ r) ≡ depth j r)
    → All IsBalanced terms
    → depth k (append_terms out terms ++ rest) ≡ depth j rest
unfolding append_terms
depth-append_terms [] out k j rest h b = h rest
depth-append_terms (t ∷ terms) out k j rest h b =
    depth-append_terms terms (out ++ t) k j rest
      (λ r. rw append_assoc (h (t ++ r) ∙ b.0.at_depth j r)) b.1

-- The conjunction of balanced filters is balanced.
pub and_filter-IsBalanced :
    (terms : List Bytes) → All IsBalanced terms → IsBalanced (and_filter terms)
unfolding and_filter
and_filter-IsBalanced [] b = record { at_depth = λ k rest. refl }
and_filter-IsBalanced (t ∷ []) b = b.0
and_filter-IsBalanced (s ∷ t ∷ terms) b = record {
  at_depth = λ k rest. rw append_assoc (
      depth-append_terms (s ∷ t ∷ terms) (codes "(&") k (suc k) (b')' ∷ rest)
        (λ r. depth_open k _ ∙ depth_byte (suc k) b'&' r (omega arith) (omega arith)) b
      ∙ depth_close k rest);
}
