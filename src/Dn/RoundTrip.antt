-- ===== src/Dn/RoundTrip.antt =====
-- Parsing what `String` wrote.
use mathlib.Core.List.{append-nil, append_assoc}
use native.Mathlib.Nat.{sub-zero}
use go_adcore.Common.{
  ℕ, ◌+◌, ◌≡◌, ◌≢◌, refl, ap, ◌∙◌, Bool, true, false, not, ◌&&◌, ◌||◌, List, [], ◌∷◌, ◌++◌, arith,
  ◌==◌, if◌then◌else◌, is_nil, take-length, All, All-append_right, ok,
}
use go_adcore.Bytes.{Bytes, contains_byte, trim_space, IsTrimmed, All-blank}
use go_adcore.Dn.{AttributeTypeAndValue, RelativeDn, Dn}
use go_adcore.Dn.Parse.{
  Parser, initial, is_hex_digit, parse_uint_16, end_attr, end_rdn, step, finish, run, parse_dn,
}
use go_adcore.Dn.Render.{
  escape_byte, escape_from, escape_value, write_attributes, write_rdns, to_string,
}

-- What makes an attribute one that `ParseDN` can have returned.
pub record IsReadable (a : AttributeTypeAndValue) : Type 0 where
  pub no_equals : All (λ c. c ≢ b'=') a.kind
  pub trimmed : IsTrimmed a.kind
  pub not_empty : a.kind ≢ []

-- Every RDN has an attribute, and every attribute can be read back.
abbrev pub IsWellFormed : Dn → Type 0
IsWellFormed d = All (λ (r : RelativeDn). (r.attributes ≢ []) × All IsReadable r.attributes) d.rdns

-- The parser stands in a value, outside an escape; the flag says that nothing of it is read yet.
record InValue (first : Bool) (p : Parser) : Type 0 where
  has_eq : p.has_eq ≡ true
  escaping : p.escaping ≡ false
  hex_buf : p.hex_buf ≡ []
  leading : p.leading ≡ first
  val_buf : is_nil p.val_buf ≡ first

-- The state after one more byte of the value.
abbrev read_value : Bool → Bool → ℕ → Parser → Parser
read_value first last c p = record p {
  val_buf = p.val_buf ++ c ∷ [];
  leading = false;
  trail_ws = if c == b' ' && not (first || last) then p.trail_ws + 1 else 0;
}

run-escape_byte :
    (p : Parser) (first last : Bool) (c : ℕ) (rest : Bytes)
    → InValue first p
    → run p (escape_byte first last c ++ rest) ≡ run (read_value first last c p) rest
unfolding run step escape_byte contains_byte is_hex_digit parse_uint_16
run-escape_byte p first last c rest h = ground arith

is_nil-concat : (xs : Bytes) (c : ℕ) → is_nil (xs ++ c ∷ []) ≡ false
is_nil-concat [] c = refl
is_nil-concat (x ∷ xs) c = refl

read_value-InValue :
    (p : Parser) (first last : Bool) (c : ℕ)
    → InValue first p
    → InValue false (read_value first last c p)
read_value-InValue p first last c h = record {
  has_eq = h.has_eq;
  escaping = h.escaping;
  hex_buf = h.hex_buf;
  leading = refl;
  val_buf = is_nil-concat p.val_buf c;
}

-- The state after a value that is not empty.
abbrev after_value : Parser → Bytes → Parser
after_value p v = record p { val_buf = p.val_buf ++ v; leading = false; trail_ws = 0 }

run-escape_from :
    (c : ℕ) (cs : Bytes) (first : Bool) (p : Parser) (rest : Bytes)
    → InValue first p
    → run p (escape_from first (c ∷ cs) ++ rest) ≡ run (after_value p (c ∷ cs)) rest
unfolding escape_from
run-escape_from c [] first p rest h =
    rw append-nil (run-escape_byte p first true c rest h ∙ ground arith)
run-escape_from c (d ∷ ds) first p rest h = rw append_assoc (
    run-escape_byte p first false c _ h
    ∙ run-escape_from d ds false _ rest (read_value-InValue p first false c h)
    ∙ rw append_assoc)

-- The state in which a value starts, with `type_buf` read.
abbrev at_value : List RelativeDn → List AttributeTypeAndValue → Bytes → Parser
at_value rdns attributes t = record {
  rdns = rdns;
  attributes = attributes;
  type_buf = t;
  val_buf = [];
  hex_buf = [];
  has_eq = true;
  escaping = false;
  leading = true;
  trail_ws = 0;
}

is_nil_of_ne {ℓ} : {A : Type ℓ} (xs : List A) → xs ≢ [] → is_nil xs ≡ false
is_nil_of_ne [] h = absurd (h refl)
is_nil_of_ne (x ∷ xs) h = refl

-- The state in which a type starts; `leading` is left over from what went before.
abbrev at_type : List RelativeDn → List AttributeTypeAndValue → Bool → Parser
at_type rdns attributes leading = record {
  rdns = rdns;
  attributes = attributes;
  type_buf = [];
  val_buf = [];
  hex_buf = [];
  has_eq = false;
  escaping = false;
  leading = leading;
  trail_ws = 0;
}

pub run_type_byte :
    (p : Parser) (c : ℕ) (rest : Bytes)
    → c ≢ b'='
    → p.has_eq ≡ false
    → p.escaping ≡ false
    → run p (c ∷ rest) ≡ run (record p { type_buf = p.type_buf ++ c ∷ [] }) rest
unfolding run step
run_type_byte p c rest ne e1 e2 = ground arith

run_type :
    (t : Bytes) (p : Parser) (rest : Bytes)
    → All (λ c. c ≢ b'=') t
    → p.has_eq ≡ false
    → p.escaping ≡ false
    → run p (t ++ (b'=' ∷ rest))
      ≡ run (record p { type_buf = p.type_buf ++ t; has_eq = true; leading = true }) rest
run_type [] p rest free e1 e2 = rw append-nil (unfold run step in ground arith)
run_type (c ∷ cs) p rest free e1 e2 =
    run_type_byte p c _ free.0 e1 e2
    ∙ run_type cs (record p { type_buf = p.type_buf ++ c ∷ [] }) rest free.1 e1 e2
    ∙ rw append_assoc

-- The state in which an attribute is read and not yet ended.
abbrev after_attribute :
    List RelativeDn → List AttributeTypeAndValue → AttributeTypeAndValue → Parser
after_attribute rdns attributes a = record (at_value rdns attributes a.kind) {
  val_buf = a.value;
  leading = is_nil a.value;
}

run_value :
    (rdns : List RelativeDn) (attributes : List AttributeTypeAndValue) (t v rest : Bytes)
    → run (at_value rdns attributes t) (escape_value v ++ rest)
      ≡ run (after_attribute rdns attributes (record { kind = t; value = v })) rest
unfolding escape_value
run_value rdns attributes t [] rest = refl
run_value rdns attributes t (c ∷ cs) rest =
    run-escape_from c cs true (at_value rdns attributes t) rest
      (record { has_eq = refl; escaping = refl; hex_buf = refl; leading = refl; val_buf = refl })

run_attribute :
    (rdns : List RelativeDn) (attributes : List AttributeTypeAndValue) (leading : Bool)
    (a : AttributeTypeAndValue) (rest : Bytes)
    → IsReadable a
    → run (at_type rdns attributes leading) (a.kind ++ (b'=' ∷ (escape_value a.value ++ rest)))
      ≡ run (after_attribute rdns attributes a) rest
run_attribute rdns attributes leading a rest h =
    run_type a.kind (at_type rdns attributes leading) _ h.no_equals refl refl
    ∙ run_value rdns attributes a.kind a.value rest

end_attr_lem :
    (rdns : List RelativeDn) (attributes : List AttributeTypeAndValue) (a : AttributeTypeAndValue)
    → IsReadable a
    → end_attr (after_attribute rdns attributes a)
      ≡ ok (at_type rdns (attributes ++ a ∷ []) (is_nil a.value))
unfolding end_attr
end_attr_lem rdns attributes a h =
    rw (h.trimmed, is_nil_of_ne a.kind h.not_empty, sub-zero, take-length)

run_plus :
    (rdns : List RelativeDn) (attributes : List AttributeTypeAndValue) (a : AttributeTypeAndValue)
    (rest : Bytes)
    → IsReadable a
    → run (after_attribute rdns attributes a) (b'+' ∷ rest)
      ≡ run (at_type rdns (attributes ++ a ∷ []) true) rest
unfolding run step
run_plus rdns attributes a rest h = rw (end_attr_lem rdns attributes a h)

run_comma :
    (rdns : List RelativeDn) (attributes : List AttributeTypeAndValue) (a : AttributeTypeAndValue)
    (rest : Bytes)
    → IsReadable a
    → run (after_attribute rdns attributes a) (b',' ∷ rest)
      ≡ run (at_type (rdns ++ record { attributes = attributes ++ a ∷ [] } ∷ []) [] false) rest
unfolding run step end_rdn
run_comma rdns attributes a rest h = rw (end_attr_lem rdns attributes a h)

run_end :
    (rdns : List RelativeDn) (attributes : List AttributeTypeAndValue) (a : AttributeTypeAndValue)
    → IsReadable a
    → run (after_attribute rdns attributes a) []
      ≡ ok (record { rdns = rdns ++ record { attributes = attributes ++ a ∷ [] } ∷ [] })
unfolding run finish end_rdn
run_end rdns attributes a h = rw (end_attr_lem rdns attributes a h)

-- Some attribute is the last one, and the parser stands behind it.
run-write_attributes :
    (rdns : List RelativeDn) (done : List AttributeTypeAndValue) (leading : Bool)
    (a : AttributeTypeAndValue) (more : List AttributeTypeAndValue) (rest : Bytes)
    → All IsReadable (a ∷ more)
    → (init : List AttributeTypeAndValue) × (last : AttributeTypeAndValue) × IsReadable last
      × (init ++ last ∷ [] ≡ done ++ a ∷ more)
      × (run (at_type rdns done leading) (write_attributes true (a ∷ more) ++ rest)
          ≡ run (after_attribute rdns init last) rest)
unfolding write_attributes
run-write_attributes rdns done leading a [] rest h = (
  done,
  a,
  h.0,
  refl,
  simp (append-nil, append_assoc) (run_attribute rdns done leading a rest h.0),
)
run-write_attributes rdns done leading a (b ∷ bs) rest h =
    let (init, last, ok_last, split, e) =
      run-write_attributes rdns (done ++ a ∷ []) true b bs rest h.1 in
    (
      init,
      last,
      ok_last,
      split ∙ append_assoc done (a ∷ []) (b ∷ bs),
      simp append_assoc (
          run_attribute rdns done leading a _ h.0
          ∙ run_plus rdns done a _ h.0
          ∙ (simp append_assoc at e)),
    )

-- One RDN with the separator behind it, and one at the end.
pub run_rdn :
    (rdns : List RelativeDn) (leading : Bool) (l : List AttributeTypeAndValue) (rest : Bytes)
    → l ≢ []
    → All IsReadable l
    → run (at_type rdns [] leading) (write_attributes true l ++ (b',' ∷ rest))
      ≡ run (at_type (rdns ++ record { attributes = l } ∷ []) [] false) rest
run_rdn rdns leading [] rest ne h = absurd (ne refl)
run_rdn rdns leading (a ∷ more) rest ne h =
    let (init, last, ok_last, s, read) =
      run-write_attributes rdns [] leading a more (b',' ∷ rest) h in
    read
    ∙ run_comma rdns init last rest ok_last
    ∙ ap (λ l. run (at_type (rdns ++ record { attributes = l } ∷ []) [] false) rest) s

run_last_rdn :
    (rdns : List RelativeDn) (leading : Bool) (l : List AttributeTypeAndValue)
    → l ≢ []
    → All IsReadable l
    → run (at_type rdns [] leading) (write_attributes true l)
      ≡ ok (record { rdns = rdns ++ record { attributes = l } ∷ [] })
run_last_rdn rdns leading [] ne h = absurd (ne refl)
run_last_rdn rdns leading (a ∷ more) ne h =
    let (init, last, ok_last, s, read) = run-write_attributes rdns [] leading a more [] h in
    (rw append-nil at read)
    ∙ run_end rdns init last ok_last
    ∙ ap (λ l. ok (record { rdns = rdns ++ record { attributes = l } ∷ [] })) s

run-write_rdns :
    (rdns : List RelativeDn) (leading : Bool) (r : RelativeDn) (more : List RelativeDn)
    → IsWellFormed (record { rdns = r ∷ more })
    → run (at_type rdns [] leading) (write_rdns true (r ∷ more))
      ≡ ok (record { rdns = rdns ++ r ∷ more })
unfolding write_rdns
run-write_rdns rdns leading r [] h =
    rw append-nil (run_last_rdn rdns leading r.attributes h.0.0 h.0.1)
run-write_rdns rdns leading r (q ∷ more) h =
    run_rdn rdns leading r.attributes _ h.0.0 h.0.1
    ∙ run-write_rdns (rdns ++ r ∷ []) false q more h.1
    ∙ rw append_assoc

-- Something with a '=' in it is not blank.
pub parse_dn_of_equals : (str s t : Bytes) → str ≡ s ++ (b'=' ∷ t) → parse_dn str ≡ run initial str
unfolding parse_dn
parse_dn_of_equals str s t e = rw (
    is_nil_of_ne (trim_space str)
      (λ k. (All-append_right _ s (b'=' ∷ t) (rw e at (All-blank str k))).0 refl))

parse_dn-write_rdns :
    (l : List AttributeTypeAndValue) (more : List RelativeDn)
    → l ≢ []
    → parse_dn (write_rdns true (record { attributes = l } ∷ more))
      ≡ run initial (write_rdns true (record { attributes = l } ∷ more))
unfolding write_rdns write_attributes
parse_dn-write_rdns [] more ne = absurd (ne refl)
parse_dn-write_rdns (a ∷ l) more ne = parse_dn_of_equals _ a.kind _ (append_assoc a.kind _ _)

-- `ParseDN` reads back what `String` wrote, for every DN that can be written.
pub parse_dn-to_string : (d : Dn) → IsWellFormed d → parse_dn (to_string d) ≡ ok d
unfolding to_string
parse_dn-to_string d h = go d.rdns h
  where
    go :
        (l : List RelativeDn)
        → IsWellFormed (record { rdns = l })
        → parse_dn (write_rdns true l) ≡ ok (record { rdns = l })
    go [] h = unfold parse_dn trim_space write_rdns in refl
    go (r ∷ more) h = parse_dn-write_rdns r.attributes more h.0.0 ∙ run-write_rdns [] false r more h
