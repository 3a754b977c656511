-- ===== src/Dn/Sound.antt =====
-- What `ParseDN` returns: well-formed names only, and no error but those that input can cause.
use go_adcore.Common.{
  ℕ, ◌+◌, ◌≤◌, ◌≡◌, ◌≢◌, sym, ◌∙◌, Bool, true, false, List, [], ◌∷◌, ◌++◌, arith, is_nil, length,
  length-append, All, All-concat, Result, ok, err, ◌>>=◌, inl, inr, Bool-cases,
}
use go_adcore.Bytes.{Bytes, trim_space, trim_space-IsTrimmed, All-trim_space}
use go_adcore.Dn.{RelativeDn, Dn}
use go_adcore.Dn.Parse.{
  ParseError, Parser, initial, append_val, end_attr, end_rdn, step, finish, run, parse_dn,
}
use go_adcore.Dn.RoundTrip.{IsReadable, IsWellFormed, parse_dn-to_string}
use go_adcore.Dn.Render.{to_string}

abbrev pub IsReadableRdn : RelativeDn → Type 0
IsReadableRdn r = (r.attributes ≢ []) × All IsReadable r.attributes

-- True at each turn of the loop.
pub record Inv (p : Parser) : Type 0 where
  pub rdns : All IsReadableRdn p.rdns
  pub attributes : All IsReadable p.attributes
  pub type_buf : All (λ c. c ≢ b'=') p.type_buf
  pub trail_ws : p.trail_ws ≤ length p.val_buf

abbrev pub InvResult : Result ParseError Parser → Type 0
InvResult (ok p) = Inv p
InvResult (err _) = Unit

length-concat : (xs : Bytes) (c : ℕ) → length (xs ++ c ∷ []) ≡ length xs + 1
length-concat xs c = length-append xs (c ∷ [])

is_nil→eq : (xs : Bytes) → is_nil xs ≡ false → xs ≢ []
is_nil→eq [] h e = cc
is_nil→eq (x ∷ xs) h e = cc

append_val-Inv : (p : Parser) (b : ℕ) (escaped : Bool) → Inv p → Inv (append_val p b escaped)
unfolding append_val
append_val-Inv p b escaped i = record {
  rdns = i.rdns;
  attributes = i.attributes;
  type_buf = i.type_buf;
  trail_ws = ground (arith, i.trail_ws, length-concat p.val_buf b);
}

IsReadable-of_end :
    (p : Parser) (v : Bytes)
    → Inv p
    → is_nil (trim_space p.type_buf) ≡ false
    → IsReadable (record { kind = trim_space p.type_buf; value = v })
IsReadable-of_end p v i h = record {
  no_equals = All-trim_space (λ c. c ≢ b'=') p.type_buf i.type_buf;
  trimmed = trim_space-IsTrimmed p.type_buf;
  not_empty = is_nil→eq _ h;
}

concat-ne-nil {ℓ} : {A : Type ℓ} (xs : List A) (x : A) → xs ++ x ∷ [] ≢ []
concat-ne-nil [] x e = cc
concat-ne-nil (y ∷ ys) x e = cc

abbrev EndResult : Result ParseError Parser → Type 0
EndResult (ok q) = Inv q × (q.attributes ≢ [])
EndResult (err _) = Unit

end_attr-Inv : (p : Parser) → Inv p → EndResult (end_attr p)
unfolding end_attr
end_attr-Inv p i = elim (Bool-cases p.has_eq) [
  | inl e ↦ elim (Bool-cases (is_nil (trim_space p.type_buf))) [
    | inl blank ↦ rw (e, blank) tt
    | inr kept ↦
        rw (e, kept)
          (
            record {
              rdns = i.rdns;
              attributes =
                  All-concat IsReadable p.attributes _ i.attributes (IsReadable-of_end p _ i kept);
              type_buf = tt;
              trail_ws = omega arith;
            },
            concat-ne-nil p.attributes _,
          )
  ]
  | inr e ↦ rw e tt
]

end_rdn-Inv : (p : Parser) → Inv p → InvResult (end_rdn p)
unfolding end_rdn
end_rdn-Inv p i = go (end_attr p) (end_attr-Inv p i)
  where
    go :
        (r : Result ParseError Parser)
        → EndResult r
        → InvResult (
            r >>= λ q. ok (record q {
              rdns = q.rdns ++ record { attributes = q.attributes } ∷ [];
              attributes = [];
            }))
    go (err e) h = tt
    go (ok q) (j, ne) = record {
      rdns = All-concat IsReadableRdn q.rdns _ j.rdns (ne, j.attributes);
      attributes = tt;
      type_buf = j.type_buf;
      trail_ws = j.trail_ws;
    }

pub step-Inv : (p : Parser) (c : ℕ) → Inv p → InvResult (step p c)
unfolding step
step-Inv p c i = ground (
  arith,
  i.rdns,
  i.attributes,
  i.type_buf,
  end_rdn-Inv p i,
  end_attr-Inv p i,
  append_val-Inv p c true i,
  append_val-Inv p c false i,
  All-concat (λ (x : ℕ). x ≢ b'=') p.type_buf c,
)

abbrev WellFormedResult : Result ParseError Dn → Type 0
WellFormedResult (ok d) = IsWellFormed d
WellFormedResult (err _) = Unit

finish-IsWellFormed : (p : Parser) → Inv p → WellFormedResult (finish p)
unfolding finish
finish-IsWellFormed p i = ground (arith, end_rdn-Inv p i)

run-IsWellFormed : (s : Bytes) (p : Parser) → Inv p → WellFormedResult (run p s)
unfolding run
run-IsWellFormed [] p i = finish-IsWellFormed p i
run-IsWellFormed (c ∷ cs) p i = go (step p c) (step-Inv p c i) (λ q j. run-IsWellFormed cs q j)
  where
    go :
        (r : Result ParseError Parser)
        → InvResult r
        → ((q : Parser) → Inv q → WellFormedResult (run q cs))
        → WellFormedResult (r >>= λ q. run q cs)
    go (ok q) j ih = ih q j
    go (err e) j ih = tt

pub initial-Inv : Inv initial
initial-Inv = record { rdns = tt; attributes = tt; type_buf = tt; trail_ws = omega arith }

parse_dn-WellFormedResult : (s : Bytes) → WellFormedResult (parse_dn s)
unfolding parse_dn
parse_dn-WellFormedResult s = elim (Bool-cases (is_nil (trim_space s))) [
  | inl e ↦ rw e tt
  | inr e ↦ rw e (run-IsWellFormed s initial initial-Inv)
]

-- Whatever `ParseDN` returns has an attribute in each RDN, and types that are not empty, have no
-- white space at either end and no '='.
pub parse_dn-IsWellFormed : (s : Bytes) (d : Dn) → parse_dn s ≡ ok d → IsWellFormed d
parse_dn-IsWellFormed s d h = rw h at (parse_dn-WellFormedResult s)

-- What was parsed, written and parsed again is the same DN: `String` gives a canonical form.
pub parse_dn-to_string-parse_dn :
    (s : Bytes) (d : Dn) → parse_dn s ≡ ok d → parse_dn (to_string d) ≡ parse_dn s
parse_dn-to_string-parse_dn s d h = parse_dn-to_string d (parse_dn-IsWellFormed s d h) ∙ sym h
