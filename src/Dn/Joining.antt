-- ===== src/Dn/Joining.antt =====
-- A DN assembled from an escaped name and a container, as every `Create` does it, and the
-- conveniences on strings.
use mathlib.Core.List.{append-nil, append_assoc}
use mathlib.Core.Path.{subst}
use go_adcore.Common.{
  ℕ, ◌≡◌, ◌≢◌, refl, sym, ap, ◌∙◌, true, false, List, [], ◌∷◌, ◌++◌, is_nil, map, All, Result, ok,
  err, ◌>>=◌, bind-eq-ok, Result-cases, Option-cases, arith, inl, inr, Bool-cases,
}
use go_adcore.Bytes.{Bytes, join, trim_space, All-blank}
use go_adcore.Dn.{RelativeDn, Dn}
use go_adcore.Dn.Parse.{
  ParseError, no_equals, Parser, initial, end_attr, end_rdn, step, finish, run, parse_dn,
}
use go_adcore.Dn.Render.{escape_value, write_attributes, write_rdns, to_string}
use go_adcore.Dn.RoundTrip.{
  IsReadable, IsWellFormed, run_rdn, parse_dn_of_equals, parse_dn-to_string, run_type_byte,
}
use go_adcore.Dn.Ancestors.{parent_split}
use go_adcore.Dn.Sound.{parse_dn-IsWellFormed}
use go_adcore.Dn.Strings.{parent, split_dn, container_of}

module _ (front : List RelativeDn) where
  -- The same loop with `front` in `dn.RDNs` before it starts.
  abbrev behind : Parser → Parser
  behind p = record p { rdns = front ++ p.rdns }

  abbrev behind_result : Result ParseError Parser → Result ParseError Parser
  behind_result (ok p) = ok (behind p)
  behind_result (err e) = err e

  abbrev behind_dn : Result ParseError Dn → Result ParseError Dn
  behind_dn (ok d) = ok (record { rdns = front ++ d.rdns })
  behind_dn (err e) = err e

  end_attr-behind : (p : Parser) → end_attr (behind p) ≡ behind_result (end_attr p)
  unfolding end_attr
  end_attr-behind p = ground arith

  end_rdn-behind : (p : Parser) → end_rdn (behind p) ≡ behind_result (end_rdn p)
  unfolding end_rdn
  end_rdn-behind p = rw (end_attr-behind p) (go (end_attr p))
    where
      after : Parser → Result ParseError Parser
      after q =
          ok (record q {
            rdns = q.rdns ++ record { attributes = q.attributes } ∷ [];
            attributes = [];
          })

      go :
          (r : Result ParseError Parser) → (behind_result r >>= after) ≡ behind_result (r >>= after)
      go (ok q) = rw append_assoc
      go (err e) = refl

  step-behind : (p : Parser) (c : ℕ) → step (behind p) c ≡ behind_result (step p c)
  unfolding step
  step-behind p c = ground (arith, end_attr-behind p, end_rdn-behind p)

  run-behind : (s : Bytes) (p : Parser) → run (behind p) s ≡ behind_dn (run p s)
  unfolding run
  run-behind [] p = unfold finish in ground (arith, end_rdn-behind p)
  run-behind (c ∷ cs) p = rw (step-behind p c) (go (step p c) (λ q. run-behind cs q))
    where
      go :
          (r : Result ParseError Parser)
          → ((q : Parser) → run (behind q) cs ≡ behind_dn (run q cs))
          → (behind_result r >>= λ q. run q cs) ≡ behind_dn (r >>= λ q. run q cs)
      go (ok q) ih = ih q
      go (err e) ih = refl

parse_dn_of_rdns : (s : Bytes) (d : Dn) → parse_dn s ≡ ok d → d.rdns ≢ [] → run initial s ≡ ok d
unfolding parse_dn
parse_dn_of_rdns s d h ne = elim (Bool-cases (is_nil (trim_space s))) [
  | inl blank ↦ let e = (rw blank at h) in absurd (ne (ground arith))
  | inr e ↦ rw e at h
]

-- An RDN with a name of any bytes, as text in front of a container.
abbrev pub joined : Bytes → Bytes → Bytes → Bytes
joined kind name container = kind ++ (b'=' ∷ (escape_value name ++ (b',' ∷ container)))

abbrev pub single : Bytes → Bytes → RelativeDn
single kind name = record { attributes = record { kind = kind; value = name } ∷ [] }

run-joined :
    (kind name container : Bytes)
    → IsReadable (record { kind = kind; value = name })
    → parse_dn (joined kind name container)
      ≡ behind_dn (single kind name ∷ []) (run initial container)
unfolding write_attributes
run-joined kind name container h =
    let first = run_rdn [] false (single kind name).attributes container (λ e. cc) (h, tt) in
    parse_dn_of_equals (joined kind name container) kind (escape_value name ++ (b',' ∷ container))
      refl
    ∙ (simp (append-nil, append_assoc) at first)
    ∙ run-behind (single kind name ∷ []) container initial

-- A name of any bytes, escaped and put with a readable type in front of a container that parses and
-- is not empty, is one RDN with that name, and the rest is the container: no name can place the
-- object elsewhere.
pub parse_dn-joined :
    (kind name container : Bytes) (d : Dn)
    → IsReadable (record { kind = kind; value = name })
    → parse_dn container ≡ ok d
    → d.rdns ≢ []
    → parse_dn (joined kind name container) ≡ ok (record { rdns = single kind name ∷ d.rdns })
parse_dn-joined kind name container d h e ne =
    run-joined kind name container h
    ∙ ap (behind_dn (single kind name ∷ [])) (parse_dn_of_rdns container d e ne)

run_no_equals :
    (s : Bytes) (p : Parser)
    → All (λ c. c ≢ b'=') s
    → p.has_eq ≡ false
    → p.escaping ≡ false
    → p.hex_buf ≡ []
    → run p s ≡ err (no_equals (p.type_buf ++ s))
run_no_equals [] p free e1 e2 e3 =
    rw append-nil (unfold run finish end_rdn end_attr in ground arith)
run_no_equals (c ∷ cs) p free e1 e2 e3 =
    run_type_byte p c cs free.0 e1 e2
    ∙ run_no_equals cs (record p { type_buf = p.type_buf ++ c ∷ [] }) free.1 e1 e2 e3
    ∙ rw append_assoc

-- A container of white space alone parses, as the empty DN, and no DN of a readable type joined to
-- it does.
pub blank_container :
    (kind name container : Bytes)
    → IsReadable (record { kind = kind; value = name })
    → trim_space container ≡ []
    → (parse_dn container ≡ ok (record { rdns = [] }))
      × (parse_dn (joined kind name container) ≡ err (no_equals container))
unfolding parse_dn
blank_container kind name container h e = (
  rw e,
  run-joined kind name container h
      ∙ ap (behind_dn (single kind name ∷ []))
          (run_no_equals container initial (All-blank container e) refl refl refl),
)

-- What `ContainerOf` returns is read back as the DN without its first RDN.
pub parse_dn-container_of :
    (s c : Bytes)
    → container_of s ≡ ok c
    → (r : RelativeDn) × (d : Dn) × (parse_dn s ≡ ok (record { rdns = r ∷ d.rdns }))
      × (parse_dn c ≡ ok d)
      × (d.rdns ≢ [])
unfolding container_of
parse_dn-container_of s c h = elim (Result-cases (parse_dn s)) [
  | inl (e, k) ↦ absurd (ground arith)
  | inr (parsed, k) ↦ elim (Option-cases (parent parsed)) [
    | inl n ↦ absurd (ground arith)
    | inr (p, n) ↦
        let (r, e, ne) = parent_split parsed.rdns p n in
        let w = (rw e at (parse_dn-IsWellFormed s parsed k)) in
        let out : to_string p ≡ c = ground arith in
        (r, p, k ∙ ap (λ l. ok (record { rdns = l })) e, rw (← out) (parse_dn-to_string p w.1), ne)
  ]
]

-- Each part is read back as the RDN that it stands for.
abbrev pub ReadBack : List Bytes → List RelativeDn → Type 0
ReadBack [] [] = Unit
ReadBack (s ∷ parts) (r ∷ rdns) = (parse_dn s ≡ ok (record { rdns = r ∷ [] })) × ReadBack parts rdns
ReadBack _ _ = ⊥

abbrev part : RelativeDn → Bytes
part r = to_string (record { rdns = r ∷ [] })

ReadBack-part : (l : List RelativeDn) → IsWellFormed (record { rdns = l }) → ReadBack (map part l) l
ReadBack-part [] h = tt
ReadBack-part (r ∷ l) h =
    (parse_dn-to_string (record { rdns = r ∷ [] }) (h.0, tt), ReadBack-part l h.1)

join-part : (l : List RelativeDn) → join (b',' ∷ []) (map part l) ≡ write_rdns true l
unfolding join to_string write_rdns
join-part [] = refl
join-part (r ∷ []) = refl
join-part (r ∷ q ∷ l) = rw append-nil (rw (join-part (q ∷ l)))

-- `SplitDN` gives one part for each RDN, each read back as that RDN, and the parts joined by
-- commas are the DN again.
pub split_dn_parts :
    (s : Bytes) (parts : List Bytes)
    → split_dn s ≡ ok parts
    → (d : Dn) × (parse_dn s ≡ ok d)
      × ReadBack parts d.rdns
      × (parse_dn (join (b',' ∷ []) parts) ≡ ok d)
unfolding split_dn
split_dn_parts s parts h =
    let (d, e, k) = bind-eq-ok (parse_dn s) (λ (d : Dn). ok (map part d.rdns)) h in
    let same : map part d.rdns ≡ parts = ground arith in
    let w = parse_dn-IsWellFormed s d e in
    (
      d,
      e,
      subst (λ l. ReadBack l d.rdns) same (ReadBack-part d.rdns w),
      ap (λ l. parse_dn (join (b',' ∷ []) l)) (sym same)
          ∙ ap parse_dn (join-part d.rdns)
          ∙ (unfold to_string in parse_dn-to_string d w),
    )
