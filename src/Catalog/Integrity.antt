-- ===== src/Catalog/Integrity.antt =====
-- What `Validate` of schema/catalog.go checks, as a condition on the catalog.
use mathlib.Core.Path.{subst}
use go_adcore.Common.{
  ◌≡◌, ◌↔◌, refl, sym, ap, ◌∙◌, Bool, true, false, not, ◌||◌, List, [], ◌∷◌, ◌++◌, Option, none,
  some, is_nil, ok, Option-cases, Bool-cases, inl, inr, arith,
}
use go_adcore.Bytes.{Bytes, equal, equal_iff}
use go_adcore.Maps.{keys, lookup, has_key, equal_same, lookup-has_key}
use go_adcore.Acl.{sort_strings, insert_sorted}
use go_adcore.Catalog.{
  Attribute, Class, Catalog, Problem, unknown_attribute, missing_via, stray_via, report, verdict,
  class_names, is_named, is_known, via_of, attribute_problems, via_problems, class_problems,
  all_problems, validate,
}

-- A class is sound: the catalog has every attribute that the class names and says by which class it
-- comes in, and no attribute that is not named has such an entry.
pub record IsSound (attributes : List (Bytes × Attribute)) (cl : Class) : Type 0 where
  pub known :
      (attr : Bytes)
      → is_named (cl.mandatory ++ cl.optional) attr ≡ true
      → (is_known attributes attr ≡ true) × (is_nil (via_of cl.via attr) ≡ false)
  pub named :
      (attr : Bytes)
      → has_key (keys cl.via) attr ≡ true
      → is_named (cl.mandatory ++ cl.optional) attr ≡ true

append-eq-nil {ℓ} : {A : Type ℓ} (l m : List A) → (l ++ m ≡ []) ↔ ((l ≡ []) × (m ≡ []))
append-eq-nil [] m = (λ h. (refl, h), λ h. h.1)
append-eq-nil (x ∷ l) m = (λ h. cc, λ h. cc)

has_key-insert_sorted :
    (x : Bytes) (l : List Bytes) (k : Bytes)
    → has_key (insert_sorted x l) k ≡ (equal x k || has_key l k)
unfolding insert_sorted has_key
has_key-insert_sorted x [] k = refl
has_key-insert_sorted x (y ∷ l) k = ground (arith, has_key-insert_sorted x l k)

has_key-sort_strings : (l : List Bytes) (k : Bytes) → has_key (sort_strings l) k ≡ has_key l k
unfolding sort_strings has_key
has_key-sort_strings [] k = refl
has_key-sort_strings (x ∷ l) k =
    has_key-insert_sorted x (sort_strings l) k ∙ ap (λ b. equal x k || b) (has_key-sort_strings l k)

or_true : (b : Bool) → (b || true) ≡ true
or_true true = refl
or_true false = refl

nothing_reported : (b : Bool) (p : Problem) → report b p ≡ [] → b ≡ false
nothing_reported true p h = cc
nothing_reported false p h = refl

not-eq-false : (b : Bool) → not b ≡ false → b ≡ true
not-eq-false true h = refl
not-eq-false false h = cc

verdict-eq-ok : (l : List Problem) → verdict l ≡ ok tt → l ≡ []
verdict-eq-ok [] h = refl
verdict-eq-ok (p ∷ l) h = cc

attribute_problems_iff :
    (attributes : List (Bytes × Attribute)) (name : Bytes) (via : List (Bytes × Bytes))
    (group : List Bytes)
    → (attribute_problems attributes name via group ≡ []) ↔ (
        (attr : Bytes)
        → is_named group attr ≡ true
        → (is_known attributes attr ≡ true) × (is_nil (via_of via attr) ≡ false))
unfolding attribute_problems is_named
attribute_problems_iff attributes name via [] = (λ h attr e. cc, λ h. refl)
attribute_problems_iff attributes name via (a ∷ group) = (
  (λ h attr e.
      let missing = report (is_nil (via_of via a)) (missing_via name a) in
      let later = attribute_problems attributes name via group in
      let (first, rest) =
        (append-eq-nil (report (not (is_known attributes a)) (unknown_attribute name a))
            (missing ++ later)).0
          h in
      let (second, others) = (append-eq-nil missing later).0 rest in
      elim (Bool-cases (equal a attr)) [
        | inl is ↦
            subst (λ x. (is_known attributes x ≡ true) × (is_nil (via_of via x) ≡ false))
              ((equal_iff a attr).0 is)
              (
                not-eq-false (is_known attributes a) (
                    nothing_reported (not (is_known attributes a)) (unknown_attribute name a)
                      first),
                nothing_reported (is_nil (via_of via a)) (missing_via name a) second,
              )
        | inr is ↦
            (attribute_problems_iff attributes name via group).0 others attr (ground (arith, is, e))
      ]),
  (λ h.
      let (known, via_there) = h a (rw (equal_same a) refl) in
      rw (known, via_there)
        ((attribute_problems_iff attributes name via group).1
          (λ attr e. h attr (rw e (or_true (equal a attr)))))),
)

via_problems_iff :
    (name : Bytes) (named rest : List Bytes)
    → (via_problems name named rest ≡ [])
      ↔ ((attr : Bytes) → has_key rest attr ≡ true → is_named named attr ≡ true)
unfolding via_problems has_key
via_problems_iff name named [] = (λ h attr e. cc, λ h. refl)
via_problems_iff name named (a ∷ rest) = (
  (λ h attr e.
      let (first, others) =
        (append-eq-nil (report (not (is_named named a)) (stray_via name a))
            (via_problems name named rest)).0
          h in
      elim (Bool-cases (equal a attr)) [
        | inl is ↦
            subst (λ x. is_named named x ≡ true) ((equal_iff a attr).0 is)
              (not-eq-false (is_named named a)
                (nothing_reported (not (is_named named a)) (stray_via name a) first))
        | inr is ↦ (via_problems_iff name named rest).0 others attr (ground (arith, is, e))
      ]),
  (λ h.
      rw (h a (rw (equal_same a) refl))
        ((via_problems_iff name named rest).1 (λ attr e. h attr (rw e (or_true (equal a attr)))))),
)

class_problems_iff :
    (attributes : List (Bytes × Attribute)) (name : Bytes) (cl : Class)
    → (class_problems attributes name cl ≡ []) ↔ IsSound attributes cl
unfolding class_problems
class_problems_iff attributes name cl =
    let all = cl.mandatory ++ cl.optional in
    let sorted = λ (attr : Bytes). has_key-sort_strings (keys cl.via) attr in
    (
      λ h.
          let (first, second) =
            (append-eq-nil (attribute_problems attributes name cl.via all)
                (via_problems name all (sort_strings (keys cl.via)))).0
              h in
          record {
            known = (attribute_problems_iff attributes name cl.via all).0 first;
            named = λ attr e.
                (via_problems_iff name all (sort_strings (keys cl.via))).0 second attr
                  (sorted attr ∙ e);
          },
      λ s. (append-eq-nil _ _).1 (
        (attribute_problems_iff attributes name cl.via all).1 s.known,
        (via_problems_iff name all (sort_strings (keys cl.via))).1
            (λ attr e. s.named attr (sym (sorted attr) ∙ e)),
      ),
    )

-- what the loop reports of the class that it looks up
abbrev problems_of : Catalog → Bytes → Option Class → List Problem
problems_of c name found = elim found [ none ↦ [] | some cl ↦ class_problems c.attributes name cl ]

-- A list of classes, those of the catalog, is free of problems.
all_problems_iff :
    (c : Catalog) (names : List Bytes)
    → (all_problems c names ≡ []) ↔ (
        (name : Bytes) (cl : Class)
        → has_key names name ≡ true
        → lookup c.classes name ≡ some cl
        → IsSound c.attributes cl)
unfolding all_problems has_key
all_problems_iff c [] = (λ h name cl e. cc, λ h. refl)
all_problems_iff c (n ∷ names) = (
  (λ h name cl e at.
      let (first, others) =
        (append-eq-nil (problems_of c n (lookup c.classes n)) (all_problems c names)).0 h in
      elim (Bool-cases (equal n name)) [
        | inl is ↦
            let here : lookup c.classes n ≡ some cl =
              ap (lookup c.classes) ((equal_iff n name).0 is) ∙ at in
            (class_problems_iff c.attributes n cl).0 (sym (ap (problems_of c n) here) ∙ first)
        | inr is ↦ (all_problems_iff c names).0 others name cl (ground (arith, is, e)) at
      ]),
  (λ h. (append-eq-nil _ _).1 (
    (elim (Option-cases (lookup c.classes n)) [
      | inl e ↦ ap (problems_of c n) e
      | inr (cl, e) ↦
          ap (problems_of c n) e
          ∙ (class_problems_iff c.attributes n cl).1 (h n cl (rw (equal_same n) refl) e)
    ]),
    (all_problems_iff c names).1 (λ name cl e. h name cl (rw e (or_true (equal n name)))),
  )),
)

-- `Validate` accepts a catalog exactly if each of its classes is sound: the catalog has every attribute
-- that the class names and says by which class it comes in, and no attribute that is not named has
-- such an entry.
pub validate_iff :
    (c : Catalog)
    → (validate c ≡ ok tt)
      ↔ ((name : Bytes) (cl : Class) → lookup c.classes name ≡ some cl → IsSound c.attributes cl)
unfolding validate class_names
validate_iff c = (
  (λ h name cl at.
      (all_problems_iff c (class_names c)).0 (verdict-eq-ok (all_problems c (class_names c)) h) name
        cl (has_key-sort_strings (keys c.classes) name ∙ lookup-has_key c.classes name cl at) at),
  (λ h. rw ((all_problems_iff c (class_names c)).1 (λ name cl e at. h name cl at)) refl),
)
