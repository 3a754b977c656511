-- ===== src/Errors/Text.antt =====
-- The stamp of `WithIdentity`, the sentinels under `errors.Is`, and the short type name.
use mathlib.Core.List.{append-nil, append_assoc}
use go_adcore.Common.{
  true, or_true, Option, ◌≡◌, ◌≢◌, refl, sym, ap, ◌∙◌, [], ◌∷◌, ◌++◌, ◌⊎◌, inl, inr, ◌==◌, arith,
  none, some, All, All-concat, ==_iff, Option-cases, Bool-cases,
}
use go_adcore.Bytes.{Bytes}
use go_adcore.Identity
use go_adcore.Identity.{Identity}
use go_adcore.Errors.{
  Kind, ErrorInfo, GoError, nil, other, adcore, sentinel, joined, stamp, errors_is, errors_as,
  with_identity, after_last_dot, short_type_name,
}

abbrev first_of :
    Option (ErrorInfo × GoError) → Option (ErrorInfo × GoError) → Option (ErrorInfo × GoError)
first_of rest found = elim found [ none ↦ rest | some e ↦ some e ]

-- What `errors.Is` says of the first `*Error` it says of the whole.
errors_is-errors_as :
    (err : GoError) (e : ErrorInfo) (w : GoError) (k : Kind)
    → errors_as err ≡ some (e, w)
    → errors_is (adcore e w) k ≡ true
    → errors_is err k ≡ true
unfolding errors_as errors_is
errors_is-errors_as nil e w k h g = cc
errors_is-errors_as (other text v) e w k h g = errors_is-errors_as v e w k h g
errors_is-errors_as (adcore i v) e w k h g =
    let same : i ≡ e = cc in let rest : v ≡ w = cc in rw (same, rest) g
errors_is-errors_as (sentinel j) e w k h g = cc
errors_is-errors_as (joined text a b) e w k h g = elim (Option-cases (errors_as a)) [
  | inl empty ↦
      let later : errors_as b ≡ some (e, w) = ap (first_of (errors_as b)) (sym empty) ∙ h in
      rw (errors_is-errors_as b e w k later g) (or_true _)
  | inr (x, there) ↦
      let first : errors_as a ≡ some (e, w) = there ∙ ap (first_of (errors_as b)) (sym there) ∙ h in
      rw (errors_is-errors_as a e w k first g) refl
]

with_identity_of_some :
    (err : GoError) (op : Bytes) (id : Identity) (e : ErrorInfo) (w : GoError)
    → errors_as err ≡ some (e, w)
    → with_identity err op id ≡ adcore (stamp e op (Identity.to_string id)) w
unfolding with_identity
with_identity_of_some err op id e w h = rw (h, with_identity)

with_identity_of_none :
    (err : GoError) (op : Bytes) (id : Identity)
    → errors_as err ≡ none
    → with_identity err op id ≡ err
unfolding with_identity
with_identity_of_none err op id h = rw (h, with_identity)

errors_is-stamp :
    (e : ErrorInfo) (op id : Bytes) (w : GoError) (k : Kind)
    → errors_is (adcore (stamp e op id) w) k ≡ errors_is (adcore e w) k
unfolding errors_is stamp
errors_is-stamp e op id w k = refl

-- Stamping an operation and an identity on an error adds no kind to what `errors.Is` says of it. It can take
-- kinds away: of an error that joins several, only the first `*Error` is left.
pub errors_is-with_identity :
    (err : GoError) (op : Bytes) (id : Identity) (k : Kind)
    → errors_is (with_identity err op id) k ≡ true
    → errors_is err k ≡ true
errors_is-with_identity err op id k h = elim (Option-cases (errors_as err)) [
  | inl n ↦ ap (λ x. errors_is x k) (sym (with_identity_of_none err op id n)) ∙ h
  | inr ((e, w), s) ↦ errors_is-errors_as err e w k s (
      sym (errors_is-stamp e op (Identity.to_string id) w k)
      ∙ ap (λ x. errors_is x k) (sym (with_identity_of_some err op id e w s))
      ∙ h)
]

to_string-ne-nil : (id : Identity) → Identity.to_string id ≢ []
unfolding Identity.to_string
to_string-ne-nil id h = go id.form h
  where
    go : (l : Bytes) → l ++ (b':' ∷ id.arg) ≡ [] → ⊥
    go [] e = cc
    go (x ∷ l) e = cc

stamp-stamp :
    (e : ErrorInfo) (op op' id id' : Bytes)
    → op ≢ []
    → id ≢ []
    → stamp (stamp e op id) op' id' ≡ stamp e op id
unfolding stamp
stamp-stamp e op op' id id' h k = ground arith

-- The first stamp stays: after a `WithIdentity` that names an operation, a second one changes
-- nothing.
pub with_identity-with_identity :
    (err : GoError) (op op' : Bytes) (id id' : Identity)
    → op ≢ []
    → with_identity (with_identity err op id) op' id' ≡ with_identity err op id
with_identity-with_identity err op op' id id' ne = elim (Option-cases (errors_as err)) [
  | inl n ↦ rw (with_identity_of_none err op id n) (with_identity_of_none err op' id' n)
  | inr ((e, w), s) ↦ rw (with_identity_of_some err op id e w s) (
      with_identity_of_some (adcore (stamp e op (Identity.to_string id)) w) op' id'
        (stamp e op (Identity.to_string id)) w (unfold errors_as in refl)
      ∙ ap (λ x. adcore x w)
          (stamp-stamp e op op' (Identity.to_string id) (Identity.to_string id') ne
            (to_string-ne-nil id)))
]

-- What is left of the last dot, and what is right of it.
pub record LastDot (full short : Bytes) : Type 0 where
  pub front : Bytes
  pub splits : (full ≡ short) ⊎ (full ≡ front ++ (b'.' ∷ short))
  pub no_dot : All (λ c. c ≢ b'.') short

after_last_dot_lem :
    (full seen best cs : Bytes)
    → ((full ≡ best) ⊎ ((front : Bytes) × (full ≡ front ++ (b'.' ∷ best))))
    → full ≡ seen ++ cs
    → (mid : Bytes) × (best ≡ mid ++ cs) × All (λ c. c ≢ b'.') mid
    → LastDot full (after_last_dot best cs)
unfolding after_last_dot
after_last_dot_lem full seen best [] h s (mid, e, free) = elim h [
  | inl whole ↦ record { front = []; splits = inl whole; no_dot = rw (e, append-nil) free }
  | inr (front, split) ↦ record {
    front = front;
    splits = inr split;
    no_dot = rw (e, append-nil) free;
  }
]
after_last_dot_lem full seen best (c ∷ cs) h s (mid, e, free) = elim (Bool-cases (c == b'.')) [
  | inl dot ↦
      let at_dot : c ≡ b'.' = (==_iff c b'.').0 dot in
      rw dot (
        after_last_dot_lem full (seen ++ c ∷ []) cs cs
          (inr (seen, s ∙ ap (λ x. seen ++ (x ∷ cs)) at_dot)) (s ∙ rw append_assoc) ([], refl, tt))
  | inr no_dot ↦ rw no_dot (
      after_last_dot_lem full (seen ++ c ∷ []) best cs h (s ∙ rw append_assoc)
        (mid ++ c ∷ [], e ∙ rw append_assoc, All-concat (λ x. x ≢ b'.') mid c free (ground arith)))
]

-- The short name of a type has no dot, and is all of the full name or what stands behind a dot.
pub short_type_name_lem : (full : Bytes) → LastDot full (short_type_name full)
unfolding short_type_name
short_type_name_lem full = after_last_dot_lem full [] full full (inl refl) refl ([], refl, tt)
