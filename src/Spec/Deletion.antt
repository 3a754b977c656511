-- ===== src/Spec/Deletion.antt =====
-- `PresenceCheck` and `ConfirmAbsent` of spec.go: the verdict after a delete.
use go_adcore.Common.{
  ℕ, zero, suc, ◌≡◌, ◌≢◌, ◌↔◌, ◌⊎◌, inl, inr, refl, sym, ap, ◌∙◌, Bool, true, false, not, ◌&&◌, [],
  ◌∷◌, if◌then◌else◌, is_nil, arith, ltb, ◌==◌, ℤ, pos, negsuc,
}
use go_adcore.Bytes.{Bytes, codes}
use go_adcore.Identity
use go_adcore.Identity.{Identity}
use go_adcore.Errors.{
  Kind, unknown, not_found, already_exists, denied, constraint, password, referral, transient,
  transport, invalid_attribute, schema, replication, too_many_results, unsupported, kind_index,
  same_kind, GoError, nil, other, adcore,
}

-- `type PresenceCheck`
pub record PresenceCheck : Type 0 where
  pub present : Bool
  pub exception_type : Bytes
  pub error_code : ℤ
  pub message : Bytes
  pub kind : Kind

abbrev is_zero : ℤ → Bool
is_zero (pos zero) = true
is_zero (pos (suc n)) = false
is_zero (negsuc n) = false

-- `func (p PresenceCheck) ConfirmAbsent`
unfoldable pub confirm_absent : PresenceCheck → Bytes → Identity → Bytes → GoError
confirm_absent p op id dn =
    if p.present
    then adcore
        (record {
          kind = constraint;
          op = op;
          identity = Identity.to_string id;
          exception_type = [];
          code = pos 0;
          server_message = [];
          fqid = [];
          target = dn;
          tombstoned = false;
        })
        (other
          (codes
            "the remove cmdlet returned cleanly but the object is still present; the deletion was refused")
          nil)
    else if is_nil p.exception_type && is_zero p.error_code && same_kind p.kind unknown
    then nil
    else if not (same_kind p.kind not_found)
    then adcore
        (record {
          kind = p.kind;
          op = op;
          identity = Identity.to_string id;
          exception_type = p.exception_type;
          code = p.error_code;
          server_message = p.message;
          fqid = [];
          target = dn;
          tombstoned = false;
        })
        (other (codes "could not verify the deletion") nil)
    else nil

kind_at : ℕ → Kind
kind_at n =
    if ltb n 7
    then (if n == 0
        then unknown
        else if n == 1
        then not_found
        else if n == 2
        then already_exists
        else if n == 3
        then denied
        else if n == 4
        then constraint
        else if n == 5
        then password
        else referral)
    else if n == 7
    then transient
    else if n == 8
    then transport
    else if n == 9
    then invalid_attribute
    else if n == 10
    then schema
    else if n == 11
    then replication
    else if n == 12
    then too_many_results
    else unsupported

kind_at-kind_index : (k : Kind) → kind_at (kind_index k) ≡ k
unfolding kind_at kind_index
kind_at-kind_index unknown = refl
kind_at-kind_index _ = refl

same_kind_iff : (j k : Kind) → (same_kind j k ≡ true) ↔ (j ≡ k)
same_kind_iff j k = (
  λ h.
      let e : kind_index j ≡ kind_index k = unfold same_kind in ground arith in
      sym (kind_at-kind_index j) ∙ ap kind_at e ∙ kind_at-kind_index k,
  λ h. unfold same_kind in ground (arith, ap kind_index h),
)

-- A probe that met no failure at all.
abbrev pub IsCleanProbe : PresenceCheck → Type 0
IsCleanProbe p = (p.exception_type ≡ []) × (p.error_code ≡ pos 0) × (p.kind ≡ unknown)

is_nil_eq : (x : Bytes) → (is_nil x ≡ true) ↔ (x ≡ [])
is_nil_eq [] = (λ h. refl, λ h. refl)
is_nil_eq (c ∷ x) = (λ h. cc, λ h. cc)

is_zero_eq : (i : ℤ) → (is_zero i ≡ true) ↔ (i ≡ pos 0)
is_zero_eq (pos zero) = (λ h. refl, λ h. refl)
is_zero_eq (pos (suc n)) = (λ h. cc, λ h. cc)
is_zero_eq (negsuc n) = (λ h. cc, λ h. cc)

and_iff : (a b c : Bool) → ((a && b && c) ≡ true) ↔ ((a ≡ true) × (b ≡ true) × (c ≡ true))
and_iff a b c = (λ h. (ground arith, ground arith, ground arith), λ h. ground arith)

is_clean_iff :
    (p : PresenceCheck)
    → ((is_nil p.exception_type && is_zero p.error_code && same_kind p.kind unknown) ≡ true)
      ↔ IsCleanProbe p
is_clean_iff p = (
  λ h.
      let (a, b, c) = (and_iff _ _ _).0 h in
      (
        (is_nil_eq p.exception_type).0 a,
        (is_zero_eq p.error_code).0 b,
        (same_kind_iff p.kind unknown).0 c,
      ),
  λ h. (and_iff _ _ _).1 (
    (is_nil_eq p.exception_type).1 h.0,
    (is_zero_eq p.error_code).1 h.1,
    (same_kind_iff p.kind unknown).1 h.2,
  ),
)

confirm_absent_tests :
    (present clean gone : Bool) (a b : GoError)
    → a ≢ nil
    → b ≢ nil
    → ((if present then a else if clean then nil else if not gone then b else nil) ≡ nil)
      ↔ ((present ≡ false) × ((clean ≡ true) ⊎ (gone ≡ true)))
confirm_absent_tests true clean gone a b na nb = (λ h. absurd (na h), λ h. cc (h.0))
confirm_absent_tests false true gone a b na nb = (λ h. (refl, inl refl), λ h. refl)
confirm_absent_tests false false true a b na nb = (λ h. (refl, inr refl), λ h. refl)
confirm_absent_tests false false false a b na nb = (λ h. absurd (nb h), λ h. ground arith)

-- A delete is taken for done exactly if the object was not seen, and the probe either failed with
-- not found or met no failure at all: every other failure of the probe is an error.
pub confirm_absent_iff :
    (p : PresenceCheck) (op : Bytes) (id : Identity) (dn : Bytes)
    → (confirm_absent p op id dn ≡ nil)
      ↔ ((p.present ≡ false) × (IsCleanProbe p ⊎ (p.kind ≡ not_found)))
unfolding confirm_absent
confirm_absent_iff p op id dn = (
  λ h.
      let (absent, why) = (tests).0 h in
      (
        absent,
        elim why [
          | inl clean ↦ inl ((is_clean_iff p).0 clean)
          | inr gone ↦ inr ((same_kind_iff p.kind not_found).0 gone)
        ],
      ),
  λ h. (tests).1 (
    h.0,
    elim h.1 [
      | inl clean ↦ inl ((is_clean_iff p).1 clean)
      | inr gone ↦ inr ((same_kind_iff p.kind not_found).1 gone)
    ],
  ),
)
  where
    tests : (confirm_absent p op id dn ≡ nil) ↔ (
        (p.present ≡ false)
        × (((is_nil p.exception_type && is_zero p.error_code && same_kind p.kind unknown) ≡ true)
            ⊎ (same_kind p.kind not_found ≡ true)))
    tests = confirm_absent_tests p.present _ _ _ _ (λ k. cc) (λ k. cc)
