-- ===== src/Spec/Validity.antt =====
-- Which specs are accepted, and what a refusal says.
pub mod Groups
pub mod Users
pub mod Accounts
pub mod Computers
pub mod Specs
use go_adcore.Common.{
  ◌≡◌, ◌≢◌, ◌↔◌, inl, inr, refl, Bool, true, false, [], ◌∷◌, is_nil, ok, err, arith, Result-cases,
}
use go_adcore.Bytes.{Bytes, codes}
use go_adcore.Dn.{Dn}
use go_adcore.Dn.Parse.{parse_dn}
use go_adcore.Errors.{constraint, GoError, nil, other, adcore}
use go_adcore.Spec.{parse_error, refuse, ◌then_check◌, new_error, validate_container, validate_name}

-- A container that `ValidateContainer` accepts.
pub record IsContainer (container : Bytes) : Type 0 where
  pub not_empty : container ≢ []
  pub dn : Dn
  pub parses : parse_dn container ≡ ok dn

then_check_iff : (a b : GoError) → ((a then_check b) ≡ nil) ↔ ((a ≡ nil) × (b ≡ nil))
then_check_iff nil b = (λ h. (refl, h), λ h. h.1)
then_check_iff (other text w) b = (λ h. cc, λ h. cc)
then_check_iff (adcore i w) b = (λ h. cc, λ h. cc)
then_check_iff (GoError.sentinel k) b = (λ h. cc, λ h. cc)
then_check_iff (GoError.joined text v w) b = (λ h. cc, λ h. cc)

refuse_iff :
    (op : Bytes) (test : Bool) (text : Bytes) → (refuse op test text ≡ nil) ↔ (test ≡ false)
refuse_iff op true text = (λ h. cc, λ h. cc)
refuse_iff op false text = (λ h. refl, λ h. refl)

pub is_nil_iff : (s : Bytes) → (is_nil s ≡ false) ↔ (s ≢ [])
is_nil_iff [] = (λ h. cc, λ h. absurd (h refl))
is_nil_iff (c ∷ s) = (λ h k. cc, λ h. refl)

container_parses_iff :
    (op container : Bytes)
    → ((elim (parse_dn container) [
      | ok d ↦ nil
      | err e ↦
          new_error constraint op
            (other (codes "Container is not a distinguished name: %w") (parse_error e))
    ])
        ≡ nil)
      ↔ ((d : Dn) × (parse_dn container ≡ ok d))
container_parses_iff op container = elim (Result-cases (parse_dn container)) [
  | inl (e, h) ↦ rw h (λ k. cc, λ k. ground arith)
  | inr (d, h) ↦ rw h (λ k. (d, refl), λ k. refl)
]

-- `ValidateContainer` accepts exactly the strings that are not empty and that `ParseDN` reads.
pub validate_container_iff :
    (op container : Bytes) → (validate_container op container ≡ nil) ↔ IsContainer container
unfolding validate_container
validate_container_iff op container = (
  λ h.
      let (e, p) = (then_check_iff _ _).0 h in
      let (d, q) = (container_parses_iff op container).0 p in
      record { not_empty = (is_nil_iff container).0 ((refuse_iff op _ _).0 e); dn = d; parses = q },
  λ c. (then_check_iff _ _).1 (
    (refuse_iff op _ _).1 ((is_nil_iff container).1 c.not_empty),
    (container_parses_iff op container).1 (c.dn, c.parses),
  ),
)

pub validate_name_iff : (op name : Bytes) → (validate_name op name ≡ nil) ↔ (name ≢ [])
unfolding validate_name
validate_name_iff op name = (
  λ h. (is_nil_iff name).0 ((refuse_iff op _ _).0 h),
  λ h. (refuse_iff op _ _).1 ((is_nil_iff name).1 h),
)
