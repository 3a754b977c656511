-- ===== src/Spec/Validity/Groups.antt =====
-- `GroupSpec.Validate` of spec.go.
use go_adcore.Common.{
  ◌≡◌, ◌≢◌, ◌↔◌, ◌⊎◌, refl, Bool, true, false, ◌&&◌, ◌||◌, [], ◌∷◌, is_nil, arith,
}
use go_adcore.Bytes.{Bytes, equal, equal_iff}
use go_adcore.Errors.{nil}
use go_adcore.Models.{
  scope_global, scope_domain_local, scope_universal, category_security, category_distribution,
}
use go_adcore.Spec.{validate_container, validate_name, GroupSpec, validate_group}
use go_adcore.Spec.Validity.{IsContainer, is_nil_iff, validate_container_iff, validate_name_iff}

-- What a `GroupSpec` must be, for a create and for an update.
pub record IsValidGroup (for_create : Bool) (s : GroupSpec) : Type 0 where
  pub name : s.name ≢ []
  pub sam_account_name : s.sam_account_name ≢ []
  pub container : IsContainer s.container
  pub scope_given : (for_create ≡ false) ⊎ (s.scope ≢ [])
  pub scope_known :
      (s.scope ≡ [])
      ⊎ (s.scope ≡ scope_global)
      ⊎ (s.scope ≡ scope_domain_local)
      ⊎ (s.scope ≡ scope_universal)
  pub category_known :
      (s.category ≡ []) ⊎ (s.category ≡ category_security) ⊎ (s.category ≡ category_distribution)

is_nil_eq : (x : Bytes) → (is_nil x ≡ true) ↔ (x ≡ [])
is_nil_eq [] = (λ h. refl, λ h. refl)
is_nil_eq (c ∷ x) = (λ h. cc, λ h. cc)

one_of_two :
    (a b x : Bytes) → ((is_nil x || equal x a || equal x b) ≡ true) ↔ ((x ≡ []) ⊎ (x ≡ a) ⊎ (x ≡ b))
one_of_two a b x = (
  λ h. ground (arith, is_nil_eq x, equal_iff x a, equal_iff x b),
  λ h. ground (arith, is_nil_eq x, equal_iff x a, equal_iff x b),
)

one_of_three :
    (a b c x : Bytes)
    → ((is_nil x || equal x a || equal x b || equal x c) ≡ true)
      ↔ ((x ≡ []) ⊎ (x ≡ a) ⊎ (x ≡ b) ⊎ (x ≡ c))
one_of_three a b c x = (
  λ h. ground (arith, is_nil_eq x, equal_iff x a, equal_iff x b, equal_iff x c),
  λ h. ground (arith, is_nil_eq x, equal_iff x a, equal_iff x b, equal_iff x c),
)

abbrev known_scope : Bytes → Bool
known_scope x =
    is_nil x || equal x scope_global || equal x scope_domain_local || equal x scope_universal

abbrev known_category : Bytes → Bool
known_category x = is_nil x || equal x category_security || equal x category_distribution

validate_group_tests :
    (s : GroupSpec) (op : Bytes) (for_create : Bool)
    → validate_group s op for_create ≡ nil
    → (validate_name op s.name ≡ nil)
      × (is_nil s.sam_account_name ≡ false)
      × (validate_container op s.container ≡ nil)
      × ((for_create && is_nil s.scope) ≡ false)
      × (known_scope s.scope ≡ true)
      × (known_category s.category ≡ true)
unfolding validate_group
validate_group_tests s op for_create h = ground arith

validate_group_of_tests :
    (s : GroupSpec) (op : Bytes) (for_create : Bool)
    → validate_name op s.name ≡ nil
    → is_nil s.sam_account_name ≡ false
    → validate_container op s.container ≡ nil
    → (for_create && is_nil s.scope) ≡ false
    → known_scope s.scope ≡ true
    → known_category s.category ≡ true
    → validate_group s op for_create ≡ nil
unfolding validate_group
validate_group_of_tests s op for_create h1 h2 h3 h4 h5 h6 = rw (h1, h2, h3, h4, h5, h6)

-- A `GroupSpec` is accepted exactly if it is valid.
pub validate_group_iff :
    (s : GroupSpec) (op : Bytes) (for_create : Bool)
    → (validate_group s op for_create ≡ nil) ↔ IsValidGroup for_create s
validate_group_iff s op for_create = (
  λ h.
      let (h1, h2, h3, h4, h5, h6) = validate_group_tests s op for_create h in
      record {
        name = (validate_name_iff op s.name).0 h1;
        sam_account_name = (is_nil_iff s.sam_account_name).0 h2;
        container = (validate_container_iff op s.container).0 h3;
        scope_given = ground (arith, is_nil_iff s.scope);
        scope_known = (one_of_three scope_global scope_domain_local scope_universal s.scope).0 h5;
        category_known = (one_of_two category_security category_distribution s.category).0 h6;
      },
  λ v.
      validate_group_of_tests s op for_create ((validate_name_iff op s.name).1 v.name)
        ((is_nil_iff s.sam_account_name).1 v.sam_account_name)
        ((validate_container_iff op s.container).1 v.container)
        (ground (arith, v.scope_given, is_nil_iff s.scope))
        ((one_of_three scope_global scope_domain_local scope_universal s.scope).1 v.scope_known)
        ((one_of_two category_security category_distribution s.category).1 v.category_known),
)
