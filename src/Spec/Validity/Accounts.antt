-- ===== src/Spec/Validity/Accounts.antt =====
-- `GMSASpec.Validate` of spec.go.
use go_adcore.Common.{
  ◌≡◌, ◌≢◌, ◌↔◌, ◌⊎◌, ◌≤◌, inl, inr, refl, Bool, true, false, ◌&&◌, [], ◌∷◌, Option, none, some,
  ltb, length, is_nil, arith,
}
use go_adcore.Bytes.{Bytes}
use go_adcore.Errors.{nil}
use go_adcore.Spec.{
  validate_container, validate_name, GmsaSpec, validate_gmsa, is_missing, gmsa_sam_max_len,
}
use go_adcore.Spec.Validity.{IsContainer, is_nil_iff, validate_container_iff, validate_name_iff}

abbrev HostGiven : Bool → Option Bytes → Type 0
HostGiven for_create host = (for_create ≡ false) ⊎ ((host ≢ none) × (host ≢ some []))

host_of_test :
    (for_create : Bool) (host : Option Bytes)
    → (for_create && is_missing host) ≡ false
    → HostGiven for_create host
host_of_test false host h = inl refl
host_of_test true none h = cc
host_of_test true (some []) h = cc
host_of_test true (some (c ∷ s)) h = inr (λ p. cc, λ p. cc)

test_of_host :
    (for_create : Bool) (host : Option Bytes)
    → HostGiven for_create host
    → (for_create && is_missing host) ≡ false
test_of_host false host h = refl
test_of_host true none h = ground arith
test_of_host true (some []) h = ground arith
test_of_host true (some (c ∷ s)) h = refl

module _ {T : Type 0} where
  -- What a `GMSASpec` must be, for a create and for an update.
  pub record IsValidGmsa (for_create : Bool) (s : GmsaSpec T) : Type 0 where
    pub name : s.name ≢ []
    pub sam_account_name : s.sam_account_name ≢ []
    pub short : length s.sam_account_name ≤ gmsa_sam_max_len
    pub container : IsContainer s.container
    pub host_given : (for_create ≡ false) ⊎ ((s.dns_host_name ≢ none) × (s.dns_host_name ≢ some []))

  validate_gmsa_tests :
      (s : GmsaSpec T) (op : Bytes) (for_create : Bool)
      → validate_gmsa s op for_create ≡ nil
      → (validate_name op s.name ≡ nil)
        × (is_nil s.sam_account_name ≡ false)
        × (ltb gmsa_sam_max_len (length s.sam_account_name) ≡ false)
        × (validate_container op s.container ≡ nil)
        × ((for_create && is_missing s.dns_host_name) ≡ false)
  unfolding validate_gmsa
  validate_gmsa_tests s op for_create h = ground arith

  validate_gmsa_of_tests :
      (s : GmsaSpec T) (op : Bytes) (for_create : Bool)
      → validate_name op s.name ≡ nil
      → is_nil s.sam_account_name ≡ false
      → ltb gmsa_sam_max_len (length s.sam_account_name) ≡ false
      → validate_container op s.container ≡ nil
      → (for_create && is_missing s.dns_host_name) ≡ false
      → validate_gmsa s op for_create ≡ nil
  unfolding validate_gmsa
  validate_gmsa_of_tests s op for_create h1 h2 h3 h4 h5 = rw (h1, h2, h3, h4, h5)

  -- A `GMSASpec` is accepted exactly if it is valid.
  pub validate_gmsa_iff :
      (s : GmsaSpec T) (op : Bytes) (for_create : Bool)
      → (validate_gmsa s op for_create ≡ nil) ↔ IsValidGmsa for_create s
  validate_gmsa_iff s op for_create = (
    λ h.
        let (h1, h2, h3, h4, h5) = validate_gmsa_tests s op for_create h in
        record {
          name = (validate_name_iff op s.name).0 h1;
          sam_account_name = (is_nil_iff s.sam_account_name).0 h2;
          short = ground arith;
          container = (validate_container_iff op s.container).0 h4;
          host_given = host_of_test for_create s.dns_host_name h5;
        },
    λ v.
        validate_gmsa_of_tests s op for_create ((validate_name_iff op s.name).1 v.name)
          ((is_nil_iff s.sam_account_name).1 v.sam_account_name) (ground (arith, v.short))
          ((validate_container_iff op s.container).1 v.container)
          (test_of_host for_create s.dns_host_name v.host_given),
  )
