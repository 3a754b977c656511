-- ===== src/Spec/Validity/Computers.antt =====
-- `ComputerSpec.Validate` of spec.go.
use go_adcore.Common.{◌≡◌, ◌≢◌, ◌↔◌, Bool, false, [], is_nil, arith}
use go_adcore.Bytes.{Bytes}
use go_adcore.Errors.{nil}
use go_adcore.Spec.{validate_container, validate_name, ComputerSpec, validate_computer}
use go_adcore.Spec.Validity.{IsContainer, is_nil_iff, validate_container_iff, validate_name_iff}

module _ {T : Type 0} where
  -- What a `ComputerSpec` must be.
  pub record IsValidComputer (s : ComputerSpec T) : Type 0 where
    pub name : s.name ≢ []
    pub sam_account_name : s.sam_account_name ≢ []
    pub container : IsContainer s.container

  validate_computer_tests :
      (s : ComputerSpec T) (op : Bytes) (for_create : Bool)
      → validate_computer s op for_create ≡ nil
      → (validate_name op s.name ≡ nil)
        × (is_nil s.sam_account_name ≡ false)
        × (validate_container op s.container ≡ nil)
  unfolding validate_computer
  validate_computer_tests s op for_create h = ground arith

  validate_computer_of_tests :
      (s : ComputerSpec T) (op : Bytes) (for_create : Bool)
      → validate_name op s.name ≡ nil
      → is_nil s.sam_account_name ≡ false
      → validate_container op s.container ≡ nil
      → validate_computer s op for_create ≡ nil
  unfolding validate_computer
  validate_computer_of_tests s op for_create h1 h2 h3 = rw (h1, h2, h3)

  -- A `ComputerSpec` is accepted exactly if it is valid, for a create as for an update.
  pub validate_computer_iff :
      (s : ComputerSpec T) (op : Bytes) (for_create : Bool)
      → (validate_computer s op for_create ≡ nil) ↔ IsValidComputer s
  validate_computer_iff s op for_create = (
    λ h.
        let (h1, h2, h3) = validate_computer_tests s op for_create h in
        record {
          name = (validate_name_iff op s.name).0 h1;
          sam_account_name = (is_nil_iff s.sam_account_name).0 h2;
          container = (validate_container_iff op s.container).0 h3;
        },
    λ v.
        validate_computer_of_tests s op for_create ((validate_name_iff op s.name).1 v.name)
          ((is_nil_iff s.sam_account_name).1 v.sam_account_name)
          ((validate_container_iff op s.container).1 v.container),
  )
