-- ===== src/Spec/Validity/Specs.antt =====
-- The `Validate` methods of spec.go together.
use go_adcore.Common.{◌≡◌, ◌↔◌, Bool}
use go_adcore.Bytes.{Bytes}
use go_adcore.Errors.{nil}
use go_adcore.Spec.{
  GroupSpec, validate_group, UserSpec, validate_user, GmsaSpec, validate_gmsa, ComputerSpec,
  validate_computer,
}
use go_adcore.Spec.Validity.Groups.{IsValidGroup, validate_group_iff}
use go_adcore.Spec.Validity.Users.{IsValidUser, validate_user_iff}
use go_adcore.Spec.Validity.Accounts.{IsValidGmsa, validate_gmsa_iff}
use go_adcore.Spec.Validity.Computers.{IsValidComputer, validate_computer_iff}

-- Whatever the operation that is named, and for a create as for an update, a spec of a group, user, managed
-- account or computer is accepted exactly if it is valid: its required names are not empty and its
-- container is a DN that parses; a group names known scopes and categories only, and for a create a
-- scope; a user's expiration is not both set and cleared, and no change of the password at logon is
-- demanded where the password never expires or the user may not change it; a managed account has a
-- short name and, for a create, a host name.
pub valid_specs_iff :
    {T : Type 0} (op : Bytes) (for_create : Bool)
    → ((s : GroupSpec) → (validate_group s op for_create ≡ nil) ↔ IsValidGroup for_create s)
      × ((s : UserSpec T) → (validate_user s op ≡ nil) ↔ IsValidUser s)
      × ((s : GmsaSpec T) → (validate_gmsa s op for_create ≡ nil) ↔ IsValidGmsa for_create s)
      × ((s : ComputerSpec T) → (validate_computer s op for_create ≡ nil) ↔ IsValidComputer s)
valid_specs_iff op for_create = (
  λ s. validate_group_iff s op for_create,
  λ s. validate_user_iff s op,
  λ s. validate_gmsa_iff s op for_create,
  λ s. validate_computer_iff s op for_create,
)
