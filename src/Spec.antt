-- ===== src/Spec.antt =====
-- spec.go: the desired states of objects and their validation. A nil pointer is `none`. The text of
-- a formatted message is its format string, with the arguments left out.
pub mod Validity
pub mod Deletion
use go_adcore.Common.{
  ℕ, Bool, true, false, not, ◌&&◌, ◌||◌, List, [], Option, none, some, ltb, length, if◌then◌else◌,
  is_nil, ℤ, pos, ok, err,
}
use go_adcore.Bytes.{Bytes, codes, equal}
use go_adcore.Dn.Parse.{
  ParseError, no_equals, empty_type, bad_hex_escape, incomplete_hex_escape, not_escapable,
  ber_value, dangling_escape, parse_dn,
}
use go_adcore.Errors.{Kind, constraint, GoError, nil, other, adcore}
use go_adcore.Identity.{Identity}
use go_adcore.Secret.{Secret}
use go_adcore.Models.{
  OptTime, scope_global, scope_domain_local, scope_universal, category_security,
  category_distribution,
}

-- `&Error{Kind: kind, Op: op, Err: cause}`
abbrev pub new_error : Kind → Bytes → GoError → GoError
new_error kind op cause =
    adcore
      (record {
        kind = kind;
        op = op;
        identity = [];
        exception_type = [];
        code = pos 0;
        server_message = [];
        fqid = [];
        target = [];
        tombstoned = false;
      })
      cause

-- `if err := e; err != nil { return err }` in front of `rest`
infixr 6 ◌then_check◌
abbrev pub ◌then_check◌ : GoError → GoError → GoError
nil then_check rest = rest
other text w then_check rest = other text w
adcore i w then_check rest = adcore i w
GoError.sentinel k then_check rest = GoError.sentinel k
GoError.joined text v w then_check rest = GoError.joined text v w

-- the error of `ParseDN`
unfoldable pub parse_error : ParseError → GoError
parse_error (no_equals t) = other (codes "adcore: RDN %q has no '='") nil
parse_error empty_type = other (codes "adcore: empty attribute type") nil
parse_error (bad_hex_escape h) = other (codes "adcore: bad hex escape %q in %q") nil
parse_error incomplete_hex_escape = other (codes "adcore: incomplete hex escape in %q") nil
parse_error (not_escapable c) = other (codes "adcore: %q is not an escapable character in %q") nil
parse_error ber_value = other (codes "adcore: hex-encoded BER value in %q is not supported") nil
parse_error dangling_escape = other (codes "adcore: dangling escape in %q") nil

-- one check: an error if the test holds
abbrev refuse : Bytes → Bool → Bytes → GoError
refuse op test text = if test then new_error constraint op (other text nil) else nil

-- `func ValidateContainer`
unfoldable pub validate_container : Bytes → Bytes → GoError
unfolding parse_error
validate_container op container =
    refuse op (is_nil container) (codes "Container is required")
    then_check elim (parse_dn container) [
      | ok d ↦ nil
      | err e ↦
          new_error constraint op
            (other (codes "Container is not a distinguished name: %w") (parse_error e))
    ]

-- `func ValidateName`
unfoldable pub validate_name : Bytes → Bytes → GoError
validate_name op name = refuse op (is_nil name) (codes "Name is required")

-- `type OUSpec`
pub record OuSpec : Type 0 where
  pub name : Bytes
  pub container : Bytes
  pub description : Option Bytes
  pub protected : Option Bool

-- `type GroupSpec`
pub record GroupSpec : Type 0 where
  pub name : Bytes
  pub sam_account_name : Bytes
  pub container : Bytes
  pub scope : Bytes
  pub category : Bytes
  pub description : Option Bytes
  pub managed_by : Option Bytes

-- `func (s GroupSpec) Validate`
unfoldable pub validate_group : GroupSpec → Bytes → Bool → GoError
validate_group s op for_create =
    validate_name op s.name
    then_check refuse op (is_nil s.sam_account_name) (codes "SamAccountName is required")
    then_check validate_container op s.container
    then_check refuse op (for_create && is_nil s.scope)
        (codes "Scope is required (global, domainlocal or universal)")
    then_check refuse op
        (not (
          is_nil s.scope
          || equal s.scope scope_global
          || equal s.scope scope_domain_local
          || equal s.scope scope_universal))
        (codes "Scope %q is not one of global, domainlocal, universal")
    then_check refuse op
        (not (
          is_nil s.category
          || equal s.category category_security
          || equal s.category category_distribution))
        (codes "Category %q is not one of security, distribution")

-- `type UserSpec`, over the type of times
pub record UserSpec (T : Type 0) : Type 0 where
  pub sam_account_name : Bytes
  pub container : Bytes
  pub name : Option Bytes
  pub user_principal_name : Option Bytes
  pub display_name : Option Bytes
  pub given_name : Option Bytes
  pub surname : Option Bytes
  pub description : Option Bytes
  pub enabled : Option Bool
  pub password : Option Secret
  pub change_password_at_logon : Option Bool
  pub can_change_password : Option Bool
  pub password_expires : Option Bool
  pub account_expiration : OptTime T

-- `p != nil && *p`, and `p != nil && !*p`
abbrev pub is_true : Option Bool → Bool
is_true none = false
is_true (some b) = b

abbrev pub is_false : Option Bool → Bool
is_false none = false
is_false (some b) = not b

-- `func (s UserSpec) Validate`
unfoldable pub validate_user : {T : Type 0} → UserSpec T → Bytes → GoError
validate_user s op =
    refuse op (is_nil s.sam_account_name) (codes "SamAccountName is required")
    then_check validate_container op s.container
    then_check refuse op (s.account_expiration.set && s.account_expiration.clear)
        (codes "AccountExpiration cannot both set and clear")
    then_check refuse op (is_true s.change_password_at_logon && is_false s.password_expires) (
        codes
          "change_password_at_logon cannot be true while password_expires is false: AD cannot require a change of a password that never expires")
    then_check refuse op (is_true s.change_password_at_logon && is_false s.can_change_password) (
        codes
          "change_password_at_logon cannot be true while can_change_password is false: the user would be required to do what they are denied")

-- `type GMSASpec`
pub record GmsaSpec (T : Type 0) : Type 0 where
  pub name : Bytes
  pub sam_account_name : Bytes
  pub container : Bytes
  pub dns_host_name : Option Bytes
  pub description : Option Bytes
  pub display_name : Option Bytes
  pub enabled : Option Bool
  pub trusted_for_delegation : Option Bool
  pub principals_allowed : Option (List Identity)
  pub service_principal_names : Option (List Bytes)
  pub kerberos_encryption_type : Option (List Bytes)
  pub account_expiration : OptTime T
  pub managed_password_interval_in_days : Option ℤ

abbrev pub gmsa_sam_max_len : ℕ
gmsa_sam_max_len = 15

-- `p == nil || *p == ""`
abbrev pub is_missing : Option Bytes → Bool
is_missing none = true
is_missing (some s) = is_nil s

-- `func (s GMSASpec) Validate`
unfoldable pub validate_gmsa : {T : Type 0} → GmsaSpec T → Bytes → Bool → GoError
validate_gmsa s op for_create =
    validate_name op s.name
    then_check refuse op (is_nil s.sam_account_name) (codes "SamAccountName is required")
    then_check refuse op (ltb gmsa_sam_max_len (length s.sam_account_name))
        (codes "SamAccountName %q is %d characters; a gMSA sAMAccountName must be at most %d")
    then_check validate_container op s.container
    then_check refuse op (for_create && is_missing s.dns_host_name)
        (codes "DNSHostName is required")

-- `type ComputerSpec`
pub record ComputerSpec (T : Type 0) : Type 0 where
  pub name : Bytes
  pub sam_account_name : Bytes
  pub container : Bytes
  pub dns_host_name : Option Bytes
  pub description : Option Bytes
  pub display_name : Option Bytes
  pub location : Option Bytes
  pub managed_by : Option Bytes
  pub enabled : Option Bool
  pub trusted_for_delegation : Option Bool
  pub service_principal_names : Option (List Bytes)
  pub allowed_to_delegate_to : Option (List Bytes)
  pub principals_allowed : Option (List Identity)
  pub kerberos_encryption_type : Option (List Bytes)
  pub account_expiration : OptTime T

-- `func (s ComputerSpec) Validate`
unfoldable pub validate_computer : {T : Type 0} → ComputerSpec T → Bytes → Bool → GoError
validate_computer s op for_create =
    validate_name op s.name
    then_check refuse op (is_nil s.sam_account_name) (codes "SamAccountName is required")
    then_check validate_container op s.container
