-- ===== src/Tests/Objects.antt =====
-- identity.go, search.go, errors.go and spec.go on concrete values.
use go_adcore.Common.{ℕ, ◌≡◌, ◌↔◌, ◌⊎◌, refl, true, false, not, [], none, some, pos, negsuc}
use go_adcore.Bytes.{codes}
use go_adcore.Identity
use go_adcore.Identity.{Identity, by_sam}
use go_adcore.Search.{Query}
use go_adcore.Errors.{
  unknown, not_found, same_kind, GoError, nil, other, errors_as, with_identity, short_type_name,
  after_last_dot, error_text, info_text, kind_string, hex_string, hex_digits,
}
use go_adcore.Errors.Codes.{classify_code, classify_code_found}
use go_adcore.Models.{scope_global}
use go_adcore.Spec.{new_error, GroupSpec, validate_group}
use go_adcore.Spec.Validity.Groups.{IsValidGroup}
use go_adcore.Spec.Validity.Specs.{valid_specs_iff}
use go_adcore.Spec.Deletion.{PresenceCheck, confirm_absent, IsCleanProbe, confirm_absent_iff}

abbrev lookup_error : GoError
lookup_error = new_error not_found [] (other (codes "no such object") nil)

error_text-lookup_error :
    error_text (with_identity lookup_error (codes "User.Get") (by_sam (codes "jo")))
    ≡ some (codes "User.Get: not found (sam:jo): no such object")
unfolding error_text info_text kind_string with_identity Identity.to_string errors_as by_sam
error_text-lookup_error = refl

short_type_name_runs :
    (short_type_name (codes "Microsoft.ActiveDirectory.ADException") ≡ codes "ADException")
    × (short_type_name (codes "plain") ≡ codes "plain")
unfolding short_type_name after_last_dot
short_type_name_runs = (refl, refl)

hex_string_runs :
    (hex_string (pos 0x2098) ≡ codes "0x2098")
    × (hex_string (negsuc 0) ≡ codes "-0x1")
    × (hex_string (pos 0) ≡ codes "0x0")
unfolding hex_string hex_digits
hex_string_runs = (refl, refl, refl)

abbrev empty_query : Query
empty_query = record { filter = []; search_base = []; scope = []; size_limit = negsuc 3 }

classify_code_found_example :
    (classify_code (pos 0x2030)).1 ≡ not (same_kind (classify_code (pos 0x2030)).0 unknown)
classify_code_found_example = classify_code_found (pos 0x2030)

abbrev staff : GroupSpec
staff = record {
  name = codes "staff";
  sam_account_name = codes "staff";
  container = codes "DC=x";
  scope = scope_global;
  category = [];
  description = none;
  managed_by = none;
}

valid_specs_iff_example :
    (validate_group staff (codes "Group.Create") true ≡ nil) ↔ IsValidGroup true staff
valid_specs_iff_example = (valid_specs_iff {T = ℕ} (codes "Group.Create") true).0 staff

abbrev gone_probe : PresenceCheck
gone_probe = record {
  present = false;
  exception_type = codes "ADIdentityNotFoundException";
  error_code = pos 0x208D;
  message = [];
  kind = not_found;
}

confirm_absent_iff_example :
    (confirm_absent gone_probe (codes "User.Delete") (by_sam (codes "jo")) (codes "CN=jo") ≡ nil)
    ↔ ((false ≡ false) × (IsCleanProbe gone_probe ⊎ (not_found ≡ not_found)))
confirm_absent_iff_example =
    confirm_absent_iff gone_probe (codes "User.Delete") (by_sam (codes "jo")) (codes "CN=jo")
