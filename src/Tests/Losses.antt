-- ===== src/Tests/Losses.antt =====
-- An `Update` of adcorefake/ onto the DN of another unit.
use mathlib.Core.Path.{subst}
use go_adcore.Common.{
  ℕ, ◌≡◌, ◌≢◌, refl, sym, ap, ◌∙◌, false, [], ◌∷◌, ◌++◌, none, some, arith, Result, ok,
}
use go_adcore.Bytes.{codes, equal, trim_space, contains_byte}
use go_adcore.Folding.{ascii, equal_fold}
use go_adcore.Identity.{by_guid}
use go_adcore.Errors.{GoError}
use go_adcore.Dn.Compare.{dn_equal_fold, rdns_equal_fold, rdn_equal_fold}
use go_adcore.Dn.Parse.{parse_dn, run, step, is_hex_digit, parse_uint_16, end_rdn, finish}
use go_adcore.Dn.Render.{escape_value, escape_from, escape_byte}
use go_adcore.Dn.Strings.{equal_fold_dn}
use go_adcore.Models.{Ou}
use go_adcore.Spec.{validate_name, validate_container}
use go_adcore.Maps.{put, lookup, delete_key}
use go_adcore.Fake.Objects.{Object, Store, guid_text, digits, padded, new_store}
use go_adcore.Fake.Lookup.{find_in, matches, is_taken, eq_dn, next_guid, save, is_below, has_suffix}
use go_adcore.Fake.Moving.{move_object, move_children, move_child}
use go_adcore.Fake.Classes.{
  find_class, require_class, refuse_taken, finish_update, relabelled, save_moved,
}
use go_adcore.Fake.Directory.{an_ou, creates, target_dn, create, update, perform, perform_all}
use go_adcore.Fake.Reachable.{Valid, reachable-IsConsistent}
use go_adcore.Fake.View.{view}
use go_adcore.Fake.Units.{unit_name, new_unit, create_ou, update_ou}
use go_adcore.Fake.Numbering.{guid_text-injective}
use go_adcore.Fake.Losing.{update-loses}
use go_adcore.Tests.Directory.{
  eng, ops, eng_store, ops_store, ops_object, eng_object, eng_store-reached,
}

abbrev ops_unit : Object ℕ
ops_unit = new_unit ops (guid_text 2) (codes "OU=Ops,DC=x")

abbrev two_units : Store ℕ
two_units = record eng_store {
  by_dn = eng_store.by_dn ++ (codes "OU=Ops,DC=x", ops_unit) ∷ [];
  seq = 2;
}

abbrev one_left : Store ℕ
one_left = record ops_store { seq = 2 }

create-ops : create ascii (an_ou ops) eng_store ≡ (ok ops_unit.ou, two_units)
unfolding create create_ou validate_name validate_container refuse_taken is_taken next_guid save put
    escape_value escape_from escape_byte parse_dn trim_space run step is_hex_digit parse_uint_16
    end_rdn finish contains_byte equal eq_dn equal_fold_dn dn_equal_fold rdns_equal_fold
    rdn_equal_fold equal_fold
create-ops = refl

two_units-reached :
    perform_all ascii (creates (an_ou eng) ∷ creates (an_ou ops) ∷ []) (new_store (codes "DC=x"))
    ≡ two_units
unfolding perform_all perform
two_units-reached =
    ap (λ s. (create ascii (an_ou ops) s).1) eng_store-reached
    ∙ ap (λ (r : Result GoError Ou × Store ℕ). r.1) create-ops

two_units-Valid : Valid two_units
two_units-Valid =
    subst Valid two_units-reached
      (reachable-IsConsistent ascii (codes "DC=x") (creates (an_ou eng) ∷ creates (an_ou ops) ∷ []))

-- A rename onto the DN of another object replaces it: of the two units one is left.
update-replaces :
    update ascii (by_guid (guid_text 1)) (an_ou ops) two_units ≡ (ok ops_object.ou, one_left)
unfolding update update_ou validate_name validate_container require_class find_class find_in matches
    by_guid guid_text digits padded finish_update save relabelled save_moved move_object
    move_children move_child put delete_key lookup escape_value escape_from escape_byte parse_dn
    trim_space run step is_hex_digit parse_uint_16 end_rdn finish contains_byte equal
update-replaces = refl

find-eng : find_class ascii unit_name (by_guid (guid_text 1)) two_units ≡ some eng_object
unfolding find_class find_in matches by_guid guid_text digits padded equal
find-eng = refl

view-ops : view ascii one_left (guid_text 1) ≡ some ops_object
unfolding find_in matches by_guid guid_text digits padded equal
view-ops = refl

view-ops_unit : view ascii two_units (guid_text 2) ≡ some ops_unit
unfolding find_in matches by_guid guid_text digits padded equal
view-ops_unit = refl

target-ops : target_dn (an_ou ops) eng_object ≡ codes "OU=Ops,DC=x"
unfolding escape_value escape_from escape_byte contains_byte
target-ops = refl

guids_apart : guid_text 2 ≢ guid_text 1
guids_apart h = absurd (omega (arith, guid_text-injective 2 1 h))

beside_eng : is_below ascii (codes "OU=Ops,DC=x") (codes "OU=Eng,DC=x") ≡ false
unfolding is_below has_suffix equal
beside_eng = refl

update-loses_example : view ascii one_left (guid_text 2) ≡ none
update-loses_example =
    update-loses ascii (by_guid (guid_text 1)) (an_ou ops) two_units one_left ops_object.ou
      eng_object ops_object ops_unit two_units-Valid update-replaces find-eng view-ops
      (sym target-ops) view-ops_unit (sym target-ops) guids_apart beside_eng
