-- ===== src/Tests/Directory.antt =====
-- The in-memory directory of adcorefake/ on concrete calls.
use mathlib.Core.Path.{subst}
use go_adcore.Common.{ℕ, ◌≡◌, refl, ap, ◌∙◌, true, [], ◌∷◌, none, some, Result, ok, err}
use go_adcore.Bytes.{Bytes, codes, equal, trim_space, contains_byte}
use go_adcore.Folding.{ascii, equal_fold}
use go_adcore.Identity.{by_guid, by_dn}
use go_adcore.Errors.{GoError}
use go_adcore.Dn.{Dn}
use go_adcore.Dn.Compare.{dn_equal_fold, rdns_equal_fold, rdn_equal_fold}
use go_adcore.Dn.Parse.{parse_dn, run, step, is_hex_digit, parse_uint_16, end_rdn, finish}
use go_adcore.Dn.Render.{escape_value, escape_from, escape_byte}
use go_adcore.Dn.Strings.{equal_fold_dn}
use go_adcore.Models.{Ou}
use go_adcore.Spec.{OuSpec, validate_name, validate_container}
use go_adcore.Maps.{put, keys, has_key}
use go_adcore.Fake.Objects.{Object, Store, guid_text, new_store}
use go_adcore.Fake.Lookup.{is_taken, eq_dn, next_guid, save, exists_error}
use go_adcore.Fake.Classes.{find_class, get_model, delete_object, refuse_taken}
use go_adcore.Fake.Directory.{
  an_ou, creates, deletes_ou, dn_of, create, update, perform, perform_all,
}
use go_adcore.Fake.Reachable.{Valid, reachable-IsConsistent}
use go_adcore.Fake.View.{view, Sets, Drops}
use go_adcore.Fake.Units.{unit_name, new_unit, create_ou, delete_ou, moved_ou, unit_class}
use go_adcore.Fake.Contract.{create-get_model, failing_writes, create-Sets}
use go_adcore.Fake.Deleting.{delete_object-Drops, delete_ou-Drops, IsUnder}

abbrev pub eng : OuSpec
eng = record {
  name = codes "Eng";
  container = codes "DC=x";
  description = none;
  protected = some true;
}

abbrev pub ops : OuSpec
ops = record eng { name = codes "Ops" }

abbrev nested : OuSpec
nested = record eng { name = codes "A"; container = codes "OU=Eng,DC=x" }

abbrev pub empty_store : Store ℕ
empty_store = record { dnc = codes "DC=x"; by_dn = []; seq = 0; passwords = [] }

abbrev pub eng_object : Object ℕ
eng_object = new_unit eng (guid_text 1) (codes "OU=Eng,DC=x")

abbrev pub eng_store : Store ℕ
eng_store = record empty_store { by_dn = (codes "OU=Eng,DC=x", eng_object) ∷ []; seq = 1 }

abbrev pub ops_object : Object ℕ
ops_object =
    moved_ou (codes "OU=Ops,DC=x") (codes "Ops") (codes "DC=x")
      (record eng_object { dn = codes "OU=Ops,DC=x" })

abbrev pub ops_store : Store ℕ
ops_store = record eng_store { by_dn = (codes "OU=Ops,DC=x", ops_object) ∷ [] }

create-eng : create ascii (an_ou eng) empty_store ≡ (ok eng_object.ou, eng_store)
unfolding create create_ou validate_name validate_container refuse_taken is_taken next_guid save put
    escape_value escape_from escape_byte parse_dn trim_space run step is_hex_digit parse_uint_16
    end_rdn finish contains_byte equal
create-eng = refl

-- a second `Create` of the DN is refused, whatever the case of its letters
create-eng_again :
    create ascii (an_ou (record eng { name = codes "ENG" })) eng_store
    ≡ (err (exists_error (codes "OU.Create") (codes "OU=ENG,DC=x")), eng_store)
unfolding create create_ou validate_name validate_container refuse_taken is_taken next_guid save put
    escape_value escape_from escape_byte parse_dn trim_space run step is_hex_digit parse_uint_16
    end_rdn finish contains_byte equal eq_dn equal_fold_dn dn_equal_fold rdns_equal_fold
    rdn_equal_fold equal_fold
create-eng_again = refl

empty_store-Valid : Valid empty_store
unfolding perform_all new_store
empty_store-Valid = reachable-IsConsistent ascii (codes "DC=x") []

pub eng_store-reached :
    perform_all ascii (creates (an_ou eng) ∷ []) (new_store (codes "DC=x")) ≡ eng_store
unfolding perform_all perform new_store
eng_store-reached = ap (λ (r : Result GoError Ou × Store ℕ). r.1) create-eng

eng_store-Valid : Valid eng_store
eng_store-Valid =
    subst Valid eng_store-reached
      (reachable-IsConsistent ascii (codes "DC=x") (creates (an_ou eng) ∷ []))

reachable-IsConsistent_example : Valid (
    perform_all ascii
      (creates (an_ou eng) ∷ deletes_ou (by_guid (guid_text 1)) ∷ [])
      (new_store {T = ℕ} (codes "DC=x")))
reachable-IsConsistent_example =
    reachable-IsConsistent ascii (codes "DC=x")
      (creates (an_ou eng) ∷ deletes_ou (by_guid (guid_text 1)) ∷ [])

create-get_model_example :
    get_model ascii unit_class (codes "OU.Get") (by_guid (guid_text 1)) eng_store
    ≡ (ok eng_object.ou, eng_store)
create-get_model_example =
    create-get_model ascii (an_ou eng) (codes "OU.Get") empty_store eng_store eng_object.ou
      empty_store-Valid create-eng

failing_writes_example :
    ((e : GoError) (s' : Store ℕ)
      → create ascii (an_ou eng) eng_store ≡ (err e, s')
      → s' ≡ eng_store)
    × ((e : GoError) (s' : Store ℕ)
        → update ascii (by_dn (codes "OU=Eng,DC=x")) (an_ou eng) eng_store ≡ (err e, s')
        → s' ≡ eng_store)
failing_writes_example =
    failing_writes ascii (an_ou eng) (by_dn (codes "OU=Eng,DC=x")) eng_store eng_store-Valid

abbrev eng_dn : Dn
eng_dn = record {
  rdns =
      record { attributes = record { kind = codes "OU"; value = codes "Eng" } ∷ [] }
      ∷ record { attributes = record { kind = codes "DC"; value = codes "x" } ∷ [] }
      ∷ [];
}

parse_dn-eng : parse_dn (codes "OU=Eng,DC=x") ≡ ok eng_dn
unfolding parse_dn trim_space run step is_hex_digit parse_uint_16 end_rdn finish contains_byte
parse_dn-eng = refl

join_dn-eng : dn_of {T = ℕ} (an_ou eng) ≡ codes "OU=Eng,DC=x"
unfolding escape_value escape_from escape_byte contains_byte
join_dn-eng = refl

create-Sets_example :
    (o : Object ℕ) × (eng_object.ou ≡ o.ou)
    × (o.guid ≡ guid_text 1)
    × (view ascii empty_store o.guid ≡ none)
    × Sets (view ascii empty_store) o (view ascii eng_store)
create-Sets_example =
    create-Sets ascii (an_ou eng) eng_dn empty_store eng_store eng_object.ou empty_store-Valid
      (ap parse_dn join_dn-eng ∙ parse_dn-eng) create-eng

delete_object-Drops_example :
    ((delete_object ascii unit_name (by_guid (guid_text 1)) eng_store).0 ≡ ok tt)
    × ((o : Object ℕ)
        → find_class ascii unit_name (by_guid (guid_text 1)) eng_store ≡ some o
        → Drops
            (view ascii eng_store)
            o.guid
            (view ascii (delete_object ascii unit_name (by_guid (guid_text 1)) eng_store).1))
    × (find_class ascii unit_name (by_guid (guid_text 1)) eng_store ≡ none
        → (delete_object ascii unit_name (by_guid (guid_text 1)) eng_store).1 ≡ eng_store)
delete_object-Drops_example =
    delete_object-Drops ascii unit_name (by_guid (guid_text 1)) eng_store eng_store-Valid

delete_ou-Drops_example :
    (find_class ascii unit_name (by_guid (guid_text 1)) eng_store ≡ none
      → delete_ou ascii (by_guid (guid_text 1)) eng_store ≡ (ok tt, eng_store))
    × ((o : Object ℕ) (k : Bytes)
        → find_class ascii unit_name (by_guid (guid_text 1)) eng_store ≡ some o
        → has_key (keys eng_store.by_dn) k ≡ true
        → IsUnder ascii k o.dn
        → (e : GoError) × (delete_ou ascii (by_guid (guid_text 1)) eng_store ≡ (err e, eng_store)))
    × ((o : Object ℕ)
        → find_class ascii unit_name (by_guid (guid_text 1)) eng_store ≡ some o
        → ((k : Bytes) → has_key (keys eng_store.by_dn) k ≡ true → ¬ IsUnder ascii k o.dn)
        → ((delete_ou ascii (by_guid (guid_text 1)) eng_store).0 ≡ ok tt)
          × Drops
              (view ascii eng_store)
              (o.guid)
              (view ascii (delete_ou ascii (by_guid (guid_text 1)) eng_store).1))
delete_ou-Drops_example = delete_ou-Drops ascii (by_guid (guid_text 1)) eng_store eng_store-Valid
