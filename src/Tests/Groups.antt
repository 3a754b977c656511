-- ===== src/Tests/Groups.antt =====
-- Groups and searches of adcorefake/, and the catalog of schema/, on concrete values.
use mathlib.Core.List.{Memᴰ}
use mathlib.Core.Path.{subst}
use go_adcore.Common.{
  length, ◌≤◌, ◌<◌, ℕ, ◌≡◌, ◌↔◌, refl, true, false, List, [], ◌∷◌, none, some, ◌++◌, ok, err,
  if◌then◌else◌, pos,
}
use go_adcore.Acl.{SchemaRef}
use go_adcore.Bytes.{Bytes, codes, equal, trim_space, contains_byte}
use go_adcore.Folding.{ascii}
use go_adcore.Identity.{by_guid}
use go_adcore.Dn.Parse.{parse_dn, run, step, is_hex_digit, parse_uint_16, end_rdn, finish}
use go_adcore.Dn.Render.{escape_value, escape_from, escape_byte}
use go_adcore.Dn.Strings.{equal_fold_dn}
use go_adcore.Models.{Member, scope_global}
use go_adcore.Spec.{GroupSpec, validate_group, validate_name, validate_container}
use go_adcore.Search
use go_adcore.Search.{Query}
use go_adcore.Maps.{put, has_key}
use go_adcore.Fake.Objects.{Object, Store, guid_text, digits, padded, new_object, new_store}
use go_adcore.Fake.Lookup.{find, find_in, matches, is_taken, next_guid, save, in_scope}
use go_adcore.Fake.Classes.{find_class, refuse_taken, search_models, select, exceeds}
use go_adcore.Fake.Groups.{group_name, group_class, new_group, create_group}
use go_adcore.Fake.Users.{user_name}
use go_adcore.Fake.Members.{
  edit_members, is_member, members_recursive, walk_group, walk_members, walk_objects,
}
use go_adcore.Fake.Directory.{a_group, creates, create, perform, perform_all}
use go_adcore.Fake.Reachable.{Valid, reachable-IsConsistent}
use go_adcore.Fake.Lookup.{too_many_error}
use go_adcore.Fake.View.{view}
use go_adcore.Secret
use go_adcore.Secret.{new_secret, reveal_secret}
use go_adcore.Fake.Users.{set_password}
use go_adcore.Fake.Lookup.{history}
use go_adcore.Maps.{lookup}
use go_adcore.Fake.Passwords.{set_password_lem}
use go_adcore.Fake.Schemas.{lookup_ref, guid_of_ref, unknown_name, resolve}
use go_adcore.Fake.Nesting.{IsLeaf, members_recursive_lem}
use go_adcore.Fake.Membership.{edit_members-is_member}
use go_adcore.Fake.Searching.{listing, search_models_lem}

-- two groups that contain each other, and a user in the second
abbrev first_group : Object ℕ
first_group = record (new_object (codes "1") (codes "CN=A") group_name) { members = codes "2" ∷ [] }

abbrev second_group : Object ℕ
second_group = record (new_object (codes "2") (codes "CN=B") group_name) {
  members = codes "1" ∷ codes "3" ∷ [];
}

abbrev member_user : Object ℕ
member_user = new_object (codes "3") (codes "CN=C") user_name

abbrev cyclic_store : Store ℕ
cyclic_store = record {
  dnc = codes "DC=x";
  by_dn =
      (codes "CN=A", first_group) ∷ (codes "CN=B", second_group) ∷ (codes "CN=C", member_user) ∷ [];
  seq = 3;
  passwords = [];
}

find-first_group : find_class ascii group_name (by_guid (codes "1")) cyclic_store ≡ some first_group
unfolding find_class find_in matches by_guid equal
find-first_group = refl

members_recursive-cyclic : members_recursive ascii (by_guid (codes "1")) cyclic_store ≡ (
  ok (some (record { guid = codes "3"; dn = codes "CN=C"; class = user_name; sid = [] } ∷ [])),
  cyclic_store,
)
unfolding members_recursive go_adcore.Fake.Classes.require_class find_class find_in matches by_guid
    equal walk_group walk_members walk_objects has_key
members_recursive-cyclic = refl

members_recursive_lem_example :
    (l : List Member) × (members_recursive ascii (by_guid (codes "1")) cyclic_store
      ≡ (ok (some l), cyclic_store))
    × ((x : Member) → Memᴰ x l ↔ IsLeaf cyclic_store.by_dn first_group x)
members_recursive_lem_example =
    members_recursive_lem ascii (by_guid (codes "1")) cyclic_store first_group find-first_group

abbrev crew : GroupSpec
crew = record {
  name = codes "crew";
  sam_account_name = codes "crew";
  container = codes "DC=x";
  scope = scope_global;
  category = [];
  description = none;
  managed_by = none;
}

abbrev crew_group : Object ℕ
crew_group = new_group crew (guid_text 1) (codes "CN=crew,DC=x") 1

abbrev crew_store : Store ℕ
crew_store = record {
  dnc = codes "DC=x";
  by_dn = (codes "CN=crew,DC=x", crew_group) ∷ [];
  seq = 1;
  passwords = [];
}

crew_store-reached :
    perform_all ascii (creates (a_group crew) ∷ []) (new_store (codes "DC=x")) ≡ crew_store
unfolding perform_all perform new_store create create_group validate_group validate_name
    validate_container refuse_taken is_taken next_guid save put escape_value escape_from escape_byte
    parse_dn trim_space run step is_hex_digit parse_uint_16 end_rdn finish contains_byte equal
crew_store-reached = refl

crew_store-Valid : Valid crew_store
crew_store-Valid =
    subst Valid crew_store-reached
      (reachable-IsConsistent ascii (codes "DC=x") (creates (a_group crew) ∷ []))

find-crew : find_class ascii group_name (by_guid (guid_text 1)) crew_store ≡ some crew_group
unfolding find_class find_in matches by_guid equal guid_text digits padded
find-crew = refl

seen-crew : find ascii (by_guid (guid_text 1)) crew_store ≡ some crew_group
unfolding find_in matches by_guid equal guid_text digits padded
seen-crew = refl

edit_members-is_member_example :
    ((edit_members ascii
        (codes "Group.AddMembers")
        (by_guid (guid_text 1))
        (by_guid (guid_text 1) ∷ [])
        true
        crew_store).0
      ≡ ok tt)
    × ((p : Object ℕ)
        → view ascii crew_store p.guid ≡ some p
        → (is_member ascii (by_guid (guid_text 1)) (by_guid p.guid) crew_store
            ≡ (ok (has_key [] p.guid), crew_store))
          × ((is_member ascii
                (by_guid (guid_text 1))
                (by_guid p.guid)
                (edit_members ascii
                  (codes "Group.AddMembers")
                  (by_guid (guid_text 1))
                  (by_guid (guid_text 1) ∷ [])
                  true
                  crew_store).1).0
              ≡ ok (if equal (guid_text 1) p.guid then true else has_key [] p.guid)))
edit_members-is_member_example =
    edit_members-is_member ascii (codes "Group.AddMembers") true (by_guid (guid_text 1))
      (by_guid (guid_text 1)) crew_store crew_group crew_group crew_store-Valid find-crew seen-crew

abbrev everything : Query
everything = record { filter = []; search_base = []; scope = []; size_limit = pos 0 }

search-crew :
    search_models ascii group_class (codes "Group.Search") everything crew_store
    ≡ (ok (crew_group.group ∷ []), crew_store)
unfolding search_models Search.with_defaults select in_scope equal go_adcore.Fake.Lookup.eq_dn
    equal_fold_dn parse_dn trim_space run step end_rdn finish go_adcore.Dn.Compare.dn_equal_fold
    go_adcore.Fake.Lookup.is_below go_adcore.Fake.Lookup.has_suffix
search-crew = refl

one_listed :
    listing ascii group_class (Search.with_defaults everything (codes "DC=x")) crew_store.by_dn
    ≡ crew_group.group ∷ []
unfolding Search.with_defaults in_scope equal go_adcore.Fake.Lookup.eq_dn equal_fold_dn parse_dn
    trim_space run step end_rdn finish go_adcore.Dn.Compare.dn_equal_fold
    go_adcore.Fake.Lookup.is_below go_adcore.Fake.Lookup.has_suffix
one_listed = refl

search_models_lem_example :
    let found =
      listing ascii group_class (Search.with_defaults everything (codes "DC=x")) crew_store.by_dn in
    (length found ≤ 1000
      → search_models ascii group_class (codes "Group.Search") everything crew_store
        ≡ (ok found, crew_store))
    × (1000 < length found
        → search_models ascii group_class (codes "Group.Search") everything crew_store
          ≡ (err (too_many_error (codes "Group.Search")), crew_store))
unfolding Search.with_defaults
search_models_lem_example =
    search_models_lem ascii group_class (codes "Group.Search") everything crew_store 1000 refl

find-member_user : find_class ascii user_name (by_guid (codes "3")) cyclic_store ≡ some member_user
unfolding find_class find_in matches by_guid equal
find-member_user = refl

secret-is_zero : Secret.is_zero (new_secret (codes "pw")) ≡ false
unfolding Secret.is_zero new_secret
secret-is_zero = refl

abbrev renewed_store : Store ℕ
renewed_store = (set_password ascii (by_guid (codes "3")) (new_secret (codes "pw")) cyclic_store).1

set_password_lem_example :
    ((set_password ascii (by_guid (codes "3")) (new_secret (codes "pw")) cyclic_store).0 ≡ ok tt)
    × (renewed_store.by_dn ≡ cyclic_store.by_dn)
    × ((g : Bytes)
        → history renewed_store.passwords g ≡ (
            if equal (codes "3") g
            then history cyclic_store.passwords g ++ reveal_secret (new_secret (codes "pw")) ∷ []
            else history cyclic_store.passwords g))
set_password_lem_example =
    (set_password_lem ascii (by_guid (codes "3")) (new_secret (codes "pw")) cyclic_store).0
      member_user find-member_user secret-is_zero

abbrev user_ref : SchemaRef
user_ref = record { kind = codes "class"; name = codes "user" }

abbrev unknown_ref : SchemaRef
unknown_ref = record { kind = codes "class"; name = codes "nothing" }

resolve_runs :
    (resolve (user_ref ∷ user_ref ∷ [])
      ≡ ok ((user_ref, codes "bf967aba-0de6-11d0-a285-00aa003049e2") ∷ []))
    × (resolve (user_ref ∷ unknown_ref ∷ []) ≡ err unknown_name)
unfolding resolve lookup_ref guid_of_ref lookup equal
resolve_runs = (refl, refl)
