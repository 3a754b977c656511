-- ===== src/Fake/Groups.antt =====
-- adcorefake/group.go: groups, without their members.
use go_adcore.Common.{ℕ, true, false, not, ◌||◌, List, [], if◌then◌else◌, is_nil}
use go_adcore.Bytes.{Bytes, codes, equal}
use go_adcore.Folding.{CaseFolding}
use go_adcore.Identity.{Identity}
use go_adcore.Search.{Query}
use go_adcore.Fake.Objects.{Object, Store, new_object, sid_text}
use go_adcore.Fake.Actions.{Action, pure, gets, check, ◌>>=◌, ◌>>◌}
use go_adcore.Fake.Lookup.{eq_dn, next_guid, save}
use go_adcore.Fake.Classes.{
  Class, join_dn, refuse_taken, require_class, get_model, search_models, delete_object,
  finish_update, given,
}
use go_adcore.Models.{Group, category_security}
use go_adcore.Spec.{GroupSpec, validate_group}

abbrev pub group_name : Bytes
group_name = codes "group"

abbrev pub group_class : {T : Type 0} → Class T
group_class = record { Model = Group; name = group_name; model = λ o. o.group }

-- the object that `Create` stores
abbrev pub new_group : {T : Type 0} → GroupSpec → Bytes → Bytes → ℕ → Object T
new_group spec guid dn seq = record (new_object guid dn group_name) {
  group = record {
    guid = guid;
    dn = dn;
    name = spec.name;
    sam_account_name = spec.sam_account_name;
    container = spec.container;
    scope = spec.scope;
    category = if is_nil spec.category then category_security else spec.category;
    description = given spec.description [];
    managed_by = given spec.managed_by [];
    sid = sid_text seq;
  };
}

-- the fields that `Update` takes over from the spec
abbrev pub updated_group : GroupSpec → Group → Group
updated_group spec m = record m {
  sam_account_name =
      if is_nil spec.sam_account_name then m.sam_account_name else spec.sam_account_name;
  scope = if is_nil spec.scope then m.scope else spec.scope;
  category = if is_nil spec.category then m.category else spec.category;
  description = given spec.description m.description;
  managed_by = given spec.managed_by m.managed_by;
}

-- the fields that `Update` sets on an object that it has moved
abbrev pub moved_group : {T : Type 0} → Bytes → Bytes → Bytes → Object T → Object T
moved_group dn name container x = record x {
  group = record x.group { dn = dn; name = name; container = container };
}

module _ (u : CaseFolding) {T : Type 0} where
  -- `func (f *fakeGroup) Create`
  unfoldable pub create_group : GroupSpec → Action T Group
  unfolding refuse_taken next_guid save
  create_group spec = do
    check (validate_group spec (codes "Group.Create") true)
    let dn = join_dn (codes "CN=") spec.name spec.container
    refuse_taken u (codes "Group.Create") dn
    guid ← next_guid
    seq ← gets (λ (s : Store T). s.seq)
    save dn (new_group spec guid dn seq)
    pure (new_group {T = T} spec guid dn seq).group

  -- `func (f *fakeGroup) Get`
  unfoldable pub get_group : Identity → Action T Group
  unfolding get_model
  get_group = get_model u group_class (codes "Group.Get")

  -- `func (f *fakeGroup) Search`
  unfoldable pub search_groups : Query → Action T (List Group)
  unfolding search_models
  search_groups = search_models u group_class (codes "Group.Search")

  -- `func (f *fakeGroup) Update`
  unfoldable pub update_group : Identity → GroupSpec → Action T Group
  unfolding require_class finish_update
  update_group id spec = do
    check (validate_group spec (codes "Group.Update") false)
    o ← require_class u group_name (codes "Group.Update") id
    let new_dn = join_dn (codes "CN=") spec.name spec.container
    let differs =
        not (equal spec.name o.group.name) || not (eq_dn u spec.container o.group.container)
    moved ←
        finish_update u differs new_dn (moved_group new_dn spec.name spec.container)
          (record o { group = updated_group spec o.group })
    pure moved.group

  -- `func (f *fakeGroup) Delete`
  unfoldable pub delete_group : Identity → Action T Unit
  unfolding delete_object
  delete_group = delete_object u group_name
