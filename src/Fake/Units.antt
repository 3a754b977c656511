-- ===== src/Fake/Units.antt =====
-- adcorefake/ou.go: organizational units.
use go_adcore.Common.{false, not, ◌||◌, ◌==◌, List, [], none, some, if◌then◌else◌, pos, ok, err}
use go_adcore.Bytes.{Bytes, codes, equal}
use go_adcore.Folding.{CaseFolding}
use go_adcore.Identity
use go_adcore.Identity.{Identity}
use go_adcore.Errors.{constraint, other, adcore, nil}
use go_adcore.Models.{Ou}
use go_adcore.Search.{Query}
use go_adcore.Spec.{OuSpec, validate_name, validate_container}
use go_adcore.Fake.Objects.{Object, new_object}
use go_adcore.Fake.Actions.{Action, pure, check, ◌>>=◌, ◌>>◌}
use go_adcore.Fake.Lookup.{eq_dn, count_children, next_guid, save, remove}
use go_adcore.Fake.Classes.{
  Class, join_dn, refuse_taken, find_class, require_class, get_model, search_models, finish_update,
  given,
}

abbrev pub unit_name : Bytes
unit_name = codes "organizationalUnit"

abbrev pub unit_class : {T : Type 0} → Class T
unit_class = record { Model = Ou; name = unit_name; model = λ o. o.ou }

-- the fields that `Create` and `Update` take over where the spec names them
abbrev pub apply_ou : Ou → OuSpec → Ou
apply_ou m spec = record m {
  description = given spec.description m.description;
  protected = given spec.protected m.protected;
}

-- the object that `Create` stores
abbrev pub new_unit : {T : Type 0} → OuSpec → Bytes → Bytes → Object T
new_unit spec guid dn = record (new_object guid dn unit_name) {
  ou =
      apply_ou
        (record {
          guid = guid;
          dn = dn;
          name = spec.name;
          container = spec.container;
          description = [];
          protected = false;
        })
        spec;
}

-- the fields that `Update` sets on an object that it has moved
abbrev pub moved_ou : {T : Type 0} → Bytes → Bytes → Bytes → Object T → Object T
moved_ou dn name container x = record x {
  ou = record x.ou { dn = dn; name = name; container = container };
}

module _ (u : CaseFolding) {T : Type 0} where
  -- `func (f *fakeOU) Create`
  unfoldable pub create_ou : OuSpec → Action T Ou
  unfolding refuse_taken next_guid save
  create_ou spec = do
    check (validate_name (codes "OU.Create") spec.name)
    check (validate_container (codes "OU.Create") spec.container)
    let dn = join_dn (codes "OU=") spec.name spec.container
    refuse_taken u (codes "OU.Create") dn
    guid ← next_guid
    save dn (new_unit spec guid dn)
    pure (new_unit {T = T} spec guid dn).ou

  -- `func (f *fakeOU) Get`
  unfoldable pub get_ou : Identity → Action T Ou
  unfolding get_model
  get_ou = get_model u unit_class (codes "OU.Get")

  -- `func (f *fakeOU) Search`
  unfoldable pub search_ou : Query → Action T (List Ou)
  unfolding search_models
  search_ou = search_models u unit_class (codes "OU.Search")

  -- `func (f *fakeOU) Update`
  unfoldable pub update_ou : Identity → OuSpec → Action T Ou
  unfolding require_class finish_update
  update_ou id spec = do
    check (validate_name (codes "OU.Update") spec.name)
    check (validate_container (codes "OU.Update") spec.container)
    o ← require_class u unit_name (codes "OU.Update") id
    let new_dn = join_dn (codes "OU=") spec.name spec.container
    let differs = not (equal spec.name o.ou.name) || not (eq_dn u spec.container o.ou.container)
    moved ←
        finish_update u differs new_dn (moved_ou new_dn spec.name spec.container)
          (record o { ou = apply_ou o.ou spec })
    pure moved.ou

  -- `func (f *fakeOU) Delete`
  unfoldable pub delete_ou : Identity → Action T Unit
  unfolding find_class remove
  delete_ou id s = elim (find_class u unit_name id s) [
    | none ↦ (ok tt, s)
    | some o ↦ if count_children u s.by_dn o.dn == 0 then remove o.dn s else (
      err (
          adcore
            (record {
              kind = constraint;
              op = codes "OU.Delete";
              identity = Identity.to_string id;
              exception_type = [];
              code = pos 0;
              server_message = [];
              fqid = [];
              target = o.dn;
              tombstoned = false;
            })
            (other (codes "organizational unit has %d child object(s); delete or move them first")
              nil)),
      s,
    )
  ]
