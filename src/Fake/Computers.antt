-- ===== src/Fake/Computers.antt =====
-- adcorefake/computer.go: computer accounts.
use go_adcore.Common.{
  ℕ, true, false, not, ◌||◌, List, Option, none, some, if◌then◌else◌, is_nil, ok,
}
use go_adcore.Bytes.{Bytes, codes, equal}
use go_adcore.Folding.{CaseFolding}
use go_adcore.Identity.{Identity}
use go_adcore.Search.{Query}
use go_adcore.Fake.Objects.{Object, Store, new_object, sid_text, zero_computer}
use go_adcore.Fake.Actions.{Action, pure, gets, check, ◌>>=◌, ◌>>◌}
use go_adcore.Fake.Lookup.{eq_dn, next_guid, save, resolve_principals}
use go_adcore.Fake.Classes.{
  Class, join_dn, refuse_taken, require_class, get_model, search_models, delete_object,
  finish_update, given,
}
use go_adcore.Models.{Computer, apply_time}
use go_adcore.Spec.{ComputerSpec, validate_computer}

abbrev pub computer_name : Bytes
computer_name = codes "computer"

abbrev pub computer_class : {T : Type 0} → Class T
computer_class {T} = record { Model = Computer T; name = computer_name; model = λ o. o.computer }

-- `func applyComputerSpec`
unfoldable pub apply_computer : {T : Type 0} → Computer T → ComputerSpec T → Computer T
unfolding apply_time
apply_computer m spec = record m {
  dns_host_name = given spec.dns_host_name m.dns_host_name;
  description = given spec.description m.description;
  display_name = given spec.display_name m.display_name;
  location = given spec.location m.location;
  managed_by = given spec.managed_by m.managed_by;
  enabled = given spec.enabled m.enabled;
  trusted_for_delegation = given spec.trusted_for_delegation m.trusted_for_delegation;
  service_principal_names = given spec.service_principal_names m.service_principal_names;
  allowed_to_delegate_to = given spec.allowed_to_delegate_to m.allowed_to_delegate_to;
  kerberos_encryption_type = given spec.kerberos_encryption_type m.kerberos_encryption_type;
  account_expiration = apply_time spec.account_expiration m.account_expiration;
}

-- the object that `Create` stores
abbrev pub new_computer : {T : Type 0} → ComputerSpec T → List Bytes → Bytes → Bytes → ℕ → Object T
new_computer spec principals guid dn seq = record (new_object guid dn computer_name) {
  computer =
      record (apply_computer
        (record zero_computer {
          guid = guid;
          dn = dn;
          name = spec.name;
          sam_account_name = spec.sam_account_name;
          container = spec.container;
          enabled = true;
          sid = sid_text seq;
        })
        spec) { principals_allowed = principals };
}

-- the fields that `Update` sets on an object that it has moved
abbrev pub moved_computer : {T : Type 0} → Bytes → Bytes → Bytes → Object T → Object T
moved_computer dn name container x = record x {
  computer = record x.computer { dn = dn; name = name; container = container };
}

module _ (u : CaseFolding) {T : Type 0} where
  -- `func (f *fakeComputer) Create`
  unfoldable pub create_computer : ComputerSpec T → Action T (Computer T)
  unfolding refuse_taken resolve_principals next_guid save
  create_computer spec = do
    check (validate_computer spec (codes "Computer.Create") true)
    let dn = join_dn (codes "CN=") spec.name spec.container
    refuse_taken u (codes "Computer.Create") dn
    principals ← resolve_principals u (codes "Computer.Create") spec.principals_allowed
    guid ← next_guid
    seq ← gets (λ (s : Store T). s.seq)
    save dn (new_computer spec principals guid dn seq)
    pure (new_computer spec principals guid dn seq).computer

  -- `func (f *fakeComputer) Get`
  unfoldable pub get_computer : Identity → Action T (Computer T)
  unfolding get_model
  get_computer = get_model u computer_class (codes "Computer.Get")

  -- `func (f *fakeComputer) Search`
  unfoldable pub search_computers : Query → Action T (List (Computer T))
  unfolding search_models
  search_computers = search_models u computer_class (codes "Computer.Search")

  -- the principals after an `Update`: those of the object where the spec names none
  unfoldable pub updated_principals :
      Bytes → Option (List Identity) → List Bytes → Action T (List Bytes)
  unfolding resolve_principals
  updated_principals op none old s = (ok old, s)
  updated_principals op (some ids) old s = resolve_principals u op (some ids) s

  abbrev pub updated_computer : ComputerSpec T → List Bytes → Computer T → Computer T
  updated_computer spec principals m =
      apply_computer
        (record m {
          principals_allowed = principals;
          sam_account_name =
              if is_nil spec.sam_account_name then m.sam_account_name else spec.sam_account_name;
        })
        spec

  -- `func (f *fakeComputer) Update`
  unfoldable pub update_computer : Identity → ComputerSpec T → Action T (Computer T)
  unfolding require_class finish_update
  update_computer id spec = do
    check (validate_computer spec (codes "Computer.Update") false)
    o ← require_class u computer_name (codes "Computer.Update") id
    principals ←
        updated_principals (codes "Computer.Update") spec.principals_allowed
          o.computer.principals_allowed
    let new_dn = join_dn (codes "CN=") spec.name spec.container
    let differs =
        not (equal spec.name o.computer.name) || not (eq_dn u spec.container o.computer.container)
    moved ←
        finish_update u differs new_dn (moved_computer new_dn spec.name spec.container)
          (record o { computer = updated_computer spec principals o.computer })
    pure moved.computer

  -- `func (f *fakeComputer) Delete`
  unfoldable pub delete_computer : Identity → Action T Unit
  unfolding delete_object
  delete_computer = delete_object u computer_name
