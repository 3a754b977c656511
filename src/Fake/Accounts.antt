-- ===== src/Fake/Accounts.antt =====
-- adcorefake/gmsa.go: group-managed service accounts.
use go_adcore.Common.{ℕ, true, false, not, ◌||◌, List, if◌then◌else◌, ℤ, pos, is_nil}
use go_adcore.Bytes.{Bytes, codes, equal}
use go_adcore.Folding.{CaseFolding}
use go_adcore.Identity.{Identity}
use go_adcore.Search.{Query}
use go_adcore.Fake.Objects.{Object, Store, new_object, sid_text, zero_gmsa}
use go_adcore.Fake.Actions.{Action, pure, gets, check, ◌>>=◌, ◌>>◌}
use go_adcore.Fake.Lookup.{eq_dn, next_guid, save, resolve_principals}
use go_adcore.Fake.Classes.{
  Class, join_dn, refuse_taken, require_class, get_model, search_models, delete_object,
  finish_update, given,
}
use go_adcore.Models.{Gmsa, apply_time}
use go_adcore.Spec.{GmsaSpec, validate_gmsa}
use go_adcore.Fake.Computers.{updated_principals}

abbrev pub account_name : Bytes
account_name = codes "gmsa"

abbrev pub account_class : {T : Type 0} → Class T
account_class {T} = record { Model = Gmsa T; name = account_name; model = λ o. o.gmsa }

abbrev pub default_managed_password_interval : ℤ
default_managed_password_interval = pos 30

-- `func applyGMSASpec`
unfoldable pub apply_gmsa : {T : Type 0} → Gmsa T → GmsaSpec T → Gmsa T
unfolding apply_time
apply_gmsa m spec = record m {
  dns_host_name = given spec.dns_host_name m.dns_host_name;
  description = given spec.description m.description;
  display_name = given spec.display_name m.display_name;
  enabled = given spec.enabled m.enabled;
  trusted_for_delegation = given spec.trusted_for_delegation m.trusted_for_delegation;
  service_principal_names = given spec.service_principal_names m.service_principal_names;
  kerberos_encryption_type = given spec.kerberos_encryption_type m.kerberos_encryption_type;
  account_expiration = apply_time spec.account_expiration m.account_expiration;
}

-- the object that `Create` stores
abbrev pub new_account : {T : Type 0} → GmsaSpec T → List Bytes → Bytes → Bytes → ℕ → Object T
new_account spec principals guid dn seq = record (new_object guid dn account_name) {
  gmsa =
      record (apply_gmsa
        (record zero_gmsa {
          guid = guid;
          dn = dn;
          name = spec.name;
          sam_account_name = spec.sam_account_name;
          container = spec.container;
          enabled = true;
          sid = sid_text seq;
        })
        spec) {
          principals_allowed = principals;
          managed_password_interval_in_days =
              given spec.managed_password_interval_in_days default_managed_password_interval;
        };
}

-- the fields that `Update` sets on an object that it has moved
abbrev pub moved_gmsa : {T : Type 0} → Bytes → Bytes → Bytes → Object T → Object T
moved_gmsa dn name container x = record x {
  gmsa = record x.gmsa { dn = dn; name = name; container = container };
}

module _ (u : CaseFolding) {T : Type 0} where
  -- `func (f *fakeServiceAccount) Create`
  unfoldable pub create_gmsa : GmsaSpec T → Action T (Gmsa T)
  unfolding refuse_taken resolve_principals next_guid save
  create_gmsa spec = do
    check (validate_gmsa spec (codes "ServiceAccount.Create") true)
    let dn = join_dn (codes "CN=") spec.name spec.container
    refuse_taken u (codes "ServiceAccount.Create") dn
    principals ← resolve_principals u (codes "ServiceAccount.Create") spec.principals_allowed
    guid ← next_guid
    seq ← gets (λ (s : Store T). s.seq)
    save dn (new_account spec principals guid dn seq)
    pure (new_account spec principals guid dn seq).gmsa

  -- `func (f *fakeServiceAccount) Get`
  unfoldable pub get_gmsa : Identity → Action T (Gmsa T)
  unfolding get_model
  get_gmsa = get_model u account_class (codes "ServiceAccount.Get")

  -- `func (f *fakeServiceAccount) Search`
  unfoldable pub search_gmsas : Query → Action T (List (Gmsa T))
  unfolding search_models
  search_gmsas = search_models u account_class (codes "ServiceAccount.Search")

  abbrev pub updated_gmsa : GmsaSpec T → List Bytes → Gmsa T → Gmsa T
  updated_gmsa spec principals m =
      apply_gmsa
        (record m {
          principals_allowed = principals;
          sam_account_name =
              if is_nil spec.sam_account_name then m.sam_account_name else spec.sam_account_name;
        })
        spec

  -- `func (f *fakeServiceAccount) Update`
  unfoldable pub update_gmsa : Identity → GmsaSpec T → Action T (Gmsa T)
  unfolding require_class finish_update updated_principals
  update_gmsa id spec = do
    check (validate_gmsa spec (codes "ServiceAccount.Update") false)
    o ← require_class u account_name (codes "ServiceAccount.Update") id
    principals ←
        updated_principals u (codes "ServiceAccount.Update") spec.principals_allowed
          o.gmsa.principals_allowed
    let new_dn = join_dn (codes "CN=") spec.name spec.container
    let differs = not (equal spec.name o.gmsa.name) || not (eq_dn u spec.container o.gmsa.container)
    moved ←
        finish_update u differs new_dn (moved_gmsa new_dn spec.name spec.container)
          (record o { gmsa = updated_gmsa spec principals o.gmsa })
    pure moved.gmsa

  -- `func (f *fakeServiceAccount) Delete`
  unfoldable pub delete_gmsa : Identity → Action T Unit
  unfolding delete_object
  delete_gmsa = delete_object u account_name
