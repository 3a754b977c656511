-- ===== src/Fake/Users.antt =====
-- adcorefake/user.go: users and their passwords.
use go_adcore.Common.{ℕ, true, not, ◌||◌, List, Option, none, some, if◌then◌else◌, is_nil, ok, err}
use go_adcore.Bytes.{Bytes, codes, equal}
use go_adcore.Folding.{CaseFolding}
use go_adcore.Identity.{Identity}
use go_adcore.Errors.{password, other, nil}
use go_adcore.Search.{Query}
use go_adcore.Secret
use go_adcore.Secret.{Secret, reveal_secret}
use go_adcore.Fake.Objects.{Object, Store, new_object, sid_text, zero_user}
use go_adcore.Fake.Actions.{Action, pure, gets, check, ◌>>=◌, ◌>>◌}
use go_adcore.Fake.Lookup.{eq_dn, next_guid, save, record_password, append_password}
use go_adcore.Fake.Classes.{
  Class, join_dn, refuse_taken, find_class, require_class, get_model, search_models, delete_object,
  finish_update, given,
}
use go_adcore.Models.{User, apply_time}
use go_adcore.Spec.{UserSpec, validate_user, new_error}
use go_adcore.Fake.Entries.{not_found_error}

abbrev pub user_name : Bytes
user_name = codes "user"

abbrev pub user_class : {T : Type 0} → Class T
user_class {T} = record { Model = User T; name = user_name; model = λ o. o.user }

-- `func applyUserSpec`
unfoldable pub apply_user : {T : Type 0} → User T → UserSpec T → User T
unfolding apply_time
apply_user m spec = record m {
  user_principal_name = given spec.user_principal_name m.user_principal_name;
  display_name = given spec.display_name m.display_name;
  given_name = given spec.given_name m.given_name;
  surname = given spec.surname m.surname;
  description = given spec.description m.description;
  enabled = given spec.enabled m.enabled;
  password_expires = given spec.password_expires m.password_expires;
  change_password_at_logon = given spec.change_password_at_logon m.change_password_at_logon;
  can_change_password = given spec.can_change_password m.can_change_password;
  account_expiration = apply_time spec.account_expiration m.account_expiration;
}

-- `name := old; if spec.Name != nil && *spec.Name != "" { name = *spec.Name }`
abbrev pub named : Option Bytes → Bytes → Bytes
named none old = old
named (some name) old = if is_nil name then old else name

-- the object that `Create` stores
abbrev pub new_user : {T : Type 0} → UserSpec T → Bytes → Bytes → Bytes → ℕ → Object T
new_user spec name guid dn seq = record (new_object guid dn user_name) {
  user =
      apply_user
        (record zero_user {
          guid = guid;
          dn = dn;
          name = name;
          sam_account_name = spec.sam_account_name;
          container = spec.container;
          password_expires = true;
          can_change_password = true;
          sid = sid_text seq;
        })
        spec;
}

-- the fields that `Update` sets on an object that it has moved
abbrev pub moved_user : {T : Type 0} → Bytes → Bytes → Bytes → Object T → Object T
moved_user dn name container x = record x {
  user = record x.user { dn = dn; name = name; container = container };
}

module _ (u : CaseFolding) {T : Type 0} where
  -- `func (f *fakeUser) Create`
  unfoldable pub create_user : UserSpec T → Action T (User T)
  unfolding refuse_taken next_guid record_password save
  create_user spec = do
    check (validate_user spec (codes "User.Create"))
    let name = named spec.name spec.sam_account_name
    let dn = join_dn (codes "CN=") name spec.container
    refuse_taken u (codes "User.Create") dn
    guid ← next_guid
    seq ← gets (λ (s : Store T). s.seq)
    record_password guid spec.password
    save dn (new_user spec name guid dn seq)
    pure (new_user spec name guid dn seq).user

  -- `func (f *fakeUser) Get`
  unfoldable pub get_user : Identity → Action T (User T)
  unfolding get_model
  get_user = get_model u user_class (codes "User.Get")

  -- `func (f *fakeUser) Search`
  unfoldable pub search_users : Query → Action T (List (User T))
  unfolding search_models
  search_users = search_models u user_class (codes "User.Search")

  -- the fields that `Update` takes over from the spec
  abbrev pub updated_user : UserSpec T → User T → User T
  updated_user spec m =
      apply_user
        (if is_nil spec.sam_account_name
          then m
          else record m { sam_account_name = spec.sam_account_name })
        spec

  -- `func (f *fakeUser) Update`
  unfoldable pub update_user : Identity → UserSpec T → Action T (User T)
  unfolding require_class record_password finish_update
  update_user id spec = do
    check (validate_user spec (codes "User.Update"))
    o ← require_class u user_name (codes "User.Update") id
    record_password o.guid spec.password
    let name = named spec.name o.user.name
    let new_dn = join_dn (codes "CN=") name spec.container
    let differs = not (equal name o.user.name) || not (eq_dn u spec.container o.user.container)
    moved ←
        finish_update u differs new_dn (moved_user new_dn name spec.container)
          (record o { user = updated_user spec o.user })
    pure moved.user

  -- `func (f *fakeUser) Delete`
  unfoldable pub delete_user : Identity → Action T Unit
  unfolding delete_object
  delete_user = delete_object u user_name

  -- `func (f *fakeUser) SetPassword`
  unfoldable pub set_password : Identity → Secret → Action T Unit
  unfolding find_class
  set_password id secret s =
      if Secret.is_zero secret
      then (
        err (
            new_error password (codes "User.SetPassword")
              (other (codes "an empty password cannot be set") nil)),
        s,
      )
      else elim (find_class u user_name id s) [
        | none ↦ (err (not_found_error (codes "User.SetPassword") id), s)
        | some o ↦ (ok tt, append_password s o.guid (reveal_secret secret))
      ]
