-- ===== src/Fake/Backend.antt =====
-- `New` and `NewRecording` of adcorefake/fake.go: the store as a directory, and its recorder.
use go_adcore.Common.{Bool, false, List, Option, none, some, Result, ok, err}
use go_adcore.Bytes.{Bytes, codes}
use go_adcore.Folding.{CaseFolding}
use go_adcore.Identity.{Identity}
use go_adcore.Errors.{GoError, nil}
use go_adcore.Directory.{Call, Effect, Directory}
use go_adcore.Acl.{Ace}
use go_adcore.Fake.Objects.{Store, new_store}
use go_adcore.Fake.Actions.{Action}
use go_adcore.Fake.Lookup.{find}
use go_adcore.Fake.Entries.{get_entries, grant, revoke}
use go_adcore.Fake.Schemas.{resolve}
use go_adcore.Fake.Directory.{edit_entries}
use go_adcore.Fake.Units.{create_ou, get_ou, search_ou, update_ou, delete_ou}
use go_adcore.Fake.Groups.{create_group, get_group, search_groups, update_group, delete_group}
use go_adcore.Fake.Users.{
  create_user, get_user, search_users, update_user, delete_user, set_password,
}
use go_adcore.Fake.Accounts.{create_gmsa, get_gmsa, search_gmsas, update_gmsa, delete_gmsa}
use go_adcore.Fake.Computers.{
  create_computer, get_computer, search_computers, update_computer, delete_computer,
}
use go_adcore.Fake.Members.{members, members_recursive, add_members, remove_members, is_member}

-- the value or nil, and the error
abbrev pub reply : {A : Type 0} → Result GoError A → Option A × GoError
reply (ok a) = (some a, nil)
reply (err e) = (none, e)

abbrev pub error_of : {A : Type 0} → Result GoError A → GoError
error_of (ok a) = nil
error_of (err e) = e

-- the slice of a walk that ends
abbrev pub walked : {A : Type 0} → Result GoError (Option A) → Option A × GoError
walked (ok found) = (found, nil)
walked (err e) = (none, e)

-- `return false, err`
abbrev pub answer : Result GoError Bool → Bool × GoError
answer (ok b) = (b, nil)
answer (err e) = (false, e)

module _ {T : Type 0} where
  abbrev pub calls : {A : Type 0} → Action T A → Call (Store T) A
  calls act s = let r = act s in (reply r.0, r.1)

  abbrev pub effects : {A : Type 0} → Action T A → Effect (Store T)
  effects act s = let r = act s in (error_of r.0, r.1)

module _ (u : CaseFolding) {T : Type 0} where
  -- `func (f *fakeACL) Get` on the store: the entries of the object that `findLocked` finds
  abbrev pub read_entries : Identity → Call (Store T) (List Ace)
  read_entries id s = elim (find u id s) [
    | none ↦ ((none, (get_entries u id none).1), s)
    | some o ↦ let (list, e) = get_entries u id (some o.dacl) in ((some list, e), s)
  ]

  -- `func NewRecording`: the directory, and the store behind it, which the recorder holds too
  unfoldable pub new_recording : Bytes → Directory (Store T) T × Store T
  new_recording dnc = (
    record {
      ou = record {
        create = λ spec. calls (create_ou u spec);
        get = λ id. calls (get_ou u id);
        search = λ q. calls (search_ou u q);
        update = λ id spec. calls (update_ou u id spec);
        delete = λ id opts. effects (delete_ou u id);
      };
      group = record {
        create = λ spec. calls (create_group u spec);
        get = λ id. calls (get_group u id);
        search = λ q. calls (search_groups u q);
        update = λ id spec. calls (update_group u id spec);
        delete = λ id. effects (delete_group u id);
        members = λ id. calls (members u id);
        members_recursive = λ id s. let r = members_recursive u id s in (walked r.0, r.1);
        add_members = λ id list. effects (add_members u id list);
        remove_members = λ id list. effects (remove_members u id list);
        is_member = λ id member s. let r = is_member u id member s in (answer r.0, r.1);
      };
      user = record {
        create = λ spec. calls (create_user u spec);
        get = λ id. calls (get_user u id);
        search = λ q. calls (search_users u q);
        update = λ id spec. calls (update_user u id spec);
        delete = λ id. effects (delete_user u id);
        set_password = λ id secret. effects (set_password u id secret);
      };
      service_account = record {
        create = λ spec. calls (create_gmsa u spec);
        get = λ id. calls (get_gmsa u id);
        search = λ q. calls (search_gmsas u q);
        update = λ id spec. calls (update_gmsa u id spec);
        delete = λ id. effects (delete_gmsa u id);
      };
      computer = record {
        create = λ spec. calls (create_computer u spec);
        get = λ id. calls (get_computer u id);
        search = λ q. calls (search_computers u q);
        update = λ id spec. calls (update_computer u id spec);
        delete = λ id. effects (delete_computer u id);
      };
      acl = record {
        get = read_entries;
        grant = λ id list. effects (edit_entries u (grant u id list) id);
        revoke = λ id list. effects (edit_entries u (revoke u id list) id);
      };
      schema = record { resolve = λ refs s. (reply (resolve refs), s) };
      server = codes "fake.corp.local";
      dnc = dnc;
      closer = some (λ s. (nil, s));
    },
    new_store dnc,
  )

  -- `func New`
  abbrev pub new_directory : Bytes → Directory (Store T) T
  new_directory dnc = (new_recording dnc).0

-- `func (r *Recorder) Passwords`: a copy of the map
abbrev pub recorded_passwords : {T : Type 0} → Store T → List (Bytes × List Bytes)
recorded_passwords s = s.passwords
