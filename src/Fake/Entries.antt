-- ===== src/Fake/Entries.antt =====
-- adcorefake/acl.go: the entries of one object, which is `none` where `findLocked` finds no
-- object. The two locks of an operation are held for the whole of it.
use go_adcore.Common.{true, false, not, ◌&&◌, List, [], ◌∷◌, ◌++◌, Option, none, some, map, pos}
use go_adcore.Bytes.{Bytes, codes}
use go_adcore.Folding.{CaseFolding}
use go_adcore.Identity
use go_adcore.Identity.{Identity}
use go_adcore.Errors.{not_found, GoError, nil, other, adcore}
use go_adcore.Maps.{has_key}
use go_adcore.Acl.{Ace, canonical_ace_key}

-- `func notFound` of adcorefake/fake.go
unfoldable pub not_found_error : Bytes → Identity → GoError
not_found_error op id =
    adcore
      (record {
        kind = not_found;
        op = op;
        identity = Identity.to_string id;
        exception_type = [];
        code = pos 0;
        server_message = [];
        fqid = [];
        target = [];
        tombstoned = false;
      })
      (other (codes "no object matches %s") nil)

module _ (u : CaseFolding) where
  -- the loops that fill `seen` and `drop`
  abbrev pub entry_keys : List Ace → List Bytes
  entry_keys = map (canonical_ace_key u)

  -- the loop of `Grant` over `list`
  unfoldable pub grant_each : List Bytes → List Ace → List Ace → List Ace
  grant_each seen dacl [] = dacl
  grant_each seen dacl (a ∷ list) = elim (has_key seen (canonical_ace_key u a)) [
    | true ↦ grant_each seen dacl list
    | false ↦
        grant_each (seen ++ canonical_ace_key u a ∷ [])
          (dacl ++ record a { inherited = false } ∷ []) list
  ]

  -- the loop of `Revoke` over `o.dacl`
  unfoldable pub keep_each : List Bytes → List Ace → List Ace
  keep_each drop [] = []
  keep_each drop (a ∷ dacl) = elim (has_key drop (canonical_ace_key u a) && not a.inherited) [
    | true ↦ keep_each drop dacl
    | false ↦ a ∷ keep_each drop dacl
  ]

  -- `func (f *fakeACL) Get`
  unfoldable pub get_entries : Identity → Option (List Ace) → List Ace × GoError
  get_entries id none = ([], not_found_error (codes "ACL.Get") id)
  get_entries id (some dacl) = (dacl, nil)

  -- `func (f *fakeACL) Grant`: the entries after it, and the error
  unfoldable pub grant : Identity → List Ace → Option (List Ace) → Option (List Ace) × GoError
  grant id [] found = (found, nil)
  grant id (a ∷ list) none = (none, not_found_error (codes "ACL.Grant") id)
  grant id (a ∷ list) (some dacl) = (some (grant_each (entry_keys dacl) dacl (a ∷ list)), nil)

  -- `func (f *fakeACL) Revoke`: the entries after it, and the error
  unfoldable pub revoke : Identity → List Ace → Option (List Ace) → Option (List Ace) × GoError
  revoke id [] found = (found, nil)
  revoke id (a ∷ list) none = (none, not_found_error (codes "ACL.Revoke") id)
  revoke id (a ∷ list) (some dacl) = (some (keep_each (entry_keys (a ∷ list)) dacl), nil)
