-- ===== src/Fake/Lookup.antt =====
-- The helpers of adcorefake/fake.go that read the store, and `resolvePrincipalsLocked` of
-- adcorefake/computer.go.
use go_adcore.Common.{
  ℕ, zero, suc, ◌+◌, ◌-◌, Bool, false, not, ◌&&◌, ◌||◌, List, [], ◌∷◌, ◌++◌, Option, none, some,
  leb, length, take, if◌then◌else◌, pos, Result, ok, err,
}
use go_adcore.Bytes.{Bytes, codes, equal, contains_byte}
use go_adcore.Folding.{CaseFolding, equal_fold}
use go_adcore.Identity
use go_adcore.Identity.{Identity}
use go_adcore.Errors.{not_found, already_exists, too_many_results, GoError, nil, other, adcore}
use go_adcore.Dn.Strings.{equal_fold_dn}
use go_adcore.Search.{Query, scope_base, scope_one_level}
use go_adcore.Secret
use go_adcore.Secret.{Secret, reveal_secret}
use go_adcore.Spec.{new_error}
use go_adcore.Maps
use go_adcore.Maps.{lookup, put}
use go_adcore.Fake.Objects.{Object, Store, guid_text}
use go_adcore.Fake.Actions.{Action}

-- `s[n:]`
abbrev pub drop : ℕ → Bytes → Bytes
drop zero s = s
drop (suc n) [] = []
drop (suc n) (c ∷ s) = drop n s

-- `strings.HasSuffix` and `strings.TrimSuffix`
unfoldable pub has_suffix : Bytes → Bytes → Bool
has_suffix s t = leb (length t) (length s) && equal (drop (length s - length t) s) t

unfoldable pub trim_suffix : Bytes → Bytes → Bytes
unfolding has_suffix
trim_suffix s t = if has_suffix s t then take (length s - length t) s else s

-- `func exists`
unfoldable pub exists_error : Bytes → Bytes → GoError
exists_error op dn =
    adcore
      (record {
        kind = already_exists;
        op = op;
        identity = [];
        exception_type = [];
        code = pos 0;
        server_message = [];
        fqid = [];
        target = dn;
        tombstoned = false;
      })
      (other (codes "%q already exists") nil)

-- `func tooMany`
unfoldable pub too_many_error : Bytes → GoError
too_many_error op =
    new_error too_many_results op
      (other (codes "more than %d objects matched; narrow the filter or raise the limit") nil)

module _ (u : CaseFolding) where
  -- `func eqDN`
  unfoldable pub eq_dn : Bytes → Bytes → Bool
  eq_dn a b = elim (equal_fold_dn u a b) [ ok eq ↦ eq | err e ↦ false ]

  -- the suffix test by which the fake tells what lies below `base`
  unfoldable pub is_below : Bytes → Bytes → Bool
  is_below dn base = has_suffix (u.to_lower dn) (b',' ∷ u.to_lower base)

  -- `func inScope`
  unfoldable pub in_scope : Bytes → Query → Bool
  in_scope dn q =
      let base = q.search_base in
      if equal q.scope scope_base
      then eq_dn dn base
      else if equal q.scope scope_one_level
      then (if eq_dn dn base
          then false
          else (let rest = trim_suffix (u.to_lower dn) (b',' ∷ u.to_lower base) in
              not (equal rest (u.to_lower dn)) && not (contains_byte rest b',')))
      else eq_dn dn base || is_below dn base

module _ (u : CaseFolding) {T : Type 0} where
  -- the test of `findLocked` for one entry
  unfoldable pub matches : Identity → Bytes → Object T → Bool
  matches id dn o =
      let arg = id.arg in
      let bare = trim_suffix arg (codes "$") in
      if equal id.form (codes "guid")
      then equal o.guid arg
      else if equal id.form (codes "dn")
      then eq_dn u dn arg
      else if equal id.form (codes "sam")
      then equal_fold u o.group.sam_account_name arg
        || equal_fold u o.user.sam_account_name arg
        || equal_fold u o.computer.sam_account_name bare
        || equal_fold u o.gmsa.sam_account_name bare
      else if equal id.form (codes "sid")
      then equal o.group.sid arg
        || equal o.user.sid arg
        || equal o.computer.sid arg
        || equal o.gmsa.sid arg
      else false

  -- `func (s *store) findLocked`; nil is `none`
  unfoldable pub find_in : List (Bytes × Object T) → Identity → Option (Object T)
  find_in [] id = none
  find_in ((dn, o) ∷ m) id = if matches id dn o then some o else find_in m id

  abbrev pub find : Identity → Store T → Option (Object T)
  find id s = find_in s.by_dn id

  -- the loop of each `Create` over the DNs that are taken
  unfoldable pub is_taken : List (Bytes × Object T) → Bytes → Bool
  is_taken [] dn = false
  is_taken ((have, o) ∷ m) dn = eq_dn u have dn || is_taken m dn

  -- `func (s *store) childrenLocked`
  unfoldable pub count_children : List (Bytes × Object T) → Bytes → ℕ
  count_children [] dn = 0
  count_children ((have, o) ∷ m) dn =
      (if eq_dn u have dn then 0 else if is_below u have dn then 1 else 0) + count_children m dn

  unfoldable pub resolve_each : Bytes → List Identity → Store T → Result GoError (List Bytes)
  resolve_each op [] s = ok []
  resolve_each op (id ∷ ids) s = elim (find id s) [
    | none ↦ err (
        adcore
          (record {
            kind = not_found;
            op = op;
            identity = Identity.to_string id;
            exception_type = [];
            code = pos 0;
            server_message = [];
            fqid = [];
            target = [];
            tombstoned = false;
          })
          (other (codes "principal %q does not exist") nil))
    | some o ↦ elim (resolve_each op ids s) [ err e ↦ err e | ok guids ↦ ok (o.guid ∷ guids) ]
  ]

  -- `func (s *store) resolvePrincipalsLocked`; a nil slice is `none`, and the nil result the empty list
  unfoldable pub resolve_principals : Bytes → Option (List Identity) → Action T (List Bytes)
  resolve_principals op none s = (ok [], s)
  resolve_principals op (some ids) s = (resolve_each op ids s, s)

-- `m[guid]`: nil where the key is missing
abbrev pub history : List (Bytes × List Bytes) → Bytes → List Bytes
history passwords guid = elim (lookup passwords guid) [ none ↦ [] | some l ↦ l ]

module _ {T : Type 0} where
  -- `func (s *store) nextGUID`
  unfoldable pub next_guid : Action T Bytes
  next_guid s = (ok (guid_text (s.seq + 1)), record s { seq = s.seq + 1 })

  abbrev pub append_password : Store T → Bytes → Bytes → Store T
  append_password s guid password = record s {
    passwords = put s.passwords guid (history s.passwords guid ++ password ∷ []);
  }

  -- `func (s *store) recordPasswordLocked`
  unfoldable pub record_password : Bytes → Option Secret → Action T Unit
  record_password guid none s = (ok tt, s)
  record_password guid (some p) s =
      (ok tt, if Secret.is_zero p then s else append_password s guid (reveal_secret p))

  -- `s.byDN[dn] = o`
  unfoldable pub save : Bytes → Object T → Action T Unit
  save dn o s = (ok tt, record s { by_dn = put s.by_dn dn o })

  -- `delete(s.byDN, dn)`
  unfoldable pub remove : Bytes → Action T Unit
  unfolding Maps.delete_key
  remove dn s = (ok tt, record s { by_dn = Maps.delete_key s.by_dn dn })
