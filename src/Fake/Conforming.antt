-- ===== src/Fake/Conforming.antt =====
-- The tests of adcoretest/suite.go on the directory of adcorefake/.
pub mod Single
pub mod Creating
pub mod Limiting
pub mod Renaming
pub mod Passing
use go_adcore.Common.{
  ℕ, ◌-◌, ◌+◌, ◌≡◌, ◌≢◌, refl, sym, ap, ◌∙◌, Bool, true, false, List, [], ◌∷◌, ok, err, some,
  Result, is_nil,
}
use go_adcore.Bytes.{Bytes, codes, trim_space}
use go_adcore.Folding.{CaseFolding}
use go_adcore.Identity.{by_guid}
use go_adcore.Errors.{nil}
use go_adcore.Maps.{put, equal_same}
use go_adcore.Models.{Ou}
use go_adcore.Dn.{Dn, RelativeDn}
use go_adcore.Dn.Parse.{ParseError, parse_dn}
use go_adcore.Spec.{OuSpec, validate_name, validate_container}
use go_adcore.Spec.Validity.{validate_container_iff}
use go_adcore.Directory.{Directory}
use go_adcore.Suite.{Test, run_test, ◌>>=◌, nil_or, same_bool, same_ou, unit_spec, must_create_ou}
use go_adcore.Fake.Objects.{Object, Store, guid_text, new_store}
use go_adcore.Fake.Lookup.{find_in, is_taken, next_guid, save}
use go_adcore.Fake.Classes.{refuse_taken}
use go_adcore.Fake.Contract.{get_model_lem}
use go_adcore.Fake.Units.{unit_name, unit_class, new_unit, create_ou, get_ou}
use go_adcore.Fake.Invariant.{matches-by_guid}
use go_adcore.Fake.Backend.{new_recording, new_directory}
use go_adcore.Fake.Naming.{unit_dn}

-- the object that `Create` makes of a spec of the suite
abbrev pub unit_at : {T : Type 0} → ℕ → Bytes → Bytes → Object T
unit_at n name container =
    new_unit (unit_spec name container) (guid_text n) (unit_dn name container)

abbrev pub with_units : {T : Type 0} → Bytes → ℕ → List (Bytes × Object T) → Store T
with_units dnc n by_dn = record { dnc = dnc; by_dn = by_dn; seq = n; passwords = [] }

-- the store of one unit
abbrev pub one_unit : {T : Type 0} → Bytes → Bytes → Object T → Store T
one_unit dnc name o = with_units dnc 1 ((unit_dn name dnc, o) ∷ [])

abbrev pub rdns_of : Result ParseError Dn → List RelativeDn
rdns_of (ok d) = d.rdns
rdns_of (err e) = []

pub container_valid :
    (op container : Bytes) (d : Dn)
    → parse_dn container ≡ ok d
    → d.rdns ≢ []
    → validate_container op container ≡ nil
unfolding parse_dn trim_space
container_valid op container d h ne =
    (validate_container_iff op container).1
      (record { not_empty = not_empty container h; dn = d; parses = h })
  where
    not_empty : (c : Bytes) → parse_dn c ≡ ok d → c ≢ []
    not_empty [] h e = ne (ap rdns_of (sym h))
    not_empty (c ∷ s) h e = cc

pub same_ou_refl : (m : Ou) → same_ou m m ≡ true
unfolding same_ou same_bool
same_ou_refl m =
    rw
      (
        equal_same m.guid,
        equal_same m.dn,
        equal_same m.name,
        equal_same m.container,
        equal_same m.description,
      )
      (same m.protected)
  where
    same : (b : Bool) → same_bool b b ≡ true
    same true = refl
    same false = refl

module _ (u : CaseFolding) {T : Type 0} where
  pub find_first :
      (k : Bytes) (o : Object T) (m : List (Bytes × Object T))
      → find_in u ((k, o) ∷ m) (by_guid o.guid) ≡ some o
  unfolding find_in
  find_first k o m = rw (matches-by_guid u o.guid k o, equal_same o.guid) refl

  -- `Get` of the unit at the head of the store
  pub get_unit :
      (k : Bytes) (o : Object T) (s : Store T) (m : List (Bytes × Object T))
      → s.by_dn ≡ (k, o) ∷ m
      → o.class ≡ unit_name
      → get_ou u (by_guid o.guid) s ≡ (ok o.ou, s)
  unfolding get_ou
  get_unit k o s m h c =
      get_model_lem u unit_class (codes "OU.Get") (by_guid o.guid) s o
        (ap (λ l. find_in u l (by_guid o.guid)) h ∙ find_first k o m) c

  pub create_unit :
      (s : Store T) (name container : Bytes)
      → is_nil name ≡ false
      → validate_container (codes "OU.Create") container ≡ nil
      → is_taken u s.by_dn (unit_dn name container) ≡ false
      → create_ou u (unit_spec name container) s ≡ (
        ok (unit_at {T = T} (s.seq + 1) name container).ou,
        record s {
          by_dn = put s.by_dn (unit_dn name container) (unit_at (s.seq + 1) name container);
          seq = s.seq + 1;
        },
      )
  unfolding create_ou refuse_taken next_guid save validate_name
  create_unit s name container h v free = rw (h, v, free, create_ou) refl

  -- `mustCreateOU` hands on what `Create` returns.
  pub must_create-ok :
      (dnc : Bytes) (spec : OuSpec) (m : Ou) (s s' : Store T) (log : List Bytes)
      → create_ou u spec s ≡ (ok m, s')
      → must_create_ou (new_directory u {T = T} dnc) spec (s, log) ≡ (some m, (s', log))
  unfolding must_create_ou new_recording nil_or
  must_create-ok dnc spec m s s' log h = rw (h, must_create_ou) refl

module _ (u : CaseFolding) (T : Type 0) (dnc : Bytes) where
  -- The first `Create` on the empty store
  pub create_first :
      (name : Bytes)
      → is_nil name ≡ false
      → validate_container (codes "OU.Create") dnc ≡ nil
      → must_create_ou (new_directory u {T = T} dnc) (unit_spec name dnc) (new_store dnc, [])
        ≡ (some (unit_at {T = T} 1 name dnc).ou, (one_unit dnc name (unit_at 1 name dnc), []))
  unfolding new_store is_taken put
  create_first name n v =
      must_create-ok u dnc (unit_spec name dnc) (unit_at {T = T} 1 name dnc).ou (new_store dnc)
        (one_unit dnc name (unit_at 1 name dnc)) []
        (create_unit u {T = T} (new_store dnc) name dnc n v refl)

  pub run_test_lem :
      (test : Directory (Store T) T → Test (Store T) Unit)
      → (test (new_directory u {T = T} dnc) (new_store dnc, [])).1.1 ≡ []
      → run_test (new_recording u {T = T} dnc) test ≡ []
  unfolding run_test new_recording
  run_test_lem test h = h
