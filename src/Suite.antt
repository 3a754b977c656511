-- ===== src/Suite.antt =====
-- adcoretest/suite.go: the conformance suite, for any directory. A test reads and writes the world of
-- the directory and keeps the messages of its failures; it ends early where the code calls `t.Fatalf`.
use go_adcore.Common.{
  ℕ, zero, suc, Bool, true, false, not, ◌&&◌, List, [], ◌∷◌, ◌++◌, Option, none, some,
  if◌then◌else◌, pos,
}
use go_adcore.Bytes.{Bytes, codes, equal}
use go_adcore.Identity.{Identity, by_guid}
use go_adcore.Errors.{
  Kind, not_found, replication, too_many_results, same_kind, GoError, nil, other, adcore, errors_is,
  errors_as,
}
use go_adcore.Errors
use go_adcore.Models.{Ou, string_pointer}
use go_adcore.Spec.{OuSpec}
use go_adcore.Directory.{Directory, close}

abbrev pub Test : Type 0 → Type 0 → Type 0
Test W A = W × List Bytes → Option A × (W × List Bytes)

module _ {W A : Type 0} where
  abbrev pub pure : A → Test W A
  pure a s = (some a, s)

  -- `t.Fatalf`, or a panic
  abbrev pub fatal : Bytes → Test W A
  fatal text s = (none, (s.0, s.1 ++ text ∷ []))

  -- a call of the directory
  abbrev pub call : (W → A × W) → Test W A
  call f s = let r = f s.0 in (some r.0, (r.1, s.1))

abbrev pub after :
    {W A B : Type 0} → (A → Test W B) → Option A × (W × List Bytes) → Option B × (W × List Bytes)
after f (none, s) = (none, s)
after f (some a, s) = f a s

infixl 5 ◌>>=◌ ◌>>◌
abbrev pub ◌>>=◌ : {W A B : Type 0} → Test W A → (A → Test W B) → Test W B
◌>>=◌ m f s = after f (m s)

abbrev pub ◌>>◌ : {W A B : Type 0} → Test W A → Test W B → Test W B
m >> k = m >>= λ _. k

-- `if !ok { t.Fatalf(text) }` and `if !ok { t.Errorf(text) }`
abbrev pub require : {W : Type 0} → Bool → Bytes → Test W Unit
require ok text s = if ok then (some tt, s) else (none, (s.0, s.1 ++ text ∷ []))

abbrev pub expect : {W : Type 0} → Bool → Bytes → Test W Unit
expect ok text s = (some tt, if ok then s else (s.0, s.1 ++ text ∷ []))

abbrev pub is_nil_error : GoError → Bool
is_nil_error nil = true
is_nil_error (other text w) = false
is_nil_error (adcore i w) = false
is_nil_error (Errors.GoError.sentinel k) = false
is_nil_error (Errors.GoError.joined text v w) = false

-- `!(err != nil && !errors.Is(err, target))`
unfoldable pub nil_or : Kind → GoError → Bool
nil_or k e = not (not (is_nil_error e) && not (errors_is e k))

-- `==` on OUs
unfoldable pub same_bool : Bool → Bool → Bool
same_bool a b = if a then b else not b

unfoldable pub same_ou : Ou → Ou → Bool
unfolding same_bool
same_ou a b =
    equal a.guid b.guid
    && equal a.dn b.dn
    && equal a.name b.name
    && equal a.container b.container
    && equal a.description b.description
    && same_bool a.protected b.protected

abbrev pub unit_spec : Bytes → Bytes → OuSpec
unit_spec name container = record {
  name = name;
  container = container;
  description = none;
  protected = none;
}

-- what a nil pointer is followed by
abbrev pub nil_pointer : Bytes
nil_pointer = codes "invalid memory address or nil pointer dereference"

abbrev pub deref : {W A : Type 0} → Option A → Bytes → Test W A
deref none text = fatal text
deref (some a) text = pure a

abbrev pub writer_spec : Bytes → OuSpec
writer_spec dnc = record (unit_spec (codes "Contended") dnc) {
  description = string_pointer (codes "writer");
}

-- the loop over the errors
unfoldable pub expect_each : {W : Type 0} → List GoError → Test W Unit
unfolding nil_or
expect_each [] = pure tt
expect_each (e ∷ errs) = do expect (nil_or replication e) (codes "writer %d: %v"); expect_each errs

abbrev pub writers : ℕ
writers = 6

abbrev pub is_too_many : GoError → Bool
is_too_many e = elim (errors_as e) [
  | none ↦ false
  | some found ↦ same_kind found.0.kind too_many_results
]

-- what follows the call of `Update`
unfoldable pub check_move : {W : Type 0} → Ou → Ou → Option Ou × GoError → Test W Unit
unfolding nil_or
check_move parent child r = do
  require (nil_or replication r.1) (codes "Update (rename + move): %v")
  moved ← deref r.0 nil_pointer
  expect (equal moved.guid child.guid)
      (codes "objectGUID changed across rename+move: %q -> %q; the object was replaced")
  expect (equal moved.name (codes "After")) (codes "Name = %q, want %q")
  expect (equal moved.container parent.dn) (codes "Container = %q, want %q")

module _ {W T : Type 0} where
  -- `func mustCreateOU`
  unfoldable pub must_create_ou : Directory W T → OuSpec → Test W Ou
  unfolding nil_or
  must_create_ou d spec = do
    r ← call (d.ou.create spec)
    require (nil_or replication r.1) (codes "Create %q: %v")
    deref r.0 (codes "Create %q returned no model")

  -- `func testReadBack`
  unfoldable pub test_read_back : Directory W T → Test W Unit
  unfolding must_create_ou same_ou
  test_read_back d = do
    created ← must_create_ou d (unit_spec (codes "Staff") d.dnc)
    r ← call (d.ou.get (by_guid created.guid))
    require (is_nil_error r.1) (codes "Get: %v")
    got ← deref r.0 nil_pointer
    expect (same_ou got created) (codes "Create returned %+v but Get returns %+v")

  -- `func testDeleteVerifies`
  unfoldable pub test_delete_verifies : Directory W T → Test W Unit
  unfolding must_create_ou
  test_delete_verifies d = do
    ou ← must_create_ou d (unit_spec (codes "Doomed") d.dnc)
    e ← call (d.ou.delete (by_guid ou.guid) (record { unprotect = true }))
    require (is_nil_error e) (codes "Delete: %v")
    r ← call (d.ou.get (by_guid ou.guid))
    expect (errors_is r.1 not_found)
        (codes "Delete returned nil but the object is still readable: %v")

  -- `func testDeleteIdempotent`
  unfoldable pub test_delete_idempotent : Directory W T → Test W Unit
  unfolding nil_or
  test_delete_idempotent d = do
    e ← call (
        d.ou.delete (by_guid (codes "00000000-0000-0000-0000-000000000000"))
          (record { unprotect = false }))
    require (nil_or not_found e) (codes "Delete of a missing object: %v")

  -- The goroutines of the writers: each call of `Update` takes effect as one, and since all are the
  -- same call, their order does not matter.
  unfoldable pub write_each : Directory W T → Identity → ℕ → Test W (List GoError)
  write_each d id zero = pure []
  write_each d id (suc writers) = do
    r ← call (d.ou.update id (writer_spec d.dnc))
    errs ← write_each d id writers
    pure (r.1 ∷ errs)

  -- what follows `wg.Wait()`
  unfoldable pub check_writes : Directory W T → Identity → List GoError → Test W Unit
  unfolding expect_each
  check_writes d id errs = do
    expect_each errs
    r ← call (d.ou.get id)
    require (is_nil_error r.1) (codes "Get after concurrent updates: %v")
    final ← deref r.0 nil_pointer
    expect (equal final.description (codes "writer"))
        (codes "Description = %q after serialized writes, want %q")

  -- `func testWriteSerialization`
  unfoldable pub test_write_serialization : Directory W T → Test W Unit
  unfolding must_create_ou write_each check_writes
  test_write_serialization d = do
    ou ← must_create_ou d (unit_spec (codes "Contended") d.dnc)
    errs ← write_each d (by_guid ou.guid) writers
    check_writes d (by_guid ou.guid) errs

  -- the loop over the names
  unfoldable pub create_each : Directory W T → List Bytes → Test W Unit
  unfolding must_create_ou
  create_each d [] = pure tt
  create_each d (name ∷ names) = do must_create_ou d (unit_spec name d.dnc); create_each d names

  -- `func testSearchLimit`
  unfoldable pub test_search_limit : Directory W T → Test W Unit
  unfolding create_each
  test_search_limit d = do
    create_each d (codes "L1" ∷ codes "L2" ∷ codes "L3" ∷ [])
    r ←
        call (
          d.ou.search (record { filter = []; search_base = d.dnc; scope = []; size_limit = pos 2 }))
    require (is_too_many r.1) (codes "want KindTooManyResults, got %#v")

  -- `func testRenameMoveInPlace`
  unfoldable pub test_rename_move_in_place : Directory W T → Test W Unit
  unfolding must_create_ou check_move
  test_rename_move_in_place d = do
    parent ← must_create_ou d (unit_spec (codes "Parent") d.dnc)
    child ← must_create_ou d (unit_spec (codes "Before") d.dnc)
    r ← call (d.ou.update (by_guid child.guid) (unit_spec (codes "After") parent.dn))
    check_move parent child r

  -- `t.Run` on a directory over an empty domain, with the deferred `d.Close()`: the failures
  unfoldable pub run_test : Directory W T × W → (Directory W T → Test W Unit) → List Bytes
  run_test fresh test =
      let (result, (w, failures)) = test fresh.0 (fresh.1, []) in
      let (e, w') = close fresh.0 w in failures

  -- `func RunDirectorySuite`: the failures of each test
  unfoldable pub run_directory_suite : Directory W T × W → List (Bytes × List Bytes)
  unfolding run_test test_read_back test_delete_verifies test_delete_idempotent
      test_write_serialization test_search_limit test_rename_move_in_place
  run_directory_suite fresh =
      (codes "CreateReturnsWhatGetReturns", run_test fresh test_read_back)
      ∷ (codes "DeleteVerifiesAbsence", run_test fresh test_delete_verifies)
      ∷ (codes "NotFoundOnDeleteIsSuccess", run_test fresh test_delete_idempotent)
      ∷ (codes "WritesToOneIdentitySerialize", run_test fresh test_write_serialization)
      ∷ (codes "SearchErrorsRatherThanTruncating", run_test fresh test_search_limit)
      ∷ (codes "RenameAndMoveNeverReplace", run_test fresh test_rename_move_in_place)
      ∷ []
