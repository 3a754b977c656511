-- ===== src/Fake/Conforming/Single.antt =====
-- The tests of adcoretest/suite.go with at most one unit, on the directory of adcorefake/.
use go_adcore.Common.{◌≡◌, ◌≢◌, refl, ap, ◌∙◌, List, [], ◌∷◌, some, ok, err, ℕ, zero, suc}
use go_adcore.Bytes.{Bytes, codes, equal}
use go_adcore.Folding.{CaseFolding}
use go_adcore.Errors.{nil, errors_is, GoError}
use go_adcore.Identity.{Identity, by_guid}
use go_adcore.Dn.{Dn}
use go_adcore.Dn.Parse.{parse_dn}
use go_adcore.Maps.{put, delete_key, equal_same}
use go_adcore.Spec.{validate_container, validate_name}
use go_adcore.Suite.{
  after, check_writes, nil_or, writer_spec, write_each, expect_each, writers, test_read_back,
  test_delete_verifies, test_delete_idempotent, test_write_serialization, run_test,
}
use go_adcore.Fake.Objects.{Object, Store, guid_text, new_store}
use go_adcore.Fake.Lookup.{find_in, count_children, remove, save}
use go_adcore.Fake.Classes.{find_class, require_class, get_model, finish_update}
use go_adcore.Fake.Entries.{not_found_error}
use go_adcore.Fake.Contract.{find_class-eq}
use go_adcore.Fake.Units.{unit_name, get_ou, delete_ou, update_ou}
use go_adcore.Fake.Backend.{new_recording, new_directory}
use go_adcore.Fake.Naming.{unit_dn, parse_unit_dn, eq_dn_refl}
use go_adcore.Fake.Conforming.{
  unit_at, with_units, one_unit, same_ou_refl, find_first, get_unit, create_first, run_test_lem,
}

module _ (u : CaseFolding) (T : Type 0) (dnc : Bytes) where
  pub read_back_passes :
      validate_container (codes "OU.Create") dnc ≡ nil
      → run_test (new_recording u {T = T} dnc) test_read_back ≡ []
  unfolding test_read_back new_recording
  read_back_passes v =
      let o = unit_at {T = T} 1 (codes "Staff") dnc in
      let s = one_unit dnc (codes "Staff") o in
      let got : get_ou u (by_guid o.guid) s ≡ (ok o.ou, s) =
        get_unit u (unit_dn (codes "Staff") dnc) o s [] refl refl in
      run_test_lem u T dnc test_read_back (
        rw (create_first u T dnc (codes "Staff") refl v, test_read_back)
          (rw got (rw (same_ou_refl o.ou) refl)))

  find_one :
      (name : Bytes)
      → find_class u unit_name
          (by_guid (guid_text 1))
          (one_unit {T = T} dnc name (unit_at 1 name dnc))
        ≡ some (unit_at 1 name dnc)
  find_one name =
      let o = unit_at {T = T} 1 name dnc in
      find_class-eq u unit_name (by_guid o.guid) (one_unit dnc name o) o
        (find_first u (unit_dn name dnc) o []) refl

  delete_one :
      (name : Bytes) (d : Dn)
      → parse_dn dnc ≡ ok d
      → d.rdns ≢ []
      → delete_ou u (by_guid (guid_text 1)) (one_unit {T = T} dnc name (unit_at 1 name dnc))
        ≡ (ok tt, with_units dnc 1 [])
  unfolding delete_ou count_children remove delete_key
  delete_one name d h ne =
      rw
        (
          find_one name,
          eq_dn_refl u (unit_dn name dnc) _ (parse_unit_dn name dnc d h ne),
          equal_same (unit_dn name dnc),
          delete_ou,
          count_children,
          remove,
          delete_key,
        )
        refl

  get_none :
      (id : Identity)
      → get_ou u id (with_units {T = T} dnc 1 [])
        ≡ (err (not_found_error (codes "OU.Get") id), with_units dnc 1 [])
  unfolding get_ou get_model require_class find_class find_in
  get_none id = refl

  pub delete_verifies_passes :
      (d : Dn)
      → parse_dn dnc ≡ ok d
      → d.rdns ≢ []
      → validate_container (codes "OU.Create") dnc ≡ nil
      → run_test (new_recording u {T = T} dnc) test_delete_verifies ≡ []
  unfolding test_delete_verifies new_recording not_found_error errors_is
  delete_verifies_passes d h ne v =
      let name = codes "Doomed" in
      run_test_lem u T dnc test_delete_verifies (
        rw (create_first u T dnc name refl v, test_delete_verifies)
          (rw (delete_one name d h ne) (rw (get_none (by_guid (guid_text 1))) refl)))

  pub delete_idempotent_passes : run_test (new_recording u {T = T} dnc) test_delete_idempotent ≡ []
  unfolding run_test test_delete_idempotent new_recording delete_ou find_class find_in new_store
      nil_or
  delete_idempotent_passes = refl

  -- the unit of the writers under a description
  abbrev described : Bytes → Object T
  described text =
      let o = unit_at {T = T} 1 (codes "Contended") dnc in
      record o { ou = record o.ou { description = text } }

  abbrev contended : Bytes → Store T
  contended text = one_unit dnc (codes "Contended") (described text)

  find_described :
      (text : Bytes)
      → find_class u unit_name (by_guid (guid_text 1)) (contended text) ≡ some (described text)
  find_described text =
      let o = described text in
      find_class-eq u unit_name (by_guid o.guid) (contended text) o
        (find_first u (unit_dn (codes "Contended") dnc) o []) refl

  write_one :
      (text : Bytes) (d : Dn)
      → parse_dn dnc ≡ ok d
      → validate_container (codes "OU.Update") dnc ≡ nil
      → update_ou u (by_guid (guid_text 1)) (writer_spec dnc) (contended text)
        ≡ (ok (described (codes "writer")).ou, contended (codes "writer"))
  unfolding update_ou validate_name require_class finish_update save put equal
  write_one text d h v =
      rw
        (
          v,
          find_described text,
          eq_dn_refl u dnc d h,
          equal_same (unit_dn (codes "Contended") dnc),
          update_ou,
          require_class,
          finish_update,
          save,
          put,
        )
        refl

  -- the errors of writers that all succeed
  abbrev nils : ℕ → List GoError
  nils zero = []
  nils (suc n) = nil ∷ nils n

  write_each_lem :
      (n : ℕ) (d : Dn)
      → parse_dn dnc ≡ ok d
      → validate_container (codes "OU.Update") dnc ≡ nil
      → write_each (new_directory u {T = T} dnc) (by_guid (guid_text 1)) (suc n) (contended [], [])
        ≡ (some (nils (suc n)), (contended (codes "writer"), []))
  unfolding write_each new_recording
  write_each_lem n d h v = rw (write_one [] d h v, write_each) (rw (again n) refl)
    where
      again :
          (n : ℕ)
          → write_each
              (new_directory u {T = T} dnc)
              (by_guid (guid_text 1))
              n
              (contended (codes "writer"), [])
            ≡ (some (nils n), (contended (codes "writer"), []))
      again zero = refl
      again (suc n) = rw (write_one (codes "writer") d h v, write_each) (rw (again n) refl)

  write_all :
      (d : Dn)
      → parse_dn dnc ≡ ok d
      → validate_container (codes "OU.Update") dnc ≡ nil
      → write_each
          (new_directory u {T = T} dnc)
          (by_guid (unit_at {T = T} 1 (codes "Contended") dnc).ou.guid)
          writers
          (one_unit dnc (codes "Contended") (unit_at 1 (codes "Contended") dnc), [])
        ≡ (some (nils writers), (contended (codes "writer"), []))
  write_all d h v = write_each_lem 5 d h v

  expect_each-nils : (n : ℕ) (s : Store T) → expect_each (nils n) (s, []) ≡ (some tt, (s, []))
  unfolding expect_each nil_or
  expect_each-nils zero s = refl
  expect_each-nils (suc n) s = expect_each-nils n s

  check_writes_lem :
      (errs : List GoError)
      → expect_each errs (contended (codes "writer"), [])
        ≡ (some tt, (contended (codes "writer"), []))
      → (check_writes
          (new_directory u {T = T} dnc)
          (by_guid (guid_text 1))
          errs
          (contended (codes "writer"), [])).1.1
        ≡ []
  unfolding check_writes new_recording equal
  check_writes_lem errs h =
      let o = described (codes "writer") in
      let s = contended (codes "writer") in
      let got : get_ou u (by_guid o.guid) s ≡ (ok o.ou, s) =
        get_unit u (unit_dn (codes "Contended") dnc) o s [] refl refl in
      rw (h, check_writes) (rw got refl)

  pub write_serialization_passes :
      (d : Dn)
      → parse_dn dnc ≡ ok d
      → validate_container (codes "OU.Create") dnc ≡ nil
      → validate_container (codes "OU.Update") dnc ≡ nil
      → run_test (new_recording u {T = T} dnc) test_write_serialization ≡ []
  unfolding test_write_serialization new_recording
  write_serialization_passes d h v w = run_test_lem u T dnc test_write_serialization (
      rw (create_first u T dnc (codes "Contended") refl v, test_write_serialization)
        (ap
            (λ r.
              (after (check_writes (new_directory u {T = T} dnc) (by_guid (guid_text 1))) r).1.1)
            (write_all d h w)
          ∙ check_writes_lem (nils writers)
              (expect_each-nils writers (contended (codes "writer")))))
