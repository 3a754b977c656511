-- ===== src/Fake/Conforming/Renaming.antt =====
-- `testRenameMoveInPlace` of adcoretest/suite.go on the directory of adcorefake/.
use go_adcore.Common.{◌≡◌, ◌≢◌, refl, ap, ◌∙◌, false, [], ◌∷◌, ok, some, arith}
use go_adcore.Bytes.{Bytes, codes, equal}
use go_adcore.Folding.{CaseFolding, KeepsAscii, equal_fold-apart}
use go_adcore.Errors.{nil}
use go_adcore.Identity.{by_guid}
use go_adcore.Dn.{Dn}
use go_adcore.Dn.Parse.{parse_dn}
use go_adcore.Maps.{equal_same}
use go_adcore.Spec.{validate_container, validate_name}
use go_adcore.Suite.{unit_spec, nil_or, check_move, test_rename_move_in_place, run_test}
use go_adcore.Fake.Objects.{Store, guid_text, digits, padded}
use go_adcore.Fake.Lookup.{find_in, save}
use go_adcore.Fake.Moving.{move_object}
use go_adcore.Fake.Classes.{find_class, require_class, finish_update, relabelled}
use go_adcore.Fake.Contract.{find_class-eq}
use go_adcore.Fake.Units.{unit_name, update_ou, moved_ou}
use go_adcore.Fake.Invariant.{matches-by_guid}
use go_adcore.Fake.Backend.{new_recording, reply}
use go_adcore.Fake.Naming.{unit_dn, parse_unit_dn}
use go_adcore.Fake.Conforming.{
  unit_at, with_units, find_first, container_valid, create_first, run_test_lem,
}
use go_adcore.Fake.Conforming.Creating.{entry, create_second, valid}

module _ (u : CaseFolding) (T : Type 0) (dnc : Bytes) (d : Dn) (h : parse_dn dnc ≡ ok d)
    (ne : d.rdns ≢ []) where
  abbrev parent_and_child : Store T
  parent_and_child =
      with_units dnc 2
        (entry u T dnc d h ne 1 (codes "Parent") ∷ entry u T dnc d h ne 2 (codes "Before") ∷ [])

  first_apart : equal (guid_text 1) (guid_text 2) ≡ false
  unfolding guid_text digits padded equal
  first_apart = refl

  find_child :
      find_class u unit_name (by_guid (guid_text 2)) parent_and_child
      ≡ some (unit_at 2 (codes "Before") dnc)
  unfolding find_in
  find_child =
      let parent = unit_at {T = T} 1 (codes "Parent") dnc in
      find_class-eq u unit_name (by_guid (guid_text 2)) parent_and_child
        (unit_at 2 (codes "Before") dnc)
        (rw (matches-by_guid u (guid_text 2) (unit_dn (codes "Parent") dnc) parent, first_apart)
          (find_first u (unit_dn (codes "Before") dnc) (unit_at 2 (codes "Before") dnc) []))
        refl

  moved_after :
      let parent = unit_at {T = T} 1 (codes "Parent") dnc in
      let child = unit_at {T = T} 2 (codes "Before") dnc in
      let s : Store T =
        with_units dnc 2 (
          entry u T dnc d h ne 1 (codes "Parent") ∷ entry u T dnc d h ne 2 (codes "Before") ∷ []) in
      (update_ou u (by_guid child.guid) (unit_spec (codes "After") parent.dn) s).0
      ≡ ok (record child.ou {
        dn = unit_dn (codes "After") parent.dn;
        name = codes "After";
        container = parent.dn;
      })
  unfolding update_ou validate_name require_class finish_update save relabelled move_object equal
  moved_after =
      let valid_parent : validate_container (codes "OU.Update") (unit_dn (codes "Parent") dnc)
          ≡ nil =
        container_valid (codes "OU.Update") (unit_dn (codes "Parent") dnc) _
          (parse_unit_dn (codes "Parent") dnc d h ne) (λ e. cc) in
      rw
        (
          valid_parent, find_child, update_ou, require_class, finish_update, save, relabelled,
          move_object,
        )
        refl

  check_moved :
      (s : Store T)
      → (check_move
          (unit_at {T = T} 1 (codes "Parent") dnc).ou
          (unit_at {T = T} 2 (codes "Before") dnc).ou
          (reply (
            ok
              (moved_ou
                (unit_dn (codes "After") (unit_dn (codes "Parent") dnc))
                (codes "After")
                (unit_dn (codes "Parent") dnc)
                (unit_at {T = T} 2 (codes "Before") dnc)).ou))
          (s, [])).1.1
        ≡ []
  unfolding check_move nil_or equal
  check_moved s =
      rw (equal_same (guid_text 2), equal_same (unit_dn (codes "Parent") dnc), check_move) refl

  pub rename_move_passes :
      KeepsAscii u → run_test (new_recording u {T = T} dnc) test_rename_move_in_place ≡ []
  unfolding test_rename_move_in_place new_recording equal
  rename_move_passes k =
      let parent = (unit_at {T = T} 1 (codes "Parent") dnc).ou in
      let child = (unit_at {T = T} 2 (codes "Before") dnc).ou in
      let after_move : Store T =
        (update_ou u (by_guid child.guid) (unit_spec (codes "After") parent.dn)
          parent_and_child).1 in
      run_test_lem u T dnc test_rename_move_in_place (
        rw
          (
            create_first u T dnc (codes "Parent") refl (valid u T dnc d h ne (codes "OU.Create")),
            test_rename_move_in_place,
          )
          (rw
            (create_second u T dnc d h ne (codes "Parent") (codes "Before") refl (
              equal_fold-apart u k (codes "Parent") (codes "Before") (omega arith) (omega arith)
                refl))
            (ap (λ r. (check_move parent child (reply r) (after_move, [])).1.1) moved_after
              ∙ check_moved after_move)))
