-- ===== src/Fake/Conforming/Limiting.antt =====
-- `testSearchLimit` of adcoretest/suite.go on the directory of adcorefake/.
use go_adcore.Common.{
  ◌≡◌, ◌≢◌, ◌<◌, refl, true, [], ◌∷◌, ◌++◌, All, ok, err, some, is_nil, arith, pos, Bool-cases, inl,
  inr,
}
use go_adcore.Bytes.{Bytes, codes, equal, contains_byte}
use go_adcore.Folding.{CaseFolding, KeepsAscii, equal_fold-apart}
use go_adcore.Errors.{errors_as, same_kind}
use go_adcore.Search.{Query, scope_subtree, with_defaults}
use go_adcore.Dn.{Dn}
use go_adcore.Dn.Render.{escape_value, escape_byte}
use go_adcore.Dn.Parse.{parse_dn}
use go_adcore.Suite.{create_each, test_search_limit, run_test}
use go_adcore.Fake.Objects.{Store, new_store}
use go_adcore.Fake.Lookup.{in_scope, too_many_error}
use go_adcore.Fake.Classes.{search_models, select}
use go_adcore.Fake.Units.{search_ou}
use go_adcore.Fake.Backend.{new_recording, new_directory}
use go_adcore.Fake.Naming.{unit_dn, unit_dn-is_below}
use go_adcore.Fake.Conforming.{with_units, create_first, run_test_lem}
use go_adcore.Fake.Conforming.Creating.{entry, create_second, create_third, valid}

module _ (u : CaseFolding) (T : Type 0) (dnc : Bytes) (d : Dn) (h : parse_dn dnc ≡ ok d)
    (ne : d.rdns ≢ []) (k : KeepsAscii u) where
  create_three :
      create_each
        (new_directory u {T = T} dnc)
        (codes "L1" ∷ codes "L2" ∷ codes "L3" ∷ [])
        (new_store dnc, [])
      ≡ (
        some tt,
        (
          with_units dnc 3 (
              entry u T dnc d h ne 1 (codes "L1")
              ∷ entry u T dnc d h ne 2 (codes "L2")
              ∷ entry u T dnc d h ne 3 (codes "L3")
              ∷ []),
          [],
        ),
      )
  unfolding create_each new_recording equal
  create_three =
      let l1 = codes "L1" in
      let l2 = codes "L2" in
      let l3 = codes "L3" in
      rw (create_first u T dnc l1 refl (valid u T dnc d h ne (codes "OU.Create")), create_each)
        (rw
          (create_second u T dnc d h ne l1 l2 refl
            (equal_fold-apart u k l1 l2 (omega arith) (omega arith) refl))
          (rw
            (create_third u T dnc d h ne l1 l2 l3 refl
              (equal_fold-apart u k l1 l3 (omega arith) (omega arith) refl)
              (equal_fold-apart u k l2 l3 (omega arith) (omega arith) refl))
            refl))

  -- the query of the test
  abbrev query : Query
  query = record { filter = []; search_base = dnc; scope = []; size_limit = pos 2 }

  with_defaults-query : with_defaults query dnc ≡ record query { scope = scope_subtree }
  unfolding with_defaults
  with_defaults-query = elim (Bool-cases (is_nil dnc)) [ inl e ↦ rw e refl | inr e ↦ rw e refl ]

  in_scope-entry :
      (name : Bytes)
      → All (λ c. c < 128) (codes "OU=" ++ escape_value name)
      → in_scope u (unit_dn name dnc) (record query { scope = scope_subtree }) ≡ true
  unfolding in_scope equal
  in_scope-entry name a = ground (arith, unit_dn-is_below u name dnc k a)

  search_three :
      let s : Store T = with_units dnc 3 (
        entry u T dnc d h ne 1 (codes "L1")
        ∷ entry u T dnc d h ne 2 (codes "L2")
        ∷ entry u T dnc d h ne 3 (codes "L3")
        ∷ []) in
      search_ou u query s ≡ (err (too_many_error (codes "OU.Search")), s)
  unfolding search_ou search_models select equal escape_value escape_byte contains_byte
  search_three =
      rw
        (
          with_defaults-query,
          in_scope-entry (codes "L1") (omega arith),
          in_scope-entry (codes "L2") (omega arith),
          in_scope-entry (codes "L3") (omega arith),
          search_ou,
          search_models,
          select,
        )
        refl

  pub search_limit_passes : run_test (new_recording u {T = T} dnc) test_search_limit ≡ []
  unfolding test_search_limit new_recording too_many_error errors_as same_kind
  search_limit_passes =
      run_test_lem u T dnc test_search_limit
        (rw (create_three, test_search_limit) (rw (search_three) refl))
