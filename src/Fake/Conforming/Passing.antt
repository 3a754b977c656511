-- ===== src/Fake/Conforming/Passing.antt =====
-- `RunDirectorySuite` of adcoretest/suite.go on `New` of adcorefake/fake.go.
use go_adcore.Common.{◌≡◌, ◌≢◌, [], All, ok}
use go_adcore.Bytes.{Bytes, codes}
use go_adcore.Folding.{CaseFolding, KeepsAscii}
use go_adcore.Dn.{Dn}
use go_adcore.Dn.Parse.{parse_dn}
use go_adcore.Suite.{run_directory_suite}
use go_adcore.Fake.Backend.{new_recording}
use go_adcore.Fake.Conforming.{container_valid}
use go_adcore.Fake.Conforming.Single.{
  read_back_passes, delete_verifies_passes, delete_idempotent_passes, write_serialization_passes,
}
use go_adcore.Fake.Conforming.Limiting.{search_limit_passes}
use go_adcore.Fake.Conforming.Renaming.{rename_move_passes}

-- Whatever the domain's DN, if it parses to a DN that is not empty, and whatever case folding keeps
-- ASCII text: no test of the conformance suite reports a failure on a new in-memory directory.
pub run_directory_suite-new_recording :
    (u : CaseFolding) (T : Type 0) (dnc : Bytes) (d : Dn)
    → KeepsAscii u
    → parse_dn dnc ≡ ok d
    → d.rdns ≢ []
    → All (λ t. t.1 ≡ []) (run_directory_suite (new_recording u {T = T} dnc))
unfolding run_directory_suite
run_directory_suite-new_recording u T dnc d k h ne =
    let create = container_valid (codes "OU.Create") dnc d h ne in
    let update = container_valid (codes "OU.Update") dnc d h ne in
    (
      read_back_passes u T dnc create,
      (
        delete_verifies_passes u T dnc d h ne create,
        (
          delete_idempotent_passes u T dnc,
          (
            write_serialization_passes u T dnc d h create update,
            (search_limit_passes u T dnc d h ne k, (rename_move_passes u T dnc d h ne k, tt)),
          ),
        ),
      ),
    )
