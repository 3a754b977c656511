-- ===== src/Tests/Conformance.antt =====
-- The conformance suite of adcoretest/suite.go on a directory of adcorefake/ over one domain.
use mathlib.Core.List.{map-append}
use go_adcore.Common.{ℕ, ◌≡◌, refl, [], ◌∷◌, ok, All}
use go_adcore.Bytes.{codes, trim_space, contains_byte}
use go_adcore.Folding.{KeepsAscii, ascii, equal_fold, lower_ascii}
use go_adcore.Dn.{Dn}
use go_adcore.Dn.Joining.{single}
use go_adcore.Dn.Parse.{parse_dn, run, step, is_hex_digit, parse_uint_16, end_rdn, finish}
use go_adcore.Suite.{run_directory_suite}
use go_adcore.Fake.Backend.{new_recording}
use go_adcore.Fake.Conforming.Passing.{run_directory_suite-new_recording}

ascii-KeepsAscii : KeepsAscii ascii
unfolding equal_fold
ascii-KeepsAscii = record {
  fold_ascii = λ s t hs ht. refl;
  lower_append = λ s t h. map-append lower_ascii s t;
}

abbrev domain : Dn
domain = record { rdns = single (codes "DC") (codes "x") ∷ [] }

parse_domain : parse_dn (codes "DC=x") ≡ ok domain
unfolding parse_dn run step is_hex_digit parse_uint_16 end_rdn finish trim_space contains_byte
parse_domain = refl

run_directory_suite-new_recording_example :
    All (λ t. t.1 ≡ []) (run_directory_suite (new_recording ascii {T = ℕ} (codes "DC=x")))
run_directory_suite-new_recording_example =
    run_directory_suite-new_recording ascii ℕ (codes "DC=x") domain ascii-KeepsAscii parse_domain
      (λ h. cc)
