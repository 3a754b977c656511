-- ===== src/Errors/Codes.antt =====
-- `classByCode` and `ClassifyCode` of errors.go.
use go_adcore.Common.{
  ℕ, ◌≡◌, refl, Bool, true, false, not, ◌||◌, List, [], ◌∷◌, ◌==◌, if◌then◌else◌, arith, ℤ, pos,
  negsuc,
}
use go_adcore.Errors.{
  Kind, unknown, not_found, already_exists, denied, constraint, password, referral, transient,
  retryable, same_kind,
}

-- `classByCode`
unfoldable pub class_by_code : List (ℕ × Kind)
class_by_code =
    (0x0005, denied)
    ∷ (0x052D, password)
    ∷ (0x06BA, transient)
    ∷ (0x06BB, transient)
    ∷ (0x1392, already_exists)
    ∷ (0x200E, transient)
    ∷ (0x2014, constraint)
    ∷ (0x2015, constraint)
    ∷ (0x202B, referral)
    ∷ (0x202F, constraint)
    ∷ (0x2030, not_found)
    ∷ (0x2035, constraint)
    ∷ (0x2037, constraint)
    ∷ (0x2071, already_exists)
    ∷ (0x2076, constraint)
    ∷ (0x2077, constraint)
    ∷ (0x207E, constraint)
    ∷ (0x2098, denied)
    ∷ (0x208D, not_found)
    ∷ (0x20F6, transient)
    ∷ (0x2118, constraint)
    ∷ []

-- `k, ok := m[code]`: the zero value of `Kind` where the key is missing
unfoldable pub find_code : List (ℕ × Kind) → ℕ → Kind × Bool
find_code [] code = (unknown, false)
find_code ((c, k) ∷ m) code = if c == code then (k, true) else find_code m code

-- `func ClassifyCode`
unfoldable pub classify_code : ℤ → Kind × Bool
unfolding class_by_code find_code
classify_code (pos code) = find_code class_by_code code
classify_code (negsuc n) = (unknown, false)

-- A code is retried exactly if it is one of the four by which the server says that it was busy or
-- out of reach; every other code, mapped or not, is final.
pub retryable-classify_code :
    (code : ℕ)
    → retryable (classify_code (pos code)).0
      ≡ (code == 0x06BA || code == 0x06BB || code == 0x200E || code == 0x20F6)
unfolding classify_code retryable
retryable-classify_code code = ground arith

-- `ClassifyCode` reports true exactly if the kind is another than unknown.
pub classify_code_found :
    (code : ℤ) → (classify_code code).1 ≡ not (same_kind (classify_code code).0 unknown)
unfolding classify_code same_kind
classify_code_found (negsuc n) = refl
classify_code_found (pos n) = ground arith
