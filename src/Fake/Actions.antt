-- ===== src/Fake/Actions.antt =====
-- An operation on the store of adcorefake/: a result or an error, with the store after it. What was
-- written before an error stays written.
use go_adcore.Common.{Result, ok, err}
use go_adcore.Errors.{GoError, nil, other, adcore}
use go_adcore.Errors
use go_adcore.Fake.Objects.{Store}

abbrev pub Action : Type 0 → Type 0 → Type 0
Action T A = Store T → Result GoError A × Store T

module _ {T A : Type 0} where
  abbrev pub pure : A → Action T A
  pure a s = (ok a, s)

  abbrev pub raise : GoError → Action T A
  raise e s = (err e, s)

  abbrev pub gets : (Store T → A) → Action T A
  gets f s = (ok (f s), s)

-- the test of the error, and what comes after it
abbrev pub after :
    {T A B : Type 0} → (A → Action T B) → Result GoError A × Store T → Result GoError B × Store T
after f (ok a, s) = f a s
after f (err e, s) = (err e, s)

infixl 5 ◌>>=◌ ◌>>◌
abbrev pub ◌>>=◌ : {T A B : Type 0} → Action T A → (A → Action T B) → Action T B
◌>>=◌ m f s = after f (m s)

abbrev pub ◌>>◌ : {T A B : Type 0} → Action T A → Action T B → Action T B
m >> k = m >>= λ _. k

-- `if err := e; err != nil { return nil, err }`
abbrev pub check : {T : Type 0} → GoError → Action T Unit
check nil s = (ok tt, s)
check (other text w) s = (err (other text w), s)
check (adcore i w) s = (err (adcore i w), s)
check (Errors.GoError.sentinel k) s = (err (Errors.GoError.sentinel k), s)
check (Errors.GoError.joined text v w) s = (err (Errors.GoError.joined text v w), s)
