-- ===== src/Fake/Outcomes.antt =====
-- What an operation of adcorefake/ ends with: a condition on its result and the store after it, and
-- one on the store after an error; and how the steps that the operations share pass them on.
use mathlib.Core.Path.{subst}
use go_adcore.Common.{
  ◌≡◌, refl, sym, false, List, [], Option, none, some, Result, ok, err, Bool-cases, Result-cases,
  Option-cases, inl, inr,
}
use go_adcore.Bytes.{Bytes}
use go_adcore.Identity.{Identity}
use go_adcore.Folding.{CaseFolding}
use go_adcore.Errors.{GoError, nil, other, adcore}
use go_adcore.Errors
use go_adcore.Secret
use go_adcore.Secret.{Secret}
use go_adcore.Fake.Objects.{Object, Store}
use go_adcore.Fake.Actions.{Action, after, ◌>>=◌, ◌>>◌, check}
use go_adcore.Fake.Lookup.{
  is_taken, exists_error, resolve_principals, resolve_each, record_password,
}
use go_adcore.Fake.Classes.{refuse_taken, require_class, find_class}
use go_adcore.Fake.Entries.{not_found_error}
use go_adcore.Fake.Computers.{updated_principals}

abbrev pub Outcome :
    {T A : Type 0}
    → (A → Store T → Type 0)
    → (Store T → Type 0)
    → Result GoError A × Store T
    → Type 0
Outcome Q E (ok a, s) = Q a s
Outcome Q E (err e, s) = E s

module _ {T A : Type 0} (Q : A → Store T → Type 0) (E : Store T → Type 0) where
  pub bind-ok :
      {B : Type 0} (m : Action T B) (k : B → Action T A) (s s' : Store T) (b : B)
      → m s ≡ (ok b, s')
      → Outcome Q E (k b s')
      → Outcome Q E ((m >>= k) s)
  bind-ok m k s s' b e g = subst (λ x. Outcome Q E (after k x)) (sym e) g

  bind-err :
      {B : Type 0} (m : Action T B) (k : B → Action T A) (s s' : Store T) (e : GoError)
      → m s ≡ (err e, s')
      → E s'
      → Outcome Q E ((m >>= k) s)
  bind-err m k s s' e h g = subst (λ x. Outcome Q E (after k x)) (sym h) g

  pub check-Outcome :
      (e : GoError) (k : Action T A) (s : Store T)
      → E s
      → Outcome Q E (k s)
      → Outcome Q E ((check e >> k) s)
  check-Outcome nil k s h g = g
  check-Outcome (other text w) k s h g = h
  check-Outcome (adcore i w) k s h g = h
  check-Outcome (Errors.GoError.sentinel i) k s h g = h
  check-Outcome (Errors.GoError.joined text v w) k s h g = h

  pub refuse_taken-Outcome :
      (u : CaseFolding) (op dn : Bytes) (k : Action T A) (s : Store T)
      → E s
      → (is_taken u s.by_dn dn ≡ false → Outcome Q E (k s))
      → Outcome Q E ((refuse_taken u op dn >> k) s)
  unfolding refuse_taken
  refuse_taken-Outcome u op dn k s h g = elim (Bool-cases (is_taken u s.by_dn dn)) [
    | inl e ↦ bind-err (refuse_taken u op dn) (λ x. k) s s (exists_error op dn) (rw e refl) h
    | inr e ↦ bind-ok (refuse_taken u op dn) (λ x. k) s s tt (rw e refl) (g e)
  ]

  pub resolve_principals-Outcome :
      (u : CaseFolding) (op : Bytes) (ids : Option (List Identity)) (k : List Bytes → Action T A)
      (s : Store T)
      → E s
      → ((l : List Bytes) → Outcome Q E (k l s))
      → Outcome Q E ((resolve_principals u op ids >>= k) s)
  unfolding resolve_principals
  resolve_principals-Outcome u op none k s h g = g []
  resolve_principals-Outcome u op (some ids) k s h g =
      elim (Result-cases (resolve_each u op ids s)) [
        | inl (e, is) ↦ bind-err (resolve_principals u op (some ids)) k s s e (rw is refl) h
        | inr (l, is) ↦ bind-ok (resolve_principals u op (some ids)) k s s l (rw is refl) (g l)
      ]

  pub updated_principals-Outcome :
      (u : CaseFolding) (op : Bytes) (ids : Option (List Identity)) (old : List Bytes)
      (k : List Bytes → Action T A) (s : Store T)
      → E s
      → ((l : List Bytes) → Outcome Q E (k l s))
      → Outcome Q E ((updated_principals u op ids old >>= k) s)
  unfolding updated_principals
  updated_principals-Outcome u op none old k s h g = g old
  updated_principals-Outcome u op (some ids) old k s h g =
      resolve_principals-Outcome u op (some ids) k s h g

  pub record_password-Outcome :
      (guid : Bytes) (p : Option Secret) (k : Action T A) (s : Store T)
      → ((l : List (Bytes × List Bytes)) → Outcome Q E (k (record s { passwords = l })))
      → Outcome Q E ((record_password guid p >> k) s)
  unfolding record_password
  record_password-Outcome guid none k s g = g s.passwords
  record_password-Outcome guid (some p) k s g = elim (Bool-cases (Secret.is_zero p)) [
    | inl e ↦ rw e (g s.passwords)
    | inr e ↦ rw e (g _)
  ]

  pub require_class-Outcome :
      (u : CaseFolding) (class op : Bytes) (id : Identity) (k : Object T → Action T A) (s : Store T)
      → E s
      → ((o : Object T) → find_class u class id s ≡ some o → Outcome Q E (k o s))
      → Outcome Q E ((require_class u class op id >>= k) s)
  unfolding require_class
  require_class-Outcome u class op id k s h g = elim (Option-cases (find_class u class id s)) [
    | inl e ↦
        bind-err (require_class u class op id) k s s (not_found_error op id)
          (rw (e, require_class) refl) h
    | inr (o, e) ↦
        bind-ok (require_class u class op id) k s s o (rw (e, require_class) refl) (g o e)
  ]
