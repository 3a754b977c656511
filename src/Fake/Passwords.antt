-- ===== src/Fake/Passwords.antt =====
-- `SetPassword` of adcorefake/user.go and the passwords that the store records.
use go_adcore.Common.{
  ◌≡◌, refl, ap, ◌∙◌, true, false, List, [], ◌∷◌, ◌++◌, Option, none, some, if◌then◌else◌, ok, err,
  Bool-cases, inl, inr,
}
use go_adcore.Bytes.{Bytes, equal, equal_iff}
use go_adcore.Folding.{CaseFolding}
use go_adcore.Identity.{Identity}
use go_adcore.Errors.{GoError}
use go_adcore.Secret.{Secret, reveal_secret}
use go_adcore.Secret
use go_adcore.Maps.{put, lookup-put}
use go_adcore.Fake.Objects.{Object, Store}
use go_adcore.Fake.Lookup.{history}
use go_adcore.Fake.Classes.{find_class}
use go_adcore.Fake.Users.{user_name, set_password}

history_of : Option (List Bytes) → List Bytes
history_of none = []
history_of (some l) = l

history-put :
    (m : List (Bytes × List Bytes)) (k : Bytes) (p : Bytes) (g : Bytes)
    → history (put m k (history m k ++ p ∷ [])) g
      ≡ (if equal k g then history m g ++ p ∷ [] else history m g)
unfolding history_of
history-put m k p g =
    ap history_of (lookup-put m k (history m k ++ p ∷ []) g) ∙ (elim (Bool-cases (equal k g)) [
      | inl e ↦ rw e (ap (λ x. history m x ++ p ∷ []) ((equal_iff k g).0 e))
      | inr e ↦ rw e refl
    ])

-- `SetPassword` with a secret that is set, for a user that is found, succeeds: it puts the secret's text
-- behind the passwords recorded for the GUID of this user, and changes no other record and no
-- object. With an empty secret, or where no user is found, it fails and leaves the store as it was.
pub set_password_lem :
    (u : CaseFolding) {T : Type 0} (id : Identity) (p : Secret) (s : Store T)
    → ((o : Object T)
        → find_class u user_name id s ≡ some o
        → Secret.is_zero p ≡ false
        → ((set_password u id p s).0 ≡ ok tt)
          × ((set_password u id p s).1.by_dn ≡ s.by_dn)
          × ((g : Bytes)
              → history (set_password u id p s).1.passwords g ≡ (
                  if equal o.guid g
                  then history s.passwords g ++ reveal_secret p ∷ []
                  else history s.passwords g)))
      × (Secret.is_zero p ≡ true → (e : GoError) × (set_password u id p s ≡ (err e, s)))
      × (find_class u user_name id s ≡ none → (e : GoError) × (set_password u id p s ≡ (err e, s)))
unfolding set_password
set_password_lem u id p s = (
  λ o h z.
      rw (z, h, set_password) (refl, refl, λ g. history-put s.passwords o.guid (reveal_secret p) g),
  λ z. rw (z, set_password) (_, refl),
  λ h. elim (Bool-cases (Secret.is_zero p)) [
    | inl z ↦ rw (z, set_password) (_, refl)
    | inr z ↦ rw (z, h, set_password) (_, refl)
  ],
)
