-- ===== src/Fake/Contract.antt =====
-- `Create`, `Update` and `Get` of every class of adcorefake/: the part of the conformance suite that
-- these three make up, for every directory and every spec.
use mathlib.Core.Path.{subst}
use go_adcore.Common.{
  ◌+◌, ◌≡◌, refl, sym, ap, ◌∙◌, true, false, List, [], ◌∷◌, none, some, ok, err, Option-cases,
  Bool-cases, inl, inr, arith,
}
use go_adcore.Bytes.{Bytes, equal, equal_iff}
use go_adcore.Folding.{CaseFolding}
use go_adcore.Identity.{Identity, by_guid}
use go_adcore.Errors.{GoError}
use go_adcore.Dn.{Dn}
use go_adcore.Dn.Parse.{parse_dn}
use go_adcore.Maps.{put, lookup}
use go_adcore.Fake.Objects.{Object, Store, guid_text}
use go_adcore.Fake.Lookup.{find, find_in, is_taken, eq_dn}
use go_adcore.Fake.Naming.{eq_dn_refl}
use go_adcore.Fake.Classes.{Class, find_class, require_class, get_model}
use go_adcore.Fake.Actions.{after, pure}
use go_adcore.Fake.Invariant.{IsConsistent, find_in-IsFree, find_in-by_guid, next-IsFree}
use go_adcore.Fake.Creating.{IsMade, Made}
use go_adcore.Fake.Updating.{IsRenewed, Renewed}
use go_adcore.Fake.Directory.{
  Request, class_of, dn_of, target_dn, create, update, create-Made, update-Renewed,
}
use go_adcore.Fake.Reachable.{Valid, made-Valid}
use go_adcore.Fake.Relocating.{found-put}
use go_adcore.Fake.View.{view, Sets, put-Sets}

module _ (u : CaseFolding) {T : Type 0} where
  pub find_class-eq :
      (class : Bytes) (id : Identity) (s : Store T) (o : Object T)
      → find u id s ≡ some o
      → o.class ≡ class
      → find_class u class id s ≡ some o
  unfolding find_class
  find_class-eq class id s o h e = rw (h, (equal_iff o.class class).1 e, find_class) refl

  pub require_class-eq :
      (class op : Bytes) (id : Identity) (s : Store T) (o : Object T)
      → find_class u class id s ≡ some o
      → require_class u class op id s ≡ (ok o, s)
  unfolding require_class
  require_class-eq class op id s o h = rw (h, require_class) refl

  pub get_model_lem :
      (c : Class T) (op : Bytes) (id : Identity) (s : Store T) (o : Object T)
      → find u id s ≡ some o
      → o.class ≡ c.name
      → get_model u c op id s ≡ (ok (c.model o), s)
  unfolding get_model
  get_model_lem c op id s o h e =
      ap (after (λ o. pure (c.model o)))
        (require_class-eq c.name op id s o (find_class-eq c.name id s o h e))

  create-IsMade :
      (r : Request T) (s s' : Store T) (m : (class_of r).Model)
      → create u r s ≡ (ok m, s')
      → IsMade u (class_of r) (dn_of r) s m s'
  create-IsMade r s s' m h = subst (Made u s (class_of r) (dn_of r)) h (create-Made u s r)

  pub update-IsRenewed :
      (id : Identity) (r : Request T) (s s' : Store T) (m : (class_of r).Model)
      → Valid s
      → update u id r s ≡ (ok m, s')
      → IsRenewed u (class_of r) id (target_dn r) s m s'
  update-IsRenewed id r s s' m v h =
      subst (Renewed u s (class_of r) id (target_dn r)) h (update-Renewed u s v id r)

  made_found :
      (c : Class T) (dn : Bytes) (s s' : Store T) (m : c.Model) (is : IsMade u c dn s m s')
      → lookup s'.by_dn is.object.dn ≡ some is.object
  made_found c dn s s' m is =
      ap (λ l. lookup l is.object.dn) (is.by_dn ∙ ap (λ d. put s.by_dn d is.object) (sym is.dn_is))
      ∙ found-put s.by_dn is.object

  -- In a consistent store, what a `Create` of any class returns is what `Get` of that class then returns
  -- for the GUID that was next when `Create` was called.
  pub create-get_model :
      (r : Request T) (op : Bytes) (s s' : Store T) (m : (class_of r).Model)
      → Valid s
      → create u r s ≡ (ok m, s')
      → get_model u (class_of r) op (by_guid (guid_text (s.seq + 1))) s' ≡ (ok m, s')
  create-get_model r op s s' m v h =
      let is = create-IsMade r s s' m h in
      let there =
        find_in-by_guid u s'.seq s'.by_dn is.object.dn is.object
          (made-Valid u (class_of r) (dn_of r) s m s' v is)
          (made_found (class_of r) (dn_of r) s s' m is) in
      get_model_lem (class_of r) op (by_guid (guid_text (s.seq + 1))) s' is.object
        (ap (λ g. find_in u s'.by_dn (by_guid g)) (sym is.guid) ∙ there) is.class
      ∙ ap (λ x. (ok x, s')) (sym is.shown)

  -- In a consistent store, a `Create` or an `Update` of any class that fails leaves the store as it was:
  -- no GUID is used up, and no part of a spec is applied.
  pub failing_writes :
      (r : Request T) (id : Identity) (s : Store T)
      → Valid s
      → ((e : GoError) (s' : Store T) → create u r s ≡ (err e, s') → s' ≡ s)
        × ((e : GoError) (s' : Store T) → update u id r s ≡ (err e, s') → s' ≡ s)
  failing_writes r id s v = (
    λ e s' h. subst (Made u s (class_of r) (dn_of r)) h (create-Made u s r),
    λ e s' h. subst (Renewed u s (class_of r) id (target_dn r)) h (update-Renewed u s v id r),
  )

  is_taken-some :
      (m : List (Bytes × Object T)) (dn : Bytes) (o : Object T)
      → eq_dn u dn dn ≡ true
      → lookup m dn ≡ some o
      → is_taken u m dn ≡ true
  unfolding is_taken lookup
  is_taken-some [] dn o e h = cc
  is_taken-some ((k, p) ∷ m) dn o e h = elim (Bool-cases (equal k dn)) [
    | inl is ↦
        let here : eq_dn u k dn ≡ true = ap (λ x. eq_dn u x dn) ((equal_iff k dn).0 is) ∙ e in
        rw here refl
    | inr is ↦ elim (Bool-cases (eq_dn u k dn)) [
      | inl b ↦ rw b refl
      | inr b ↦ rw b (is_taken-some m dn o e (ground (arith, is, h)))
    ]
  ]

  untaken_lookup :
      (m : List (Bytes × Object T)) (dn : Bytes) (d : Dn)
      → parse_dn dn ≡ ok d
      → is_taken u m dn ≡ false
      → lookup m dn ≡ none
  untaken_lookup m dn d h e = elim (Option-cases (lookup m dn)) [
    | inl is ↦ is
    | inr (p, at) ↦ absurd (ground (arith, e, is_taken-some m dn p (eq_dn_refl u dn d h) at))
  ]

  -- Seen as a map from GUIDs to objects, a `Create` of any class that succeeds adds one object, under a
  -- GUID that had none, and changes no other: in a consistent store, where the DN it builds parses.
  pub create-Sets :
      (r : Request T) (d : Dn) (s s' : Store T) (m : (class_of r).Model)
      → Valid s
      → parse_dn (dn_of r) ≡ ok d
      → create u r s ≡ (ok m, s')
      → (o : Object T) × (m ≡ (class_of r).model o)
        × (o.guid ≡ guid_text (s.seq + 1))
        × (view u s o.guid ≡ none)
        × Sets (view u s) o (view u s')
  create-Sets r d s s' m v parses h =
      let is = create-IsMade r s s' m h in
      let o = is.object in
      let valid = made-Valid u (class_of r) (dn_of r) s m s' v is in
      let stored : s'.by_dn ≡ put s.by_dn o.dn o =
        is.by_dn ∙ ap (λ k. put s.by_dn k o) (sym is.dn_is) in
      let free =
        λ (j : Bytes) (p : Object T) (at : lookup s.by_dn j ≡ some p) (e : p.guid ≡ o.guid).
          next-IsFree s.seq s.by_dn o.dn v j p at (e ∙ is.guid) in
      let empty : lookup s.by_dn o.dn ≡ none =
        untaken_lookup s.by_dn o.dn d (ap parse_dn is.dn_is ∙ parses)
          (ap (is_taken u s.by_dn) is.dn_is ∙ is.untaken) in
      (
        o,
        is.shown,
        is.guid,
        find_in-IsFree u s.seq s.by_dn o.guid o.dn v free empty,
        λ g.
            ap (λ l. find_in u l (by_guid g)) stored
            ∙ put-Sets u s.seq s.by_dn v s'.seq o (subst (IsConsistent s'.seq) stored valid) free
                (λ p at. let no : none ≡ some p = sym empty ∙ at in cc) g,
      )
