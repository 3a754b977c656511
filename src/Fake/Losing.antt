-- ===== src/Fake/Losing.antt =====
-- What an `Update` of adcorefake/ does to an object that stands where it moves another one.
use mathlib.Core.Path.{subst}
use go_adcore.Common.{
  ◌≡◌, ◌≢◌, sym, ap, ◌∙◌, true, false, none, some, ok, Option-cases, List, inl, inr, arith,
}
use go_adcore.Bytes.{Bytes, equal, equal_iff}
use go_adcore.Folding.{CaseFolding}
use go_adcore.Identity.{Identity}
use go_adcore.Fake.Objects.{Object, Store}
use go_adcore.Maps.{lookup}
use go_adcore.Fake.Lookup.{is_below}
use go_adcore.Fake.Classes.{find_class}
use go_adcore.Fake.Invariant.{find_in-by_guid-some}
use go_adcore.Fake.Directory.{Request, class_of, target_dn, update}
use go_adcore.Fake.Reachable.{Valid}
use go_adcore.Fake.Carrying.{CarriedAll, Carried-guid}
use go_adcore.Fake.Updating.{IsRenewed}
use go_adcore.Fake.Contract.{update-IsRenewed}
use go_adcore.Fake.View.{view}

apart_guid : (a b c : Bytes) → a ≡ b → b ≢ c → equal a c ≡ false
apart_guid a b c e h = ground (arith, e, h, equal_iff a c)

some-injective : {T : Type 0} (a b : Object T) → some a ≡ some b → a ≡ b
some-injective a b h = cc

same_entry :
    {T : Type 0} (m : List (Bytes × Object T)) (j k : Bytes) (a b : Object T)
    → j ≡ k
    → lookup m j ≡ some a
    → lookup m k ≡ some b
    → a.guid ≡ b.guid
same_entry m j k a b e h i = ap (λ x. x.guid) (some-injective a b (sym h ∙ ap (lookup m) e ∙ i))

-- An object whose DN is taken over by another one, and that does not move along, is in no later store.
taken_over :
    (u : CaseFolding) {T : Type 0} (old_dn new_dn g : Bytes) (s s' : Store T)
    (new other p : Object T)
    → Valid s
    → Valid s'
    → CarriedAll u old_dn new_dn g s.by_dn s'.by_dn
    → view u s' g ≡ some new
    → new.dn ≡ other.dn
    → view u s other.guid ≡ some other
    → other.guid ≢ g
    → is_below u other.dn old_dn ≡ false
    → ¬ (view u s' other.guid ≡ some p)
taken_over u {T} old_dn new_dn g s s' new other p v v' others there target seen apart beside e =
    let (at, guid) = find_in-by_guid-some u s'.seq s'.by_dn other.guid p v' e in
    let (at_new, guid_new) = find_in-by_guid-some u s'.seq s'.by_dn g new v' there in
    let (at_other, _) = find_in-by_guid-some u s.seq s.by_dn other.guid other v seen in
    let (j, o, before, carried) = others p.dn p at (apart_guid p.guid other.guid g guid apart) in
    let stood : j ≡ other.dn =
      v.unique j other.dn o other before at_other
        (sym (Carried-guid u old_dn new_dn j p.dn o p carried) ∙ guid) in
    elim carried [
      | inl (kept, _) ↦
          let place : p.dn ≡ new.dn = kept ∙ stood ∙ sym target in
          apart (sym guid ∙ same_entry s'.by_dn p.dn new.dn p new place at at_new ∙ guid_new)
      | inr (below, _, _) ↦
          let never : true ≡ false = sym below ∙ ap (λ x. is_below u x old_dn) stood ∙ beside in cc
    ]

-- An `Update` of any class that succeeds in a consistent store and moves the object that it finds to a DN
-- where another object stood, not below the one that moves, loses the other: it is there by its
-- GUID before, and is not there by its GUID afterwards. `Update` does not refuse the DN, as `Create` does.
pub update-loses :
    (u : CaseFolding) {T : Type 0} (id : Identity) (r : Request T) (s s' : Store T)
    (m : (class_of r).Model) (old new other : Object T)
    → Valid s
    → update u id r s ≡ (ok m, s')
    → find_class u (class_of r).name id s ≡ some old
    → view u s' old.guid ≡ some new
    → new.dn ≡ target_dn r old
    → view u s other.guid ≡ some other
    → other.dn ≡ target_dn r old
    → other.guid ≢ old.guid
    → is_below u other.dn old.dn ≡ false
    → view u s' other.guid ≡ none
update-loses u {T} id r s s' m old new other v h found there target seen stands apart beside =
    elim (Option-cases (view u s' other.guid)) [
      | inl e ↦ e
      | inr (p, e) ↦
          let is = update-IsRenewed u id r s s' m v h in
          absurd (
            taken_over u old.dn (target_dn r old) old.guid s s' new other p v is.settled.consistent
              (moved is (sym is.found ∙ found)) there (target ∙ sym stands) seen apart beside e)
    ]
  where
    moved :
        (is : IsRenewed u (class_of r) id (target_dn r) s m s')
        → some is.old ≡ some old
        → CarriedAll u old.dn (target_dn r old) old.guid s.by_dn s'.by_dn
    moved is e =
        let same = some-injective is.old old e in
        subst (λ (x : Object T). CarriedAll u x.dn (target_dn r x) x.guid s.by_dn s'.by_dn) same
          is.others
