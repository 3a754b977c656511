-- ===== src/Fake/Invariant.antt =====
-- What always holds of `byDN` of adcorefake/fake.go, and the writes that keep it.
use go_adcore.Common.{
  ℕ, ◌+◌, ◌≤◌, ◌≡◌, refl, sym, ap, ◌∙◌, true, false, List, [], ◌∷◌, none, some, arith, Bool-cases,
  Option-cases, ◌⊎◌, inl, inr,
}
use go_adcore.Bytes.{Bytes, equal, equal_iff}
use go_adcore.Identity.{Identity, by_guid}
use go_adcore.Folding.{CaseFolding}
use go_adcore.Maps.{
  equal_same, Distinct, keys, lookup, put, delete_key, lookup-put, lookup-delete_key, put-Distinct,
  delete_key-Distinct, lookup-eq-none,
}
use go_adcore.Fake.Objects.{Object, guid_text}
use go_adcore.Fake.Lookup.{find_in, matches}
use go_adcore.Fake.Numbering.{guid_text-injective}

-- A GUID among the first `n` that were given out.
abbrev pub Issued : ℕ → Bytes → Type 0
Issued n guid = (i : ℕ) × (i ≤ n) × (guid ≡ guid_text i)

-- Every object stands under its own DN, once; its GUID was given out, and no other object has it.
pub record IsConsistent {T : Type 0} (n : ℕ) (m : List (Bytes × Object T)) : Type 0 where
  pub distinct : Distinct (keys m)
  pub placed : (k : Bytes) (o : Object T) → lookup m k ≡ some o → o.dn ≡ k
  pub issued : (k : Bytes) (o : Object T) → lookup m k ≡ some o → Issued n o.guid
  pub unique :
      (j k : Bytes) (p o : Object T)
      → lookup m j ≡ some p
      → lookup m k ≡ some o
      → p.guid ≡ o.guid
      → j ≡ k

-- No object but the one under `k` has the GUID.
abbrev pub IsFree : {T : Type 0} → List (Bytes × Object T) → Bytes → Bytes → Type 0
IsFree {T} m k guid = (j : Bytes) (o : Object T) → lookup m j ≡ some o → o.guid ≡ guid → j ≡ k

module _ {T : Type 0} where
  pub put-cases :
      (m : List (Bytes × Object T)) (k : Bytes) (o : Object T) (j : Bytes) (p : Object T)
      → lookup (put m k o) j ≡ some p
      → ((k ≡ j) × (o ≡ p)) ⊎ ((equal k j ≡ false) × (lookup m j ≡ some p))
  put-cases m k o j p h = elim (Bool-cases (equal k j)) [
    | inl e ↦ inl ((equal_iff k j).0 e, ground (arith, lookup-put m k o j))
    | inr e ↦ inr (e, ground (arith, lookup-put m k o j))
  ]

  pub delete_key-some :
      (m : List (Bytes × Object T)) (k j : Bytes) (p : Object T)
      → lookup (delete_key m k) j ≡ some p
      → (equal k j ≡ false) × (lookup m j ≡ some p)
  delete_key-some m k j p h = ground (arith, lookup-delete_key m k j)

  pub put-IsConsistent :
      (n : ℕ) (m : List (Bytes × Object T)) (o : Object T)
      → IsConsistent n m
      → Issued n o.guid
      → IsFree m o.dn o.guid
      → IsConsistent n (put m o.dn o)
  put-IsConsistent n m o c i f = record {
    distinct = put-Distinct m o.dn o c.distinct;
    placed = λ k p h. elim (put-cases m o.dn o k p h) [ inl e ↦ cc | inr e ↦ c.placed k p e.1 ];
    issued = λ k p h. elim (put-cases m o.dn o k p h) [
      | inl e ↦ (i.0, i.1, ap (λ (x : Object T). x.guid) (sym e.1) ∙ i.2)
      | inr e ↦ c.issued k p e.1
    ];
    unique = λ j k p q h h' e. elim (put-cases m o.dn o j p h) [
      | inl a ↦ elim (put-cases m o.dn o k q h') [ inl b ↦ cc | inr b ↦ sym (f k q b.1 (cc) ∙ a.0) ]
      | inr a ↦ elim (put-cases m o.dn o k q h') [
        | inl b ↦ f j p a.1 (cc) ∙ b.0
        | inr b ↦ c.unique j k p q a.1 b.1 e
      ]
    ];
  }

  pub delete_key-IsConsistent :
      (n : ℕ) (m : List (Bytes × Object T)) (k : Bytes)
      → IsConsistent n m
      → IsConsistent n (delete_key m k)
  delete_key-IsConsistent n m key c = record {
    distinct = delete_key-Distinct m key c.distinct;
    placed = λ k p h. c.placed k p (delete_key-some m key k p h).1;
    issued = λ k p h. c.issued k p (delete_key-some m key k p h).1;
    unique = λ j k p q h h' e.
        c.unique j k p q (delete_key-some m key j p h).1 (delete_key-some m key k q h').1 e;
  }

  -- An object that is taken out leaves its GUID free.
  pub delete_key-IsFree :
      (n : ℕ) (m : List (Bytes × Object T)) (k dn : Bytes) (o : Object T)
      → IsConsistent n m
      → lookup m k ≡ some o
      → IsFree (delete_key m k) dn o.guid
  delete_key-IsFree n m k dn o c h j p g e =
      let (ne, there) = delete_key-some m k j p g in
      absurd (ground (arith, ne, c.unique k j o p h there (sym e), equal_same k))

  -- The next GUID is free.
  pub next-IsFree :
      (n : ℕ) (m : List (Bytes × Object T)) (dn : Bytes)
      → IsConsistent n m
      → IsFree m dn (guid_text (n + 1))
  next-IsFree n m dn c j o h e =
      let (i, le, is) = c.issued j o h in
      absurd (omega (arith, guid_text-injective i (n + 1) (sym is ∙ e), le))

  pub more-IsConsistent :
      (n : ℕ) (m : List (Bytes × Object T)) → IsConsistent n m → IsConsistent (n + 1) m
  more-IsConsistent n m c = record {
    distinct = c.distinct;
    placed = c.placed;
    issued = λ k o h. let (i, le, e) = c.issued k o h in (i, omega (arith, le), e);
    unique = c.unique;
  }

  pub empty-IsConsistent : (n : ℕ) → IsConsistent {T = T} n []
  unfolding lookup
  empty-IsConsistent n = record {
    distinct = tt;
    placed = λ k o h. cc;
    issued = λ k o h. cc;
    unique = λ j k p o h h' e. cc;
  }

module _ (u : CaseFolding) {T : Type 0} where
  pub matches-by_guid : (g dn : Bytes) (o : Object T) → matches u (by_guid g) dn o ≡ equal o.guid g
  unfolding matches by_guid equal
  matches-by_guid g dn o = refl

  find_in-entry :
      (m : List (Bytes × Object T)) (id : Identity) (o : Object T)
      → Distinct (keys m)
      → find_in u m id ≡ some o
      → (k : Bytes) × (lookup m k ≡ some o) × (matches u id k o ≡ true)
  unfolding find_in lookup
  find_in-entry [] id o d h = cc
  find_in-entry ((k, p) ∷ m) id o d h = elim (Bool-cases (matches u id k p)) [
    | inl e ↦
        let is : p ≡ o = ground (arith, e) in
        (k, rw (equal_same k) (ap some is), ap (λ x. matches u id k x) (sym is) ∙ e)
    | inr e ↦
        let (j, there, is) = find_in-entry m id o d.1 (ground (arith, e)) in
        (j, ground (arith, there, d.0, equal_iff k j, lookup-eq-none m k), is)
  ]

  -- What a search finds stands in the map under its DN.
  pub find_in-some :
      (n : ℕ) (m : List (Bytes × Object T)) (id : Identity) (o : Object T)
      → IsConsistent n m
      → find_in u m id ≡ some o
      → (lookup m o.dn ≡ some o) × (matches u id o.dn o ≡ true)
  find_in-some n m id o c h =
      let (k, there, is) = find_in-entry m id o c.distinct h in
      let at : o.dn ≡ k = c.placed k o there in
      (ap (lookup m) at ∙ there, ap (λ dn. matches u id dn o) at ∙ is)

  pub find_in-by_guid-some :
      (n : ℕ) (m : List (Bytes × Object T)) (g : Bytes) (o : Object T)
      → IsConsistent n m
      → find_in u m (by_guid g) ≡ some o
      → (lookup m o.dn ≡ some o) × (o.guid ≡ g)
  find_in-by_guid-some n m g o c h =
      let (there, is) = find_in-some n m (by_guid g) o c h in
      (there, (equal_iff o.guid g).0 (sym (matches-by_guid g o.dn o) ∙ is))

  find_in-none :
      (m : List (Bytes × Object T)) (g k : Bytes) (o : Object T)
      → find_in u m (by_guid g) ≡ none
      → lookup m k ≡ some o
      → equal o.guid g ≡ false
  unfolding find_in lookup
  find_in-none [] g k o h e = cc
  find_in-none ((j, p) ∷ m) g k o h e = ground (arith, find_in-none m g k o, matches-by_guid g j p)

  -- The object under a key is the one that its GUID finds.
  pub find_in-by_guid :
      (n : ℕ) (m : List (Bytes × Object T)) (k : Bytes) (o : Object T)
      → IsConsistent n m
      → lookup m k ≡ some o
      → find_in u m (by_guid o.guid) ≡ some o
  find_in-by_guid n m k o c h = elim (Option-cases (find_in u m (by_guid o.guid))) [
    | inl e ↦ absurd (ground (arith, find_in-none m o.guid k o e h, equal_same o.guid))
    | inr (p, e) ↦
        let (there, is) = find_in-by_guid-some n m o.guid p c e in
        let same : p.dn ≡ k = c.unique p.dn k p o there h is in
        e ∙ sym there ∙ ap (lookup m) same ∙ h
  ]

  -- Where the GUID is free and nothing stands at `k`, no search finds it.
  pub find_in-IsFree :
      (n : ℕ) (m : List (Bytes × Object T)) (g k : Bytes)
      → IsConsistent n m
      → IsFree m k g
      → lookup m k ≡ none
      → find_in u m (by_guid g) ≡ none
  find_in-IsFree n m g k c f h = elim (Option-cases (find_in u m (by_guid g))) [
    | inl e ↦ e
    | inr (p, e) ↦
        let (there, is) = find_in-by_guid-some n m g p c e in
        let same : p.dn ≡ k = f p.dn p there is in
        let gone : none ≡ some p = sym h ∙ ap (lookup m) (sym same) ∙ there in cc
  ]
