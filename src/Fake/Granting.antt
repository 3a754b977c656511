-- ===== src/Fake/Granting.antt =====
-- What `Grant` and `Revoke` of adcorefake/acl.go do to the entries of an object.
use go_adcore.Common.{
  or_true, ◌≡◌, refl, sym, ap, ◌∙◌, Bool, true, false, not, ◌&&◌, ◌||◌, List, [], ◌∷◌, ◌++◌, Option,
  none, some, arith, if◌then◌else◌, Bool-cases, inl, inr,
}
use go_adcore.Bytes.{Bytes, equal, equal_iff}
use go_adcore.Folding.{CaseFolding}
use go_adcore.Identity.{Identity}
use go_adcore.Errors.{GoError, nil}
use go_adcore.Acl.{Ace, canonical_ace_key}
use go_adcore.Fake.Entries.{entry_keys, grant_each, keep_each, grant, revoke}
use go_adcore.Maps.{has_key, equal_same, Distinct}
use mathlib.Core.List.{Memᴰ, append_assoc, append-nil}
use mathlib.Core.List.Memᴰ

has_key-append : (l m : List Bytes) (k : Bytes) → has_key (l ++ m) k ≡ (has_key l k || has_key m k)
unfolding has_key
has_key-append [] m k = refl
has_key-append (x ∷ l) m k = ground (arith, has_key-append l m k)

key_agrees : (l : List Bytes) (x k : Bytes) → equal x k ≡ true → has_key l x ≡ has_key l k
key_agrees l x k h = ap (has_key l) ((equal_iff x k).0 h)

or_shift : (p q r : Bool) → ((p || (q || false)) || r) ≡ (p || (q || r))
or_shift true q r = refl
or_shift false true r = refl
or_shift false false r = refl

key_twice :
    (l : List Bytes) (x k : Bytes) (b : Bool)
    → has_key l x ≡ true
    → (has_key l k || b) ≡ (has_key l k || (equal x k || b))
key_twice l x k b h = elim (Bool-cases (equal x k)) [
  | inl e ↦
      let there : has_key l k ≡ true = ap (has_key l) (sym ((equal_iff x k).0 e)) ∙ h in
      rw there refl
  | inr e ↦ rw e refl
]

-- The entries that are set on the object itself, and those it has from its parents.
unfoldable pub explicit_entries : List Ace → List Ace
explicit_entries [] = []
explicit_entries (a ∷ dacl) =
    if a.inherited then explicit_entries dacl else a ∷ explicit_entries dacl

unfoldable pub inherited_entries : List Ace → List Ace
inherited_entries [] = []
inherited_entries (a ∷ dacl) =
    if a.inherited then a ∷ inherited_entries dacl else inherited_entries dacl

module _ (u : CaseFolding) where
  explicit_key :
      (a : Ace) → canonical_ace_key u (record a { inherited = false }) ≡ canonical_ace_key u a
  unfolding canonical_ace_key
  explicit_key a = refl

  entry_keys-append : (l m : List Ace) → entry_keys u (l ++ m) ≡ entry_keys u l ++ entry_keys u m
  entry_keys-append [] m = refl
  entry_keys-append (a ∷ l) m = ap (◌∷◌ (canonical_ace_key u a)) (entry_keys-append l m)

  grant_known :
      (seen : List Bytes) (dacl : List Ace) (a : Ace) (list : List Ace)
      → has_key seen (canonical_ace_key u a) ≡ true
      → grant_each u seen dacl (a ∷ list) ≡ grant_each u seen dacl list
  unfolding grant_each
  grant_known seen dacl a list h = rw (h, grant_each) refl

  grant_new :
      (dacl : List Ace) (a : Ace) (list : List Ace)
      → has_key (entry_keys u dacl) (canonical_ace_key u a) ≡ false
      → grant_each u (entry_keys u dacl) dacl (a ∷ list)
        ≡ grant_each u
            (entry_keys u (dacl ++ record a { inherited = false } ∷ []))
            (dacl ++ record a { inherited = false } ∷ [])
            list
  unfolding grant_each
  grant_new dacl a list h =
      let added =
        entry_keys-append dacl (record a { inherited = false } ∷ [])
        ∙ ap (λ x. entry_keys u dacl ++ x ∷ []) (explicit_key a) in
      rw (h, grant_each)
        (ap (λ seen. grant_each u seen (dacl ++ record a { inherited = false } ∷ []) list)
          (sym added))

  -- Where every key is there already, nothing is added.
  grant_each_seen :
      (seen : List Bytes) (dacl list : List Ace)
      → ((k : Bytes) → has_key (entry_keys u list) k ≡ true → has_key seen k ≡ true)
      → grant_each u seen dacl list ≡ dacl
  unfolding grant_each has_key
  grant_each_seen seen dacl [] h = refl
  grant_each_seen seen dacl (a ∷ list) h =
      grant_known seen dacl a list
        (h (canonical_ace_key u a) (rw (equal_same (canonical_ace_key u a)) refl))
      ∙ grant_each_seen seen dacl list (λ k e. h k (rw e (or_true _)))

  has_key-grant_each :
      (dacl list : List Ace) (k : Bytes)
      → has_key (entry_keys u (grant_each u (entry_keys u dacl) dacl list)) k
        ≡ (has_key (entry_keys u dacl) k || has_key (entry_keys u list) k)
  unfolding grant_each has_key
  has_key-grant_each dacl [] k = ground arith
  has_key-grant_each dacl (a ∷ list) k =
      elim (Bool-cases (has_key (entry_keys u dacl) (canonical_ace_key u a))) [
        | inl e ↦
            ap (λ l. has_key (entry_keys u l) k) (grant_known (entry_keys u dacl) dacl a list e)
            ∙ has_key-grant_each dacl list k
            ∙ key_twice (entry_keys u dacl) (canonical_ace_key u a) k _ e
        | inr e ↦
            ap (λ l. has_key (entry_keys u l) k) (grant_new dacl a list e)
            ∙ has_key-grant_each (dacl ++ record a { inherited = false } ∷ []) list k
            ∙ ap (λ b. b || has_key (entry_keys u list) k)
                (ap (λ l. has_key l k)
                    (entry_keys-append dacl (record a { inherited = false } ∷ []))
                  ∙ has_key-append (entry_keys u dacl) _ k)
            ∙ rw (explicit_key a) (
                or_shift (has_key (entry_keys u dacl) k) (equal (canonical_ace_key u a) k)
                  (has_key (entry_keys u list) k))
      ]

  -- Granting the same entries again changes nothing, with or without an object.
  pub grant_twice :
      (id : Identity) (list : List Ace) (found : Option (List Ace))
      → grant u id list (grant u id list found).0 ≡ grant u id list found
  unfolding grant
  grant_twice id [] found = refl
  grant_twice id (a ∷ list) none = refl
  grant_twice id (a ∷ list) (some dacl) =
      ap (λ l. (some l, nil))
        (grant_each_seen _ _ (a ∷ list) (λ k h.
          has_key-grant_each dacl (a ∷ list) k
          ∙ ap (λ b. has_key (entry_keys u dacl) k || b) h
          ∙ or_true _))

  -- What a grant adds to `dacl`: entries of the list that are marked as the object's own, with keys that
  -- neither `dacl` nor another of them has.
  pub record IsAdded (dacl list added : List Ace) : Type 0 where
    pub own : (a : Ace) → Memᴰ a added → a.inherited ≡ false
    pub listed :
        (a : Ace) → Memᴰ a added → (b : Ace) × Memᴰ b list × (a ≡ record b { inherited = false })
    pub distinct : Distinct (entry_keys u added)
    pub fresh :
        (k : Bytes) → has_key (entry_keys u dacl) k ≡ true → has_key (entry_keys u added) k ≡ false

  later-IsAdded :
      (dacl list added : List Ace) (a : Ace)
      → IsAdded dacl list added
      → IsAdded dacl (a ∷ list) added
  later-IsAdded dacl list added a i = record {
    own = i.own;
    listed = λ x m. let (b, there, is) = i.listed x m in (b, Memᴰ.tail there, is);
    distinct = i.distinct;
    fresh = i.fresh;
  }

  first-IsAdded :
      (dacl list added : List Ace) (a : Ace)
      → has_key (entry_keys u dacl) (canonical_ace_key u a) ≡ false
      → IsAdded (dacl ++ record a { inherited = false } ∷ []) list added
      → IsAdded dacl (a ∷ list) (record a { inherited = false } ∷ added)
  unfolding has_key
  first-IsAdded dacl list added a e i =
      let a' : Ace = record a { inherited = false } in
      let key = canonical_ace_key u a in
      let known = λ (k : Bytes).
        ap (λ l. has_key l k)
          (entry_keys-append dacl (a' ∷ [])
            ∙ ap (λ x. entry_keys u dacl ++ x ∷ []) (explicit_key a))
        ∙ has_key-append (entry_keys u dacl) (key ∷ []) k in
      record {
        own = λ x m. elim (Memᴰ.cases_cons m) [
          | inl is ↦ ap (λ (y : Ace). y.inherited) is
          | inr there ↦ i.own x there
        ];
        listed = λ x m. elim (Memᴰ.cases_cons m) [
          | inl is ↦ (a, Memᴰ.head refl, is)
          | inr there ↦ let (b, at, is) = i.listed x there in (b, Memᴰ.tail at, is)
        ];
        distinct = (
          ap (has_key (entry_keys u added)) (explicit_key a)
              ∙ i.fresh key (known key ∙ rw (equal_same key) (or_true _)),
          i.distinct,
        );
        fresh = λ k h.
            let later = i.fresh k (known k ∙ rw h refl) in
            let apart : equal key k ≡ false = ground (arith, e, h, equal_iff key k) in
            rw (explicit_key a, apart) later;
      }

  none-IsAdded : (dacl : List Ace) → IsAdded dacl [] []
  unfolding has_key
  none-IsAdded dacl = record {
    own = λ x m. absurd (Memᴰ.not-nil m);
    listed = λ x m. absurd (Memᴰ.not-nil m);
    distinct = tt;
    fresh = λ k h. refl;
  }

  grant_each-IsAdded :
      (dacl list : List Ace)
      → (added : List Ace) × (grant_each u (entry_keys u dacl) dacl list ≡ dacl ++ added)
        × IsAdded dacl list added
  unfolding grant_each has_key
  grant_each-IsAdded dacl [] = ([], sym (append-nil dacl), none-IsAdded dacl)
  grant_each-IsAdded dacl (a ∷ list) =
      elim (Bool-cases (has_key (entry_keys u dacl) (canonical_ace_key u a))) [
        | inl e ↦
            let (added, is, i) = grant_each-IsAdded dacl list in
            (
              added,
              grant_known (entry_keys u dacl) dacl a list e ∙ is,
              later-IsAdded dacl list added a i,
            )
        | inr e ↦
            let (added, is, i) =
              grant_each-IsAdded (dacl ++ record a { inherited = false } ∷ []) list in
            (
              record a { inherited = false } ∷ added,
              grant_new dacl a list e
                  ∙ is
                  ∙ append_assoc dacl (record a { inherited = false } ∷ []) added,
              first-IsAdded dacl list added a e i,
            )
      ]

  -- A grant on an object succeeds. It keeps the entries there were, in their order, and puts behind them
  -- entries of the list that are marked as the object's own, with keys that are distinct and that no
  -- entry before had; afterwards each key of the list is there. Granting the list again changes nothing.
  pub grant_lem :
      (id : Identity) (list dacl : List Ace)
      → (added : List Ace) × (grant u id list (some dacl) ≡ (some (dacl ++ added), nil))
        × IsAdded dacl list added
        × ((k : Bytes)
            → has_key (entry_keys u (dacl ++ added)) k
              ≡ (has_key (entry_keys u dacl) k || has_key (entry_keys u list) k))
        × (grant u id list (some (dacl ++ added)) ≡ (some (dacl ++ added), nil))
  unfolding grant has_key
  grant_lem id [] dacl = (
    [],
    ap (λ l. (some l, nil)) (sym (append-nil dacl)),
    none-IsAdded dacl,
    λ k. ap (λ l. has_key (entry_keys u l) k) (append-nil dacl) ∙ ground arith,
    refl,
  )
  grant_lem id (a ∷ list) dacl =
      let (added, is, i) = grant_each-IsAdded dacl (a ∷ list) in
      let result : grant u id (a ∷ list) (some dacl) ≡ (some (dacl ++ added), nil) =
        ap (λ l. (some l, nil)) is in
      (
        added,
        result,
        i,
        λ k. ap (λ l. has_key (entry_keys u l) k) (sym is) ∙ has_key-grant_each dacl (a ∷ list) k,
        ap (λ (r : Option (List Ace) × GoError). grant u id (a ∷ list) r.0) (sym result)
            ∙ grant_twice id (a ∷ list) (some dacl)
            ∙ result,
      )

  has_key-keep_each :
      (drop : List Bytes) (dacl : List Ace) (k : Bytes)
      → has_key (entry_keys u (explicit_entries (keep_each u drop dacl))) k
        ≡ (has_key (entry_keys u (explicit_entries dacl)) k && not (has_key drop k))
  unfolding keep_each explicit_entries has_key
  has_key-keep_each drop [] k = refl
  has_key-keep_each drop (a ∷ dacl) k =
      ground (arith, has_key-keep_each drop dacl k, key_agrees drop (canonical_ace_key u a) k)

  inherited-keep_each :
      (drop : List Bytes) (dacl : List Ace)
      → inherited_entries (keep_each u drop dacl) ≡ inherited_entries dacl
  unfolding keep_each inherited_entries
  inherited-keep_each drop [] = refl
  inherited-keep_each drop (a ∷ dacl) = ground (arith, inherited-keep_each drop dacl)

  -- A revocation on an object succeeds, leaves no entry of the object's own with a key that was
  -- revoked and every other key of its own, and keeps the inherited entries as they were.
  pub revoke_lem :
      (id : Identity) (list dacl : List Ace)
      → (after : List Ace) × (revoke u id list (some dacl) ≡ (some after, nil))
        × ((k : Bytes)
            → has_key (entry_keys u (explicit_entries after)) k ≡ (
                has_key (entry_keys u (explicit_entries dacl)) k
                && not (has_key (entry_keys u list) k)))
        × (inherited_entries after ≡ inherited_entries dacl)
  unfolding revoke has_key
  revoke_lem id [] dacl = (dacl, refl, λ k. ground arith, refl)
  revoke_lem id (a ∷ list) dacl =
      (_, refl, has_key-keep_each (entry_keys u (a ∷ list)) dacl, inherited-keep_each _ dacl)
