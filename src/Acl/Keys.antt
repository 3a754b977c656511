-- ===== src/Acl/Keys.antt =====
-- `CanonicalACEKey` identifies an entry up to case and the order of its rights, and nothing more.
use mathlib.Core.List.{Perm}
use mathlib.Core.List.Perm
use mathlib.Core.Path.{subst}
use go_adcore.Common.{
  ℕ, ◌≡◌, ◌≢◌, refl, sym, ap, ◌∙◌, List, [], ◌∷◌, ◌++◌, map, arith, All, All-append, inl, inr,
  Bool-cases,
}
use go_adcore.Bytes.{Bytes, join}
use go_adcore.Folding.{CaseFolding}
use go_adcore.Acl.{
  Ace, bytes_leb, insert_sorted, sort_strings, canonical_ace_key, record_separator, unit_separator,
}
use go_adcore.Acl.Sorting.{sort-perm, sort_strings_perm}

-- Text up to the first separator is read off unambiguously.
split_separator :
    (q : ℕ) (a b s t : Bytes)
    → All (λ c. c ≢ q) a
    → All (λ c. c ≢ q) b
    → a ++ (q ∷ s) ≡ b ++ (q ∷ t)
    → (a ≡ b) × (s ≡ t)
split_separator q [] [] s t ha hb h = (refl, cc)
split_separator q [] (y ∷ b) s t ha hb h = absurd (hb.0 (cc))
split_separator q (x ∷ a) [] s t ha hb h = absurd (ha.0 (cc))
split_separator q (x ∷ a) (y ∷ b) s t ha hb h =
    let (e, f) = split_separator q a b s t ha.1 hb.1 (cc) in (cc, f)

-- A right after lowering: some text without a separator.
abbrev pub IsPlainRight : Bytes → Type 0
IsPlainRight r = (r ≢ []) × All (λ c. c ≢ record_separator) r × All (λ c. c ≢ unit_separator) r

join-ne-nil : (x : Bytes) (l : List Bytes) → x ≢ [] → join (record_separator ∷ []) (x ∷ l) ≢ []
unfolding join
join-ne-nil x [] ne h = ne h
join-ne-nil [] (y ∷ l) ne h = ne refl
join-ne-nil (c ∷ x) (y ∷ l) ne h = cc

separator_in : (q : ℕ) (x s : Bytes) → ¬ All (λ c. c ≢ q) (x ++ (q ∷ s))
separator_in q [] s h = h.0 refl
separator_in q (c ∷ x) s h = separator_in q x s h.1

join-injective :
    (l m : List Bytes)
    → All IsPlainRight l
    → All IsPlainRight m
    → join (record_separator ∷ []) l ≡ join (record_separator ∷ []) m
    → l ≡ m
unfolding join
join-injective [] [] hl hm h = refl
join-injective [] (y ∷ m) hl hm h = absurd (join-ne-nil y m hm.0.0 (sym h))
join-injective (x ∷ l) [] hl hm h = absurd (join-ne-nil x l hl.0.0 h)
join-injective (x ∷ []) (y ∷ []) hl hm h = ap (λ z. z ∷ []) h
join-injective (x ∷ []) (y ∷ z ∷ m) hl hm h =
    absurd (separator_in record_separator y _ (subst (All (λ c. c ≢ record_separator)) h hl.0.1))
join-injective (x ∷ w ∷ l) (y ∷ []) hl hm h =
    absurd
      (separator_in record_separator x _ (subst (All (λ c. c ≢ record_separator)) (sym h) hm.0.1))
join-injective (x ∷ w ∷ l) (y ∷ z ∷ m) hl hm h =
    let (e, f) = split_separator record_separator x y _ _ hl.0.1 hm.0.1 h in
    let rest = join-injective (w ∷ l) (z ∷ m) hl.1 hm.1 f in
    ap (λ c. c ∷ w ∷ l) e ∙ ap (λ k. y ∷ k) rest

All-insert_sorted :
    (s : Bytes) (l : List Bytes)
    → IsPlainRight s
    → All IsPlainRight l
    → All IsPlainRight (insert_sorted s l)
unfolding insert_sorted
All-insert_sorted s [] h k = (h, tt)
All-insert_sorted s (t ∷ l) h k = elim (Bool-cases (bytes_leb s t)) [
  | inl e ↦ rw e (h, k)
  | inr e ↦ rw e (k.0, All-insert_sorted s l h k.1)
]

All-sort_strings : (l : List Bytes) → All IsPlainRight l → All IsPlainRight (sort_strings l)
unfolding sort_strings
All-sort_strings [] h = tt
All-sort_strings (s ∷ l) h = All-insert_sorted s (sort_strings l) h.0 (All-sort_strings l h.1)

no_unit-join :
    (l : List Bytes)
    → All IsPlainRight l
    → All (λ c. c ≢ unit_separator) (join (record_separator ∷ []) l)
unfolding join
no_unit-join [] h = tt
no_unit-join (x ∷ []) h = h.0.2
no_unit-join (x ∷ y ∷ l) h =
    All-append (λ c. c ≢ unit_separator) x _ h.0.2
      ((λ e. absurd (omega arith)), no_unit-join (y ∷ l) h.1)

module _ (u : CaseFolding) where
  -- The same grant, up to case and the order of the rights; `inherited` does not count.
  pub record SameGrant (a b : Ace) : Type 0 where
    pub trustee : u.to_lower a.trustee ≡ u.to_lower b.trustee
    pub kind : u.to_lower a.kind ≡ u.to_lower b.kind
    pub rights : Perm (map u.to_lower a.rights) (map u.to_lower b.rights)
    pub object_type : u.to_lower a.object_type ≡ u.to_lower b.object_type
    pub inherited_object_type :
        u.to_lower a.inherited_object_type ≡ u.to_lower b.inherited_object_type
    pub inheritance : u.to_lower a.inheritance ≡ u.to_lower b.inheritance

  -- No field of the entry, lowered, has a separator in it, and no right is empty.
  pub record IsPlain (a : Ace) : Type 0 where
    pub trustee : All (λ c. c ≢ unit_separator) (u.to_lower a.trustee)
    pub kind : All (λ c. c ≢ unit_separator) (u.to_lower a.kind)
    pub rights : All IsPlainRight (map u.to_lower a.rights)
    pub object_type : All (λ c. c ≢ unit_separator) (u.to_lower a.object_type)
    pub inherited_object_type : All (λ c. c ≢ unit_separator) (u.to_lower a.inherited_object_type)

  -- Entries that grant the same have the same key, whatever is in their fields.
  pub canonical_ace_key-congr :
      (a b : Ace) → SameGrant a b → canonical_ace_key u a ≡ canonical_ace_key u b
  unfolding canonical_ace_key
  canonical_ace_key-congr a b s =
      cc (
        s.trustee,
        s.kind,
        sort-perm s.rights,
        s.object_type,
        s.inherited_object_type,
        s.inheritance,
      )

  -- Where no right, lowered, is empty or holds a separator, and none of the other fields in front of
  -- the last holds the unit separator, entries with the same key grant the same.
  pub canonical_ace_key-injective :
      (a b : Ace)
      → IsPlain a
      → IsPlain b
      → canonical_ace_key u a ≡ canonical_ace_key u b
      → SameGrant a b
  unfolding canonical_ace_key
  canonical_ace_key-injective a b p q h =
      let ra = All-sort_strings (map u.to_lower a.rights) p.rights in
      let rb = All-sort_strings (map u.to_lower b.rights) q.rights in
      let (e1, h1) = split_separator unit_separator _ _ _ _ p.trustee q.trustee h in
      let (e2, h2) = split_separator unit_separator _ _ _ _ p.kind q.kind h1 in
      let (e3, h3) =
        split_separator unit_separator _ _ _ _ (no_unit-join _ ra) (no_unit-join _ rb) h2 in
      let (e4, h4) = split_separator unit_separator _ _ _ _ p.object_type q.object_type h3 in
      let (e5, e6) =
        split_separator unit_separator _ _ _ _ p.inherited_object_type q.inherited_object_type h4 in
      let sorted =
        join-injective (sort_strings (map u.to_lower a.rights))
          (sort_strings (map u.to_lower b.rights)) ra rb e3 in
      record {
        trustee = e1;
        kind = e2;
        rights = Perm.trans (Perm.symm (sort_strings_perm (map u.to_lower a.rights))) (
            subst (λ l. Perm l (map u.to_lower b.rights)) (sym sorted)
              (sort_strings_perm (map u.to_lower b.rights)));
        object_type = e4;
        inherited_object_type = e5;
        inheritance = e6;
      }
