-- ===== src/Maps.antt =====
-- A Go `map[string]V` as an association list without repeated keys: its order stands for the order
-- in which a loop over the map meets the entries.
use go_adcore.Common.{
  ◌≡◌, refl, sym, ap, ◌∙◌, Bool, true, false, not, ◌&&◌, ◌||◌, List, [], ◌∷◌, Option, none, some,
  if◌then◌else◌, arith, Bool-cases, inl, inr,
}
use go_adcore.Bytes.{Bytes, equal, equal_iff}

-- `_, ok := m[key]` on the keys of a map
unfoldable pub has_key : List Bytes → Bytes → Bool
has_key [] k = false
has_key (x ∷ l) k = equal x k || has_key l k

pub equal_same : (x : Bytes) → equal x x ≡ true
equal_same x = (equal_iff x x).1 refl

-- No key twice.
abbrev pub Distinct : List Bytes → Type 0
Distinct [] = Unit
Distinct (x ∷ l) = (has_key l x ≡ false) × Distinct l

module _ {ℓ} {A : Type ℓ} where
  -- `maps.Keys(m)`
  abbrev pub keys : List (Bytes × A) → List Bytes
  keys [] = []
  keys ((k, v) ∷ m) = k ∷ keys m

  -- `v, ok := m[key]`
  unfoldable pub lookup : List (Bytes × A) → Bytes → Option A
  lookup [] key = none
  lookup ((k, v) ∷ m) key = if equal k key then some v else lookup m key

  -- `delete(m, key)`
  unfoldable pub delete_key : List (Bytes × A) → Bytes → List (Bytes × A)
  delete_key [] key = []
  delete_key ((k, v) ∷ m) key = if equal k key then delete_key m key else (k, v) ∷ delete_key m key

  -- `m[key] = v`
  unfoldable pub put : List (Bytes × A) → Bytes → A → List (Bytes × A)
  put [] key v = (key, v) ∷ []
  put ((k, w) ∷ m) key v = if equal k key then (k, v) ∷ m else (k, w) ∷ put m key v

  pub lookup-put :
      (m : List (Bytes × A)) (key : Bytes) (v : A) (j : Bytes)
      → lookup (put m key v) j ≡ (if equal key j then some v else lookup m j)
  unfolding lookup put
  lookup-put [] key v j = refl
  lookup-put ((k, w) ∷ m) key v j =
      ground (arith, lookup-put m key v j, equal_iff k key, equal_iff k j, equal_iff key j)

  pub lookup-delete_key :
      (m : List (Bytes × A)) (key j : Bytes)
      → lookup (delete_key m key) j ≡ (if equal key j then none else lookup m j)
  unfolding lookup delete_key
  lookup-delete_key [] key j = ground arith
  lookup-delete_key ((k, w) ∷ m) key j =
      ground (arith, lookup-delete_key m key j, equal_iff k key, equal_iff k j, equal_iff key j)

  has_key-keys-put :
      (m : List (Bytes × A)) (key : Bytes) (v : A) (j : Bytes)
      → has_key (keys (put m key v)) j ≡ (equal key j || has_key (keys m) j)
  unfolding has_key put
  has_key-keys-put [] key v j = refl
  has_key-keys-put ((k, w) ∷ m) key v j =
      ground (arith, has_key-keys-put m key v j, equal_iff k key, equal_iff k j, equal_iff key j)

  has_key-keys-delete_key :
      (m : List (Bytes × A)) (key j : Bytes)
      → has_key (keys (delete_key m key)) j ≡ (not (equal key j) && has_key (keys m) j)
  unfolding has_key delete_key
  has_key-keys-delete_key [] key j = ground arith
  has_key-keys-delete_key ((k, w) ∷ m) key j =
      ground
        (arith, has_key-keys-delete_key m key j, equal_iff k key, equal_iff k j, equal_iff key j)

  pub put-Distinct :
      (m : List (Bytes × A)) (key : Bytes) (v : A)
      → Distinct (keys m)
      → Distinct (keys (put m key v))
  unfolding put has_key
  put-Distinct [] key v d = (refl, tt)
  put-Distinct ((k, w) ∷ m) key v d = elim (Bool-cases (equal k key)) [
    | inl e ↦ rw e d
    | inr e ↦ rw e (
      has_key-keys-put m key v k ∙ ground (arith, d.0, equal_iff k key, equal_iff key k),
      put-Distinct m key v d.1,
    )
  ]

  pub delete_key-Distinct :
      (m : List (Bytes × A)) (key : Bytes) → Distinct (keys m) → Distinct (keys (delete_key m key))
  unfolding delete_key has_key
  delete_key-Distinct [] key d = tt
  delete_key-Distinct ((k, w) ∷ m) key d = elim (Bool-cases (equal k key)) [
    | inl e ↦ rw e (delete_key-Distinct m key d.1)
    | inr e ↦
        rw e (has_key-keys-delete_key m key k ∙ ground (arith, d.0), delete_key-Distinct m key d.1)
  ]

  -- A key without an entry is looked up in vain.
  pub lookup-eq-none :
      (m : List (Bytes × A)) (key : Bytes) → has_key (keys m) key ≡ false → lookup m key ≡ none
  unfolding lookup has_key
  lookup-eq-none [] key h = refl
  lookup-eq-none ((k, w) ∷ m) key h = ground (arith, lookup-eq-none m key)

  -- A key has an entry exactly if it is looked up.
  pub lookup-has_key :
      (m : List (Bytes × A)) (key : Bytes) (v : A)
      → lookup m key ≡ some v
      → has_key (keys m) key ≡ true
  unfolding lookup has_key
  lookup-has_key [] key v h = cc
  lookup-has_key ((k, w) ∷ m) key v h = elim (Bool-cases (equal k key)) [
    | inl e ↦ rw e refl
    | inr e ↦
        rw e (lookup-has_key m key v (ap (λ b. if b then some w else lookup m key) (sym e) ∙ h))
  ]

  pub has_key-lookup :
      (m : List (Bytes × A)) (key : Bytes)
      → has_key (keys m) key ≡ true
      → (v : A) × (lookup m key ≡ some v)
  unfolding lookup has_key
  has_key-lookup [] key h = cc
  has_key-lookup ((k, w) ∷ m) key h = elim (Bool-cases (equal k key)) [
    | inl e ↦ (w, rw e refl)
    | inr e ↦ let (v, at) = has_key-lookup m key (ground (arith, h, e)) in (v, rw e at)
  ]
