-- ===== src/Acl/Sorting.antt =====
-- `sort.Strings` gives the same list for every order of its argument.
use mathlib.Core.Logic.{∥∥₁_elim}
use mathlib.Core.List.{Perm, Permᴰ}
use mathlib.Core.List.Perm
use go_adcore.Common.{◌≡◌, refl, ◌∙◌, true, false, List, [], ◌∷◌, arith, inl, inr, Bool-cases}
use go_adcore.Bytes.{Bytes}
use go_adcore.Acl.{bytes_leb, insert_sorted, sort_strings}

bytes_leb_total : (a b : Bytes) → bytes_leb a b ≡ false → bytes_leb b a ≡ true
unfolding bytes_leb
bytes_leb_total [] b h = cc
bytes_leb_total (x ∷ a) [] h = refl
bytes_leb_total (x ∷ a) (y ∷ b) h = ground (arith, bytes_leb_total a b)

bytes_leb_antisymm : (a b : Bytes) → bytes_leb a b ≡ true → bytes_leb b a ≡ true → a ≡ b
unfolding bytes_leb
bytes_leb_antisymm [] [] h k = refl
bytes_leb_antisymm [] (y ∷ b) h k = cc
bytes_leb_antisymm (x ∷ a) [] h k = cc
bytes_leb_antisymm (x ∷ a) (y ∷ b) h k = ground (arith, bytes_leb_antisymm a b)

bytes_leb_trans :
    (a b c : Bytes) → bytes_leb a b ≡ true → bytes_leb b c ≡ true → bytes_leb a c ≡ true
unfolding bytes_leb
bytes_leb_trans [] b c h k = refl
bytes_leb_trans (x ∷ a) [] c h k = cc
bytes_leb_trans (x ∷ a) (y ∷ b) [] h k = cc
bytes_leb_trans (x ∷ a) (y ∷ b) (z ∷ c) h k = ground (arith, bytes_leb_trans a b c)

insert_sorted_comm :
    (x y : Bytes) (l : List Bytes)
    → insert_sorted x (insert_sorted y l) ≡ insert_sorted y (insert_sorted x l)
unfolding insert_sorted
insert_sorted_comm x y [] =
    ground (arith, bytes_leb_total x y, bytes_leb_total y x, bytes_leb_antisymm x y)
insert_sorted_comm x y (z ∷ l) = ground (
  arith,
  bytes_leb_total x y,
  bytes_leb_total y x,
  bytes_leb_antisymm x y,
  bytes_leb_trans x y z,
  bytes_leb_trans y x z,
  bytes_leb_total y z,
  bytes_leb_total x z,
  insert_sorted_comm x y l,
)

Strings-set : IsSet (List Bytes)
Strings-set = hlevel

sort-permᴰ : {l m : List Bytes} → Permᴰ l m → sort_strings l ≡ sort_strings m
unfolding sort_strings
sort-permᴰ Permᴰ.nil = refl
sort-permᴰ (Permᴰ.cons e p) = cc (sort-permᴰ p)
sort-permᴰ (Permᴰ.swap {a} {b} {l = l} e f) = insert_sorted_comm a b (sort_strings l) ∙ cc
sort-permᴰ (Permᴰ.trans p q) = sort-permᴰ p ∙ sort-permᴰ q

pub sort-perm : {l m : List Bytes} → Perm l m → sort_strings l ≡ sort_strings m
sort-perm p = ∥∥₁_elim p (Strings-set _ _) sort-permᴰ

insert_sorted_perm : (s : Bytes) (l : List Bytes) → Perm (insert_sorted s l) (s ∷ l)
unfolding insert_sorted
insert_sorted_perm s [] = Perm.refl (s ∷ [])
insert_sorted_perm s (t ∷ l) = elim (Bool-cases (bytes_leb s t)) [
  | inl e ↦ rw e (Perm.refl (s ∷ t ∷ l))
  | inr e ↦ rw e (Perm.trans (Perm.cons t (insert_sorted_perm s l)) (Perm.swap s t l))
]

pub sort_strings_perm : (l : List Bytes) → Perm (sort_strings l) l
unfolding sort_strings
sort_strings_perm [] = Perm.nil
sort_strings_perm (s ∷ l) =
    Perm.trans (insert_sorted_perm s (sort_strings l)) (Perm.cons s (sort_strings_perm l))
