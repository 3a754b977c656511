-- ===== src/Fake/Naming.antt =====
-- The DNs of adcorefake/ that are joined from a name and a container, under `eqDN` and the suffix test.
use go_adcore.Common.{
  ℕ, zero, suc, ◌↔◌, take, ◌-◌, ◌<◌, ◌≡◌, ◌≢◌, refl, sym, ap, ◌∙◌, true, false, List, [], ◌∷◌, ◌++◌,
  ok, some, length, leb, All, map, length-append, arith,
}
use mathlib.Core.List.{append_assoc}
use go_adcore.Bytes.{equal_iff, Bytes, codes, trim_space}
use go_adcore.Folding.{CaseFolding, KeepsAscii, lower_ascii, equal_fold}
use go_adcore.Maps.{equal_same}
use go_adcore.Dn.{Dn, RelativeDn}
use go_adcore.Dn.Parse.{parse_dn}
use go_adcore.Dn.Render.{escape_value}
use go_adcore.Dn.RoundTrip.{IsReadable}
use go_adcore.Dn.Joining.{single, parse_dn-joined}
use go_adcore.Dn.Equality.{dn_equal_fold_refl}
use go_adcore.Dn.Compare.{
  dn_equal_fold, rdns_equal_fold, rdn_equal_fold, all_matched, use_match, attribute_matches,
  keep_flag, none_used,
}
use go_adcore.Dn.Strings.{equal_fold_dn}
use go_adcore.Fake.Lookup.{eq_dn, is_below, has_suffix, drop}
use go_adcore.Fake.Classes.{join_dn}

abbrev pub unit_dn : Bytes → Bytes → Bytes
unit_dn name container = join_dn (codes "OU=") name container

ou-IsReadable : (name : Bytes) → IsReadable (record { kind = codes "OU"; value = name })
unfolding trim_space
ou-IsReadable name = record {
  no_equals = ((λ h. absurd (omega arith)), ((λ h. absurd (omega arith)), tt));
  trimmed = refl;
  not_empty = λ h. cc;
}

pub parse_unit_dn :
    (name container : Bytes) (d : Dn)
    → parse_dn container ≡ ok d
    → d.rdns ≢ []
    → parse_dn (unit_dn name container) ≡ ok (record { rdns = single (codes "OU") name ∷ d.rdns })
parse_unit_dn name container d h ne =
    parse_dn-joined (codes "OU") name container d (ou-IsReadable name) h ne

drop-append : (s t : Bytes) → drop (length s) (s ++ t) ≡ t
drop-append [] t = refl
drop-append (c ∷ s) t = drop-append s t

pub has_suffix-append : (s t : Bytes) → has_suffix (s ++ t) t ≡ true
unfolding has_suffix
has_suffix-append s t =
    let cut : length (s ++ t) - length t ≡ length s = omega (arith, length-append s t) in
    let fits : leb (length t) (length (s ++ t)) ≡ true = ground (arith, length-append s t) in
    rw (fits, cut, drop-append s t) (equal_same t)

take-drop : (n : ℕ) (s : Bytes) → take n s ++ drop n s ≡ s
take-drop zero s = refl
take-drop (suc n) [] = refl
take-drop (suc n) (c ∷ s) = ap (◌∷◌ c) (take-drop n s)

-- A suffix is what stands behind a front.
pub has_suffix_iff : (s t : Bytes) → (has_suffix s t ≡ true) ↔ ((front : Bytes) × (s ≡ front ++ t))
unfolding has_suffix
has_suffix_iff s t = (
  λ h.
      let rest : drop (length s - length t) s ≡ t =
        (equal_iff (drop (length s - length t) s) t).0 (ground (arith, h)) in
      (
        take (length s - length t) s,
        sym (take-drop (length s - length t) s) ∙ ap (◌++◌ (take (length s - length t) s)) rest,
      ),
  λ (front, is). ap (λ x. has_suffix x t) is ∙ has_suffix-append front t,
)

module _ (u : CaseFolding) where
  pub eq_dn_refl : (dn : Bytes) (d : Dn) → parse_dn dn ≡ ok d → eq_dn u dn dn ≡ true
  unfolding eq_dn equal_fold_dn
  eq_dn_refl dn d h = rw (h, eq_dn) (dn_equal_fold_refl u d)

  single_apart :
      (a b : Bytes) (rs : List RelativeDn)
      → equal_fold u a b ≡ false
      → dn_equal_fold u
          (record { rdns = single (codes "OU") a ∷ rs })
          (some (record { rdns = single (codes "OU") b ∷ rs }))
        ≡ false
  unfolding dn_equal_fold rdns_equal_fold rdn_equal_fold all_matched use_match attribute_matches
      keep_flag none_used
  single_apart a b rs h = ground (arith, h)

  -- Units in one container whose names differ under case folding have different DNs.
  pub eq_dn_apart :
      (a b container : Bytes) (d : Dn)
      → parse_dn container ≡ ok d
      → d.rdns ≢ []
      → equal_fold u a b ≡ false
      → eq_dn u (unit_dn a container) (unit_dn b container) ≡ false
  unfolding eq_dn equal_fold_dn
  eq_dn_apart a b container d h ne apart =
      rw (parse_unit_dn a container d h ne, parse_unit_dn b container d h ne, eq_dn)
        (single_apart a b d.rdns apart)

  -- A unit lies below its container.
  pub unit_dn-is_below :
      (name container : Bytes)
      → KeepsAscii u
      → All (λ c. c < 128) (codes "OU=" ++ escape_value name)
      → is_below u (unit_dn name container) container ≡ true
  unfolding is_below
  unit_dn-is_below name container k h =
      let front = codes "OU=" ++ escape_value name in
      let lowered : u.to_lower (unit_dn name container)
          ≡ map lower_ascii front ++ (b',' ∷ u.to_lower container) =
        ap u.to_lower (sym (append_assoc (codes "OU=") (escape_value name) (b',' ∷ container)))
        ∙ k.lower_append front (b',' ∷ container) h
        ∙ ap (◌++◌ (map lower_ascii front))
            (k.lower_append (b',' ∷ []) container (omega arith, tt)) in
      ap (λ s. has_suffix s (b',' ∷ u.to_lower container)) lowered
      ∙ has_suffix-append (map lower_ascii front) (b',' ∷ u.to_lower container)
