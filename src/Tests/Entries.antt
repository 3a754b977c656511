-- ===== src/Tests/Entries.antt =====
-- acl.go, delegation.go and retry.go on concrete values.
use mathlib.Core.List.Perm
use go_adcore.Common.{
  List, some, not, ◌&&◌, ◌||◌, ℕ, ◌≤◌, ◌+◌, ◌-◌, ◌/◌, ◌*◌, ◌^◌, ◌≡◌, refl, true, false, [], ◌∷◌,
  ltb, if◌then◌else◌, pos, negsuc, arith,
}
use go_adcore.Bytes.{Bytes, join, equal, codes}
use go_adcore.Folding.{ascii}
use go_adcore.Acl.{Ace, canonical_ace_key, sort_strings, insert_sorted, bytes_leb}
use go_adcore.Errors.{nil}
use go_adcore.Identity.{by_dn}
use go_adcore.Fake.Entries.{grant, revoke, grant_each, keep_each, entry_keys}
use go_adcore.Maps.{has_key}
use go_adcore.Fake.Granting.{grant_lem, revoke_lem, explicit_entries, inherited_entries, IsAdded}
use go_adcore.Acl.Keys.{SameGrant, IsPlain, canonical_ace_key-injective}
use go_adcore.Retry
use go_adcore.Retry.{Floats, RetryConfig, capped_delay}
use go_adcore.Retry.Delay.{capped_delay_bounds, capped_delay_lem}

abbrev read_entry : Ace
read_entry = record {
  trustee = codes "S-1";
  kind = codes "Allow";
  rights = codes "W" ∷ codes "R" ∷ [];
  object_type = [];
  inherited_object_type = [];
  inheritance = codes "this";
  inherited = false;
}

abbrev same_entry : Ace
same_entry = record read_entry {
  trustee = codes "s-1";
  rights = codes "r" ∷ codes "w" ∷ [];
  inherited = true;
}

same_grant : SameGrant ascii read_entry same_entry
same_grant = record {
  trustee = refl;
  kind = refl;
  rights = Perm.swap _ _ [];
  object_type = refl;
  inherited_object_type = refl;
  inheritance = refl;
}

read_entry-IsPlain : IsPlain ascii read_entry
read_entry-IsPlain = record {
  trustee = (omega arith, (omega arith, (omega arith, tt)));
  kind = (omega arith, (omega arith, (omega arith, (omega arith, (omega arith, tt)))));
  rights = (
    ((λ h. cc), (omega arith, tt), (omega arith, tt)),
    (((λ h. cc), (omega arith, tt), (omega arith, tt)), tt),
  );
  object_type = tt;
  inherited_object_type = tt;
}

canonical_ace_key-injective_example : SameGrant ascii read_entry read_entry
canonical_ace_key-injective_example =
    canonical_ace_key-injective ascii read_entry read_entry read_entry-IsPlain read_entry-IsPlain
      refl

-- floats replaced by thousandths
abbrev thousandths : Floats
thousandths = record {
  Float = ℕ;
  lt = ltb;
  literal = λ n. 1000 * n;
  one_fifth = 200;
  of_int = λ i. elim i [ pos n ↦ 1000 * n | negsuc n ↦ 0 ];
  to_int = λ x. pos (x / 1000);
  add = λ x y. x + y;
  sub = λ x y. x - y;
  mul = λ x y. x * y / 1000;
}

abbrev settings : RetryConfig thousandths
settings = record {
  max_attempts = pos 4;
  initial_backoff = pos 250000000;
  max_backoff = pos 5000000000;
  jitter = 0;
}

capped_delay_bounds_example :
    (m : ℕ) × (d : ℕ) × ((Retry.with_defaults thousandths settings).max_backoff ≡ pos m)
    × (capped_delay thousandths (Retry.with_defaults thousandths settings) 29 ≡ pos d)
    × (1 ≤ d)
    × (d ≤ m)
capped_delay_bounds_example = capped_delay_bounds thousandths settings 29

capped_delay_lem_example :
    capped_delay thousandths settings 2
    ≡ pos (if ltb 5000000000 (250000000 * 2 ^ 2) then 5000000000 else 250000000 * 2 ^ 2)
capped_delay_lem_example =
    capped_delay_lem thousandths settings 2 250000000 5000000000 (omega arith) (omega arith) refl
      refl (omega arith)

grant_lem_example :
    (added : List Ace) × (grant ascii
        (by_dn (codes "DC=x"))
        (same_entry ∷ [])
        (some (read_entry ∷ []))
      ≡ (some (read_entry ∷ added), nil))
    × IsAdded ascii (read_entry ∷ []) (same_entry ∷ []) added
    × ((k : Bytes)
        → has_key (entry_keys ascii (read_entry ∷ added)) k ≡ (
            has_key (entry_keys ascii (read_entry ∷ [])) k
            || has_key (entry_keys ascii (same_entry ∷ [])) k))
    × (grant ascii (by_dn (codes "DC=x")) (same_entry ∷ []) (some (read_entry ∷ added))
        ≡ (some (read_entry ∷ added), nil))
grant_lem_example = grant_lem ascii (by_dn (codes "DC=x")) (same_entry ∷ []) (read_entry ∷ [])

revoke_lem_example :
    (after : List Ace) × (revoke ascii
        (by_dn (codes "DC=x"))
        (read_entry ∷ [])
        (some (read_entry ∷ same_entry ∷ []))
      ≡ (some after, nil))
    × ((k : Bytes)
        → has_key (entry_keys ascii (explicit_entries after)) k ≡ (
            has_key (entry_keys ascii (explicit_entries (read_entry ∷ same_entry ∷ []))) k
            && not (has_key (entry_keys ascii (read_entry ∷ [])) k)))
    × (inherited_entries after ≡ inherited_entries (read_entry ∷ same_entry ∷ []))
revoke_lem_example =
    revoke_lem ascii (by_dn (codes "DC=x")) (read_entry ∷ []) (read_entry ∷ same_entry ∷ [])

-- the same grant in other words is not added; an inherited copy is not revoked
runs :
    (grant ascii (by_dn []) (same_entry ∷ []) (some (read_entry ∷ []))
      ≡ (some (read_entry ∷ []), nil))
    × (revoke ascii (by_dn []) (read_entry ∷ []) (some (read_entry ∷ same_entry ∷ []))
        ≡ (some (same_entry ∷ []), nil))
unfolding grant revoke grant_each keep_each has_key canonical_ace_key sort_strings insert_sorted
    bytes_leb join equal
runs = (refl, refl)
