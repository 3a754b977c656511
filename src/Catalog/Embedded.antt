-- ===== src/Catalog/Embedded.antt =====
-- `Baseline` of schema/embed.go. The embedded file and the reader over its bytes are no code of the
-- repository: they are parameters.
use go_adcore.Common.{
  ◌≡◌, refl, ℕ, zero, suc, Bool, true, false, List, [], ◌∷◌, Option, none, some, Result, ok, err,
  All, if◌then◌else◌,
}
use go_adcore.Catalog.{Catalog}
use go_adcore.Catalog.Loading.{Files, LoadError, load_result, load, AllSound, load_result_iff}

-- the variables `baselineOnce`, `baseline` and `baselineErr`; nil is `none`
pub record Shared (E : Type 0) : Type 0 where
  pub once : Bool
  pub baseline : Option Catalog
  pub baseline_err : Option (LoadError E)

-- the variables before the first call
abbrev pub unread : {E : Type 0} → Shared E
unread = record { once = false; baseline = none; baseline_err = none }

abbrev pub catalog_of : {E : Type 0} → Result (LoadError E) Catalog → Option Catalog
catalog_of (ok c) = some c
catalog_of (err e) = none

abbrev pub failure_of : {E : Type 0} → Result (LoadError E) Catalog → Option (LoadError E)
failure_of (ok c) = none
failure_of (err e) = some e

module _ {W E R : Type 0} (files : Files W E R) (json : R) where
  -- the function that `baselineOnce.Do` calls, at the first call of `Do` only
  abbrev pub read_once : Shared E × W → Shared E × W
  read_once (s, w) =
      let r = load files json w in
      if s.once
      then (s, w)
      else (record { once = true; baseline = catalog_of r.0; baseline_err = failure_of r.0 }, r.1)

  -- `func Baseline`
  unfoldable pub baseline : Shared E × W → (Option Catalog × Option (LoadError E)) × (Shared E × W)
  baseline v = let after = read_once v in ((after.0.baseline, after.0.baseline_err), after)

  -- what `n` calls in a row return
  abbrev pub baselines :
      ℕ → Shared E × W → List (Option Catalog × Option (LoadError E)) × (Shared E × W)
  baselines zero v = ([], v)
  baselines (suc n) v =
      let first = baseline v in let rest = baselines n first.1 in (first.0 ∷ rest.0, rest.1)

  abbrev loaded : Result (LoadError E) Catalog → Shared E
  loaded r = record { once = true; baseline = catalog_of r; baseline_err = failure_of r }

  baselines-loaded :
      (n : ℕ) (r : Result (LoadError E) Catalog) (v : W)
      → All (λ x. x ≡ (catalog_of r, failure_of r)) (baselines n (loaded r, v)).0
        × ((baselines n (loaded r, v)).1.1 ≡ v)
  unfolding baseline
  baselines-loaded zero r v = (tt, refl)
  baselines-loaded (suc n) r v = let later = baselines-loaded n r v in ((refl, later.0), later.1)

  sound_catalog :
      (d : Result E Catalog) (c : Catalog) → catalog_of (load_result d) ≡ some c → AllSound c
  sound_catalog d c h = ((load_result_iff d c).0 (cases (load_result d) h)).1
    where
      cases : (r : Result (LoadError E) Catalog) → catalog_of r ≡ some c → r ≡ ok c
      cases (ok m) h = cc
      cases (err e) h = cc

  -- However often `Baseline` is called, from the first call on: each call returns what `Load` makes of the
  -- embedded catalog at the first call, the catalog is read only once, and a catalog that is returned has
  -- sound classes only.
  pub baselines_lem :
      (n : ℕ) (w : W)
      → All
          (λ x. x ≡ (catalog_of (load files json w).0, failure_of (load files json w).0))
          (baselines (suc n) (unread, w)).0
        × ((baselines (suc n) (unread, w)).1.1 ≡ (load files json w).1)
        × ((c : Catalog) → catalog_of (load files json w).0 ≡ some c → AllSound c)
  unfolding baseline load
  baselines_lem n w =
      let later = baselines-loaded n (load files json w).0 (load files json w).1 in
      ((refl, later.0), later.1, λ c h. sound_catalog (files.decode json w).0 c h)
