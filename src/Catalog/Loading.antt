-- ===== src/Catalog/Loading.antt =====
-- `Load` and `LoadFile` of schema/catalog.go. The file system and the decoder of `encoding/json` are no
-- code of the repository: they are a parameter, and read and write a world `W`.
use mathlib.Core.Path.{subst}
use go_adcore.Common.{◌≡◌, ◌↔◌, refl, sym, ap, ◌∙◌, ℕ, List, some, Result, ok, err, ◌⊎◌, inl, inr}
use go_adcore.Bytes.{Bytes}
use go_adcore.Maps.{lookup}
use go_adcore.Catalog.{Class, Catalog, Problem, validate}
use go_adcore.Catalog.Integrity.{IsSound, validate_iff}

-- `os.Open`, `json.NewDecoder(r).Decode` into a new catalog, and `Close` of a file, over the errors `E`
-- of the two and the readers `R`
pub record Files (W E R : Type 0) : Type 0 where
  pub open_file : Bytes → W → Result E R × W
  pub decode : R → W → Result E Catalog × W
  pub close_file : R → W → W

-- the errors of `LoadFile`; the third is that of `Validate`
pub data LoadError (E : Type 0) : Type 0 where
  cannot_open cannot_decode : E → LoadError E
  inconsistent : ℕ → List Problem → LoadError E

-- `if err := c.Validate(); err != nil`
unfoldable pub validated : {E : Type 0} → Catalog → Result (LoadError E) Catalog
validated c = elim (validate c) [ ok done ↦ ok c | err (n, shown) ↦ err (inconsistent n shown) ]

-- what `Load` makes of what the decoder returns
unfoldable pub load_result : {E : Type 0} → Result E Catalog → Result (LoadError E) Catalog
unfolding validated
load_result (ok c) = validated c
load_result (err e) = err (cannot_decode e)

module _ {W E R : Type 0} (files : Files W E R) where
  -- `func Load`
  unfoldable pub load : R → W → Result (LoadError E) Catalog × W
  unfolding load_result
  load r w = let d = files.decode r w in (load_result d.0, d.1)

  -- `LoadFile` after `os.Open`, with the deferred `f.Close()`
  unfoldable pub load_opened : Result E R × W → Result (LoadError E) Catalog × W
  unfolding load
  load_opened (err e, w) = (err (cannot_open e), w)
  load_opened (ok f, w) = let r = load f w in (r.0, files.close_file f r.1)

  -- `func LoadFile`
  unfoldable pub load_file : Bytes → W → Result (LoadError E) Catalog × W
  unfolding load_opened
  load_file path w = load_opened (files.open_file path w)

-- each class of the catalog is sound
abbrev pub AllSound : Catalog → Type 0
AllSound c = (name : Bytes) (cl : Class) → lookup c.classes name ≡ some cl → IsSound c.attributes cl

validated_iff :
    {E : Type 0} (c m : Catalog) → (validated {E = E} c ≡ ok m) ↔ ((c ≡ m) × (validate c ≡ ok tt))
unfolding validated
validated_iff c m = elim (cases (validate c)) [
  | inl e ↦ rw (e, validated) ((λ h. (cc, refl)), (λ h. cc))
  | inr (p, e) ↦ rw (e, validated) ((λ h. cc), (λ h. cc))
]
  where
    cases :
        (r : Result (ℕ × List Problem) (Unit {0}))
        → (r ≡ ok tt) ⊎ (p : ℕ × List Problem) × (r ≡ err p)
    cases (ok tt) = inl refl
    cases (err p) = inr (p, refl)

pub load_result_iff :
    {E : Type 0} (d : Result E Catalog) (m : Catalog)
    → (load_result d ≡ ok m) ↔ ((d ≡ ok m) × AllSound m)
unfolding load_result
load_result_iff (err e) m = ((λ h. cc), (λ h. cc))
load_result_iff {E = E} (ok c) m = (
  (λ h.
      let (same, v) = (validated_iff {E = E} c m).0 h in
      (ap ok same, subst AllSound same ((validate_iff c).0 v))),
  (λ h.
      let same : c ≡ m = cc in
      (validated_iff {E = E} c m).1 (same, (validate_iff c).1 (subst AllSound (sym same) h.1))),
)

module _ {W E R : Type 0} (files : Files W E R) where
  -- What `os.Open` returned is a file, what the decoder then read of it is the catalog, each class of it
  -- is sound, and at last the file was closed.
  pub record IsLoaded (o : Result E R × W) (c : Catalog) (w' : W) : Type 0 where
    pub file : R
    pub opened : W
    pub read : W
    pub is_open : o ≡ (ok file, opened)
    pub is_decoded : files.decode file opened ≡ (ok c, read)
    pub is_closed : w' ≡ files.close_file file read
    pub sound : AllSound c

  load_opened-IsLoaded :
      (o : Result E R × W) (c : Catalog) (w' : W)
      → load_opened files o ≡ (ok c, w')
      → IsLoaded o c w'
  unfolding load_opened load
  load_opened-IsLoaded (err e, w) c w' h = cc
  load_opened-IsLoaded (ok f, w) c w' h =
      let (decoded, sound) = (load_result_iff (files.decode f w).0 c).0 (ap (λ x. x.0) h) in
      record {
        file = f;
        opened = w;
        read = (files.decode f w).1;
        is_open = refl;
        is_decoded = ap (λ d. (d, (files.decode f w).1)) decoded;
        is_closed = sym (ap (λ x. x.1) h);
        sound = sound;
      }

  IsLoaded-load_opened :
      (o : Result E R × W) (c : Catalog) (w' : W)
      → IsLoaded o c w'
      → load_opened files o ≡ (ok c, w')
  unfolding load_opened load
  IsLoaded-load_opened o c w' r =
      ap (load_opened files) r.is_open
      ∙ ap (λ d. (load_result d.0, files.close_file r.file d.1)) r.is_decoded
      ∙ ap (λ x. (x, files.close_file r.file r.read)) ((load_result_iff (ok c) c).1 (refl, r.sound))
      ∙ ap (λ v. (ok c, v)) (sym r.is_closed)

  -- `LoadFile` returns a catalog exactly if the file of the path opens, the decoder reads that catalog of
  -- it, and each class of the catalog is sound; the file is then closed. Where the file opens, what
  -- `LoadFile` does last is to close it, whatever it returns; where it does not, nothing is read.
  pub load_file_lem :
      (path : Bytes) (w : W)
      → ((c : Catalog) (w' : W)
          → (load_file files path w ≡ (ok c, w')) ↔ IsLoaded (files.open_file path w) c w')
        × ((f : R) (v : W)
            → files.open_file path w ≡ (ok f, v)
            → (load_file files path w).1 ≡ files.close_file f (files.decode f v).1)
        × ((e : E) (v : W)
            → files.open_file path w ≡ (err e, v)
            → load_file files path w ≡ (err (cannot_open e), v))
  unfolding load_file load_opened load
  load_file_lem path w = (
    (λ c w'. (
      load_opened-IsLoaded (files.open_file path w) c w',
      IsLoaded-load_opened (files.open_file path w) c w',
    )),
    (λ f v h. ap (λ o. (load_opened files o).1) h),
    (λ e v h. ap (load_opened files) h),
  )
