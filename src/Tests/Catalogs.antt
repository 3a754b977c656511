-- ===== src/Tests/Catalogs.antt =====
-- schema/catalog.go and schema/embed.go on a catalog of one class.
use go_adcore.Common.{ℕ, suc, ◌≡◌, ◌↔◌, refl, true, false, [], ◌∷◌, none, some, pos, ok, All}
use go_adcore.Bytes.{Bytes, codes, equal}
use go_adcore.Maps
use go_adcore.Maps.{lookup}
use go_adcore.Acl.{sort_strings, insert_sorted, bytes_leb}
use go_adcore.Catalog
use go_adcore.Catalog.{
  Attribute, Catalog, validate, class_names, all_problems, class_problems, attribute_problems,
  via_problems, is_named,
}
use go_adcore.Catalog.Integrity.{IsSound, validate_iff}
use go_adcore.Catalog.Loading.{
  Files, IsLoaded, load, load_opened, load_result, load_file, load_file_lem, validated, AllSound,
}
use go_adcore.Catalog.Embedded.{baselines, unread, catalog_of, failure_of, baselines_lem}

abbrev name_attribute : Attribute
name_attribute = record {
  oid = [];
  syntax = [];
  om_syntax = pos 64;
  single_valued = true;
  system_only = false;
  range_lower = none;
  range_upper = none;
  indexed = true;
  link_id = none;
}

abbrev small_catalog : Catalog
small_catalog = record {
  source = record {
    domain = codes "x";
    forest_mode = [];
    schema_nc = [];
    object_version = pos 88;
    exported_at = [];
    exporter = [];
  };
  attributes = (codes "cn", name_attribute) ∷ [];
  classes =
      (
        codes "top",
        record {
          structural = false;
          mandatory = codes "cn" ∷ [];
          optional = [];
          via = (codes "cn", codes "top") ∷ [];
        },
      )
      ∷ [];
}

validate_iff_example : (validate small_catalog ≡ ok tt) ↔ (
    (name : Bytes) (cl : Catalog.Class)
    → go_adcore.Maps.lookup small_catalog.classes name ≡ some cl
    → IsSound small_catalog.attributes cl)
validate_iff_example = validate_iff small_catalog

-- one file, whose world counts the reads and the files that are closed
abbrev one_file : Files (ℕ × ℕ) Bytes ℕ
one_file = record {
  open_file = λ path w. (ok 7, w);
  decode = λ r w. (ok small_catalog, (suc w.0, w.1));
  close_file = λ r w. (w.0, suc w.1);
}

small_catalog-validate : validate small_catalog ≡ ok tt
unfolding validate class_names all_problems class_problems attribute_problems via_problems is_named
    sort_strings insert_sorted bytes_leb lookup equal
small_catalog-validate = refl

load_small : load_file one_file (codes "catalog.json") (0, 0) ≡ (ok small_catalog, (1, 1))
unfolding load_file load_opened load load_result validated
load_small = rw (small_catalog-validate, validated) refl

load_file_lem_example : IsLoaded one_file (ok 7, (0, 0)) small_catalog (1, 1)
load_file_lem_example =
    ((load_file_lem one_file (codes "catalog.json") (0, 0)).0 small_catalog (1, 1)).0 load_small

baselines_lem_example :
    All
      (λ x. x ≡ (catalog_of (load one_file 7 (0, 0)).0, failure_of (load one_file 7 (0, 0)).0))
      (baselines one_file 7 3 (unread, (0, 0))).0
    × ((baselines one_file 7 3 (unread, (0, 0))).1.1 ≡ (load one_file 7 (0, 0)).1)
    × ((c : Catalog) → catalog_of (load one_file 7 (0, 0)).0 ≡ some c → AllSound c)
baselines_lem_example = baselines_lem one_file 7 2 (0, 0)
