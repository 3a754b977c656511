-- ===== src/Tests/Names.antt =====
-- dn.go on concrete names.
use mathlib.Core.List.{Perm}
use go_adcore.Common.{◌≡◌, ◌↔◌, refl, true, [], ◌∷◌, some, ok, err, arith}
use go_adcore.Bytes.{Bytes, codes, equal, trim_space, contains_byte}
use go_adcore.Folding.{ascii, equal_fold}
use go_adcore.Dn.{AttributeTypeAndValue, RelativeDn, Dn}
use go_adcore.Dn.Parse.{
  no_equals, empty_type, incomplete_hex_escape, not_escapable, ber_value, dangling_escape, Parser,
  initial, parse_dn, run, step, is_hex_digit, parse_uint_16, end_rdn, finish,
}
use go_adcore.Dn.Render.{to_string}
use go_adcore.Dn.RoundTrip.{IsReadable, IsWellFormed, parse_dn-to_string}
use go_adcore.Dn.Sound.{parse_dn-IsWellFormed}
use go_adcore.Dn.Bounds.{steps}
use go_adcore.Dn.Compare.{
  drop_rdns, rdns_equal_fold, rdn_equal_fold, dn_equal_fold, ancestor_of_fold,
}
use go_adcore.Dn.Equality.{keys, rdn_equal_fold_iff}
use go_adcore.Dn.Ancestors.{IsAncestor, ancestor_of_fold_iff, ancestor_of_fold-congr}
use go_adcore.Dn.Strings.{parent, container_of, split_dn}
use go_adcore.Dn.Joining.{joined, single, parse_dn-joined, blank_container}

abbrev attribute : Bytes → Bytes → AttributeTypeAndValue
attribute kind value = record { kind = kind; value = value }

abbrev unit : RelativeDn
unit = single (codes "OU") (codes "A, B")

abbrev domain : RelativeDn
domain = single (codes "DC") (codes "x")

abbrev unit_dn : Dn
unit_dn = record { rdns = unit ∷ domain ∷ [] }

abbrev domain_dn : Dn
domain_dn = record { rdns = domain ∷ [] }

abbrev loud_domain_dn : Dn
loud_domain_dn = record { rdns = single (codes "dc") (codes "X") ∷ [] }

abbrev person_dn : Dn
person_dn = record { rdns = single (codes "CN") (codes "p") ∷ unit ∷ domain ∷ [] }

abbrev unit_text : Bytes
unit_text = codes "OU=A\\, B,DC=x"

parse_dn-unit_text : parse_dn unit_text ≡ ok unit_dn
unfolding parse_dn trim_space run step is_hex_digit parse_uint_16 end_rdn finish contains_byte
parse_dn-unit_text = refl

to_string-unit_dn : to_string unit_dn ≡ unit_text
unfolding to_string
to_string-unit_dn = refl

parse_errors :
    (parse_dn (codes "OU") ≡ err (no_equals (codes "OU")))
    × (parse_dn (codes " =x") ≡ err empty_type)
    × (parse_dn (codes "OU=a\\2,DC=x") ≡ err incomplete_hex_escape)
    × (parse_dn (codes "OU=a\\x") ≡ err (not_escapable b'x'))
    × (parse_dn (codes "OU=#04") ≡ err ber_value)
    × (parse_dn (codes "OU=a\\") ≡ err dangling_escape)
unfolding parse_dn trim_space run step is_hex_digit parse_uint_16 end_rdn finish contains_byte
parse_errors = (refl, refl, refl, refl, refl, refl)

-- the digits of an escape, either case; trailing blanks; a `;` as separator
parse_details :
    parse_dn (codes " OU =  a\\4A\\4b c  ;DC=x")
    ≡ ok (record { rdns = single (codes "OU") (codes "aJK c") ∷ domain ∷ [] })
unfolding parse_dn trim_space run step is_hex_digit parse_uint_16 end_rdn finish contains_byte
parse_details = refl

parse_dn-domain_text : parse_dn (codes "DC=x") ≡ ok domain_dn
unfolding parse_dn trim_space run step is_hex_digit parse_uint_16 end_rdn finish contains_byte
parse_dn-domain_text = refl

kind-IsReadable : IsReadable (attribute (codes "OU") (codes "A,OU=B"))
unfolding trim_space
kind-IsReadable = record {
  no_equals = ((λ h. absurd (omega arith)), ((λ h. absurd (omega arith)), tt));
  trimmed = refl;
  not_empty = λ h. cc;
}

blank : trim_space (codes "  ") ≡ []
unfolding trim_space
blank = refl

container_of-unit_text : container_of unit_text ≡ ok (codes "DC=x")
unfolding container_of parent to_string parse_dn trim_space run step is_hex_digit end_rdn finish
    contains_byte
container_of-unit_text = refl

split_dn-unit_text : split_dn unit_text ≡ ok (codes "OU=A\\, B" ∷ codes "DC=x" ∷ [])
unfolding split_dn to_string
split_dn-unit_text = rw parse_dn-unit_text refl

fold_loud : dn_equal_fold ascii domain_dn (some loud_domain_dn) ≡ true
unfolding dn_equal_fold rdns_equal_fold rdn_equal_fold equal_fold equal
fold_loud = refl

fold_order :
    rdn_equal_fold ascii
      (record {
        attributes = attribute (codes "CN") (codes "a") ∷ attribute (codes "UID") (codes "1") ∷ [];
      })
      (record {
        attributes = attribute (codes "uid") (codes "1") ∷ attribute (codes "cn") (codes "A") ∷ [];
      })
    ≡ true
unfolding rdn_equal_fold equal_fold equal
fold_order = refl

above_unit : ancestor_of_fold ascii loud_domain_dn (some unit_dn) ≡ true
unfolding ancestor_of_fold rdns_equal_fold rdn_equal_fold equal_fold equal drop_rdns
above_unit = refl

above_person : ancestor_of_fold ascii unit_dn (some person_dn) ≡ true
unfolding ancestor_of_fold rdns_equal_fold rdn_equal_fold equal_fold equal drop_rdns
above_person = refl

parse_dn-to_string_example : parse_dn (to_string unit_dn) ≡ ok unit_dn
parse_dn-to_string_example =
    parse_dn-to_string unit_dn (parse_dn-IsWellFormed unit_text unit_dn parse_dn-unit_text)

parse_dn-IsWellFormed_example : IsWellFormed unit_dn
parse_dn-IsWellFormed_example = parse_dn-IsWellFormed unit_text unit_dn parse_dn-unit_text

abbrev mid_escape : Parser
mid_escape = record initial {
  type_buf = codes "OU";
  val_buf = codes "a  ";
  hex_buf = codes "4";
  has_eq = true;
  escaping = true;
  trail_ws = 2;
}

steps_escape : steps initial (codes "OU=a  \\4") ≡ ok mid_escape
unfolding steps step is_hex_digit
steps_escape = refl

parse_dn-joined_example :
    parse_dn (joined (codes "OU") (codes "A,OU=B") (codes "DC=x"))
    ≡ ok (record { rdns = single (codes "OU") (codes "A,OU=B") ∷ domain ∷ [] })
parse_dn-joined_example =
    parse_dn-joined (codes "OU") (codes "A,OU=B") (codes "DC=x") domain_dn kind-IsReadable
      parse_dn-domain_text (λ h. cc)

blank_container_example :
    (parse_dn (codes "  ") ≡ ok (record { rdns = [] }))
    × (parse_dn (joined (codes "OU") (codes "A,OU=B") (codes "  ")) ≡ err (no_equals (codes "  ")))
blank_container_example =
    blank_container (codes "OU") (codes "A,OU=B") (codes "  ") kind-IsReadable blank

rdn_equal_fold_iff_example :
    (rdn_equal_fold ascii unit domain ≡ true) ↔ Perm (keys ascii unit) (keys ascii domain)
rdn_equal_fold_iff_example = rdn_equal_fold_iff ascii unit domain

ancestor_of_fold_iff_example :
    (ancestor_of_fold ascii loud_domain_dn (some unit_dn) ≡ true)
    ↔ IsAncestor ascii loud_domain_dn unit_dn
ancestor_of_fold_iff_example = ancestor_of_fold_iff ascii loud_domain_dn unit_dn

ancestor_of_fold-congr_example : ancestor_of_fold ascii domain_dn (some unit_dn) ≡ true
ancestor_of_fold-congr_example =
    ancestor_of_fold-congr ascii domain_dn loud_domain_dn unit_dn fold_loud above_unit

parent-unit_dn : parent unit_dn ≡ some domain_dn
unfolding parent
parent-unit_dn = refl
