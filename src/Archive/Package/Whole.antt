-- ===== src/Archive/Package/Whole.antt =====
-- parseDalfArchive (package-parser.ts) on the layout of a package.
use cantontrace.Base.{
  ℕ, List, [], ◌∷◌, ◌++◌, Option, Str, map, map-append, ◌≡◌, refl, ap, ◌∙◌, All, false,
}
use cantontrace.Runtime.Utf8.{IsAscii, decode_ascii}
use cantontrace.Archive.Reader.{ProtoField}
use cantontrace.Archive.Encoding.{
  Field, int, block, encode_fields, field_of, IsEncodable, read_fields-encode_fields,
}
use cantontrace.Archive.Parser.{
  push_parsed, each, bytes_of, number_of, push, entry_or, interned_name, parse_interned_dotted_name,
  intern_strings, intern_dotted_names, parse_modules, try_parse_package, package_field,
  parse_dalf_archive,
}
use cantontrace.Archive.Package.{
  LfPackage, dotted_fields, string_blocks, dotted_blocks, module_blocks, package_fields, interned,
  module_detail, module_fields, IsModule, IsPackage,
}
use cantontrace.Archive.Package.Levels.{each-pushed, parse_module_lem}

map_id : {A : Type 0} (l : List A) → map (λ x. x) l ≡ l
map_id [] = refl
map_id (x ∷ l) = ap (◌∷◌ x) (map_id l)

each-append :
    {S : Type 0} (step : ProtoField → S → S) (xs ys : List ProtoField) (s : S)
    → each step (xs ++ ys) s ≡ each step ys (each step xs s)
unfolding each
each-append step [] ys s = refl
each-append step (x ∷ xs) ys s = each-append step xs ys (step x s)

-- Fields that a pass takes no notice of.
each-ignored :
    {X S : Type 0} (step : ProtoField → S → S) (layout : X → Field)
    → ((x : X) (s : S) → step (field_of (layout x)) s ≡ s)
    → (xs : List X) (s : S) → each step (map field_of (map layout xs)) s ≡ s
unfolding each
each-ignored step layout skip [] s = refl
each-ignored step layout skip (x ∷ xs) s =
    ap (each step (map field_of (map layout xs))) (skip x s) ∙ each-ignored step layout skip xs s

-- A pass over the three kinds of fields of a package.
each-package :
    {S : Type 0} (step : ProtoField → S → S) (p : LfPackage) (s : S)
    → each step (map field_of (package_fields p)) s
      ≡ each step (map field_of (module_blocks p.modules)) (
          each step
            (map field_of (dotted_blocks p.dotted_names))
            (each step (map field_of (string_blocks p.strings)) s))
each-package step p s =
    ap (λ l. each step l s)
      (map-append field_of (string_blocks p.strings)
          (dotted_blocks p.dotted_names ++ module_blocks p.modules)
        ∙ ap (λ l. map field_of (string_blocks p.strings) ++ l)
            (map-append field_of (dotted_blocks p.dotted_names) (module_blocks p.modules)))
    ∙ each-append step (map field_of (string_blocks p.strings)) _ s
    ∙ each-append step (map field_of (dotted_blocks p.dotted_names)) _ _

intern_strings_lem :
    (p : LfPackage)
    → All (All IsAscii) p.strings
    → intern_strings (map field_of (package_fields p)) ≡ p.strings
unfolding intern_strings bytes_of
intern_strings_lem p h =
    each-package _ p []
    ∙ each-ignored _ _ (λ x s. refl) p.modules _
    ∙ each-ignored _ _ (λ x s. refl) p.dotted_names _
    ∙ each-pushed _ (block 11) (λ s. s) (All IsAscii)
        (λ s l ascii. ap (λ d. push d l) (decode_ascii s ascii)) p.strings [] h
    ∙ map_id p.strings

abbrev Anything : ℕ → Type 0
Anything i = Unit

indices-Anything : (l : List ℕ) → All Anything l
indices-Anything [] = tt
indices-Anything (i ∷ l) = (tt, indices-Anything l)

dotted_name_lem :
    (d : List ℕ) (strings : List Str)
    → All IsEncodable (dotted_fields d)
    → parse_interned_dotted_name (encode_fields (dotted_fields d)) strings
      ≡ map (λ i. entry_or strings i (interned_name i)) d
unfolding parse_interned_dotted_name number_of
dotted_name_lem d strings h =
    rw (parse_interned_dotted_name, read_fields-encode_fields (dotted_fields d) h)
      (each-pushed _ (int 1) (λ i. entry_or strings i (interned_name i)) Anything (λ i l u. refl) d
        [] (indices-Anything d))

intern_dotted_names_lem :
    (p : LfPackage)
    → All (λ d. All IsEncodable (dotted_fields d)) p.dotted_names
    → intern_dotted_names (map field_of (package_fields p)) p.strings ≡ (interned p).dotted_names
unfolding intern_dotted_names bytes_of
intern_dotted_names_lem p h =
    each-package _ p []
    ∙ each-ignored _ _ (λ x s. refl) p.modules _
    ∙ ap (each _ (map field_of (dotted_blocks p.dotted_names)))
        (each-ignored _ _ (λ x s. refl) p.strings [])
    ∙ each-pushed _ (λ d. block 12 (encode_fields (dotted_fields d)))
        (map (λ i. entry_or p.strings i (interned_name i))) (λ d. All IsEncodable (dotted_fields d))
        (λ d l e. ap (λ n. push n l) (dotted_name_lem d p.strings e)) p.dotted_names [] h

parse_modules_lem :
    (p : LfPackage)
    → All (IsModule (interned p)) p.modules
    → parse_modules (map field_of (package_fields p)) (interned p)
      ≡ map (module_detail (interned p)) p.modules
unfolding parse_modules bytes_of
parse_modules_lem p h =
    each-package _ p []
    ∙ ap (each _ (map field_of (module_blocks p.modules))) (
        each-ignored _ _ (λ x s. refl) p.dotted_names _
        ∙ each-ignored _ _ (λ x s. refl) p.strings [])
    ∙ each-pushed _ (λ m. block 2 (encode_fields (module_fields m))) (module_detail (interned p))
        (IsModule (interned p))
        (λ m l e. ap (λ r. push_parsed r l) (parse_module_lem (interned p) m e)) p.modules [] h

try_parse_package_lem :
    (p : LfPackage)
    → IsPackage p
    → try_parse_package (encode_fields (package_fields p))
      ≡ map (module_detail (interned p)) p.modules
unfolding try_parse_package
try_parse_package_lem p (e, s, d, m) =
    rw
      (
        try_parse_package,
        read_fields-encode_fields (package_fields p) e,
        intern_strings_lem p s,
        intern_dotted_names_lem p d,
      )
      (parse_modules_lem p m)

-- An archive whose one field, of whatever number, is a package of interned names is parsed to the
-- modules of that package with their templates, the fields and the choices, each name being the one
-- that its index stands for: if no such name is empty, the strings are ASCII and every field has room.
pub parse_dalf_archive-encode_fields :
    (n : ℕ) (p : LfPackage) (package_id : Str) (package_name package_version : Option Str)
    → IsEncodable (block n (encode_fields (package_fields p)))
    → IsPackage p
    → parse_dalf_archive
        (encode_fields (block n (encode_fields (package_fields p)) ∷ []))
        package_id
        package_name
        package_version
      ≡ record {
        package_id = package_id;
        package_name = package_name;
        package_version = package_version;
        modules = map (module_detail (interned p)) p.modules;
        has_source = false;
      }
unfolding parse_dalf_archive each package_field
parse_dalf_archive-encode_fields n p package_id package_name package_version e h =
    rw
      (
        parse_dalf_archive,
        read_fields-encode_fields (block n (encode_fields (package_fields p)) ∷ []) (e, tt),
      )
      (ap
        (λ l. record {
          package_id = package_id;
          package_name = package_name;
          package_version = package_version;
          modules = l;
          has_source = false;
        })
        (try_parse_package_lem p h))
