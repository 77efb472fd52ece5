-- ===== src/Archive/Tests.antt =====
-- Runs of the package parser.
use mathlib.Core.Path.{subst}
use cantontrace.Runtime.Json.{pos}
use cantontrace.Runtime.Utf8.{encode}
use cantontrace.Runtime.Varint.{varint}
use cantontrace.Base.{
  text, map, none, ℕ, suc, ◌≡◌, refl, List, [], ◌∷◌, ◌++◌, none, some, true, arith, length, ◌⊎◌,
  inl, inr, ap, sym, false, ◌<◌, ◌+◌,
}
use cantontrace.Archive.Reader.{number, bytes, read_fields}
use cantontrace.Archive.Encoding.{
  encode_field, Field, int, fixed64, fixed32, block, encode_fields, read_fields-encode_fields,
}
use cantontrace.Archive.Wrap.{wrap_as_archive, read_fields-wrap_as_archive}
use cantontrace.Archive.Parser.{join_dots, parse_dalf_archive}
use cantontrace.Archive.Package.{LfPackage, IsPackage, interned, package_fields, module_detail}
use cantontrace.Archive.Package.Whole.{parse_dalf_archive-encode_fields}
use cantontrace.Archive.Zip.{
  ZipEntry, read_uint16_le, read_uint32_le, has_header, parse_zip_entries,
}
use cantontrace.Archive.Entries.{
  Visits, at_first, after_entry, entry_end, parse_zip_entries-never, parse_zip_entries-ends,
}

abbrev mixed : List Field
mixed = int 1 300 ∷ fixed64 2 5 ∷ block 3 (1 ∷ 2 ∷ []) ∷ fixed32 4 7 ∷ []

read_fields-encode_fields_example :
    read_fields (encode_fields mixed)
    ≡ record { field_number = 1; wire_type = 0; value = number 300 }
      ∷ record { field_number = 2; wire_type = 1; value = number 5 }
      ∷ record { field_number = 3; wire_type = 2; value = bytes (1 ∷ 2 ∷ []) }
      ∷ record { field_number = 4; wire_type = 5; value = number 7 }
      ∷ []
read_fields-encode_fields_example = read_fields-encode_fields mixed (
  (omega arith, omega arith),
  ((omega arith, omega arith), ((omega arith, omega arith), ((omega arith, omega arith), tt))),
)

read_fields-wrap_as_archive_example :
    read_fields (wrap_as_archive (1 ∷ 2 ∷ 3 ∷ []) [])
    ≡ record { field_number = 1; wire_type = 0; value = number 0 }
      ∷ record { field_number = 3; wire_type = 2; value = bytes (1 ∷ 2 ∷ 3 ∷ []) }
      ∷ record { field_number = 4; wire_type = 2; value = bytes [] }
      ∷ []
unfolding encode
read_fields-wrap_as_archive_example =
    read_fields-wrap_as_archive (1 ∷ 2 ∷ 3 ∷ []) [] (omega arith) (omega arith)

-- A local header with a compressed size, a name of one letter and no extra field.
abbrev header : List ℕ → List ℕ
header size =
    80
    ∷ 75
    ∷ 3
    ∷ 4
    ∷ 0
    ∷ 0
    ∷ 0
    ∷ 0
    ∷ 0
    ∷ 0
    ∷ 0
    ∷ 0
    ∷ 0
    ∷ 0
    ∷ 0
    ∷ 0
    ∷ 0
    ∷ 0
    ∷ (size ++ 0 ∷ 0 ∷ 0 ∷ 0 ∷ 1 ∷ 0 ∷ 0 ∷ 0 ∷ 97 ∷ [])

-- The compressed size 4294967265 is -31 as an Int32.
parse_zip_entries-never_example :
    parse_zip_entries 1000 (header (225 ∷ 255 ∷ 255 ∷ 255 ∷ [])) ≡ none
unfolding has_header read_uint32_le read_uint16_le
parse_zip_entries-never_example =
    parse_zip_entries-never 1000 (header (225 ∷ 255 ∷ 255 ∷ 255 ∷ [])) refl (omega arith) refl

-- A stored file of five bytes, and the beginning of the central directory.
abbrev small_zip : List ℕ
small_zip =
    header (5 ∷ 0 ∷ 0 ∷ 0 ∷ [])
    ++ 200 ∷ 255 ∷ 128 ∷ 255 ∷ 254 ∷ 80 ∷ 75 ∷ 1 ∷ 2 ∷ 20 ∷ 0 ∷ 255 ∷ 255 ∷ []

small_zip-end : has_header small_zip (pos 36) ≡ false
unfolding has_header read_uint32_le
small_zip-end = refl

visited : {i : ℕ} → Visits small_zip i → (i ≡ 0) ⊎ (i ≡ 36)
unfolding read_uint32_le read_uint16_le
visited at_first = inl refl
visited (after_entry v h) = elim (visited v) [
  | inl e ↦ inr (ap (entry_end small_zip) e)
  | inr e ↦
      absurd (let there = ap (λ i. has_header small_zip (pos i)) e in let no' = small_zip-end in cc)
]

small_size :
    (i : ℕ)
    → Visits small_zip i
    → has_header small_zip (pos i) ≡ true
    → read_uint32_le small_zip (pos (i + 18)) < 2147483648
unfolding read_uint32_le
small_size i v h = elim (visited v) [
  | inl e ↦ subst (λ n. read_uint32_le small_zip (pos (n + 18)) < 2147483648) (sym e) (omega arith)
  | inr e ↦
      absurd (let there = ap (λ i. has_header small_zip (pos i)) e in let no' = small_zip-end in cc)
]

parse_zip_entries-ends_example :
    (entries : List ZipEntry) × (parse_zip_entries (suc (length small_zip)) small_zip
      ≡ some entries)
parse_zip_entries-ends_example = parse_zip_entries-ends small_zip small_size

-- Module `Main` with the template `Iou`, which has a field and a consuming choice.
abbrev iou : LfPackage
iou = record {
  strings = text "Main" ∷ text "Iou" ∷ text "owner" ∷ text "Archive" ∷ [];
  dotted_names = (0 ∷ []) ∷ (1 ∷ []) ∷ [];
  modules =
      record {
        name = 0;
        templates =
            record {
              name = 1;
              fields = 2 ∷ [];
              choices = record { name = 3; consuming = true } ∷ [];
            }
            ∷ [];
      }
      ∷ [];
}

iou-IsPackage : IsPackage iou
unfolding encode_fields encode_field varint join_dots
iou-IsPackage = (
  (
    (omega arith, omega arith),
    (
      (omega arith, omega arith),
      (
        (omega arith, omega arith),
        (
          (omega arith, omega arith),
          (
            (omega arith, omega arith),
            ((omega arith, omega arith), ((omega arith, omega arith), tt)),
          ),
        ),
      ),
    ),
  ),
  (
    (omega arith, (omega arith, (omega arith, (omega arith, tt)))),
    (
      (omega arith, (omega arith, (omega arith, tt))),
      (
        (omega arith, (omega arith, (omega arith, (omega arith, (omega arith, tt))))),
        (
          (
            omega arith,
            (
              omega arith,
              (omega arith, (omega arith, (omega arith, (omega arith, (omega arith, tt))))),
            ),
          ),
          tt,
        ),
      ),
    ),
  ),
  (((omega arith, omega arith), tt), (((omega arith, omega arith), tt), tt)),
  (
    (
      λ e. cc,
      ((omega arith, omega arith), ((omega arith, omega arith), tt)),
      (
        (
          λ e. cc,
          (
            (omega arith, omega arith),
            ((omega arith, omega arith), ((omega arith, omega arith), tt)),
          ),
          ((omega arith, omega arith), tt),
          ((λ e. cc, ((omega arith, omega arith), tt)), tt),
          ((λ e. cc, ((omega arith, omega arith), ((omega arith, omega arith), tt))), tt),
        ),
        tt,
      ),
    ),
    tt,
  ),
)

parse_dalf_archive-encode_fields_example :
    parse_dalf_archive
      (encode_fields (block 2 (encode_fields (package_fields iou)) ∷ []))
      (text "1f2e")
      none
      none
    ≡ record {
      package_id = text "1f2e";
      package_name = none;
      package_version = none;
      modules = map (module_detail (interned iou)) iou.modules;
      has_source = false;
    }
unfolding encode_fields encode_field varint
parse_dalf_archive-encode_fields_example =
    parse_dalf_archive-encode_fields 2 iou (text "1f2e") none none (omega arith, omega arith)
      iou-IsPackage
