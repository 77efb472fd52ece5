-- ===== src/Archive/Zip.antt =====
-- extractSourceFromDAR and parseZipEntries of api-gateway/src/services/package-parser.ts. A byte is
-- below 256, so that `|` of shifted bytes is a sum, and an element out of range counts as 0.
use mathlib.Core.Option.{get_or}
use cantontrace.Base.{
  ℕ, zero, suc, ◌+◌, ◌*◌, ◌-◌, List, [], ◌∷◌, ◌++◌, Option, none, some, Str, text, Bool, true, ◌&&◌,
  ◌==◌, ◌===◌, leb, if◌then◌else◌, get_elem?, length, drop,
}
use cantontrace.Runtime.Json.{ℤ, pos, negsuc}
use cantontrace.Runtime.Int.{◌+ℤ◌, to_signed, below, slice}
use cantontrace.Runtime.Utf8.{decode}
use cantontrace.Runtime.Object.{set}

pub record ZipEntry : Type 0 where
  pub name : Str
  pub content : List ℕ

-- `data[i] | 0`.
abbrev pub byte_at : List ℕ → ℤ → ℕ
byte_at zip (pos i) = get_or (get_elem? zip i) 0
byte_at zip (negsuc i) = 0

unfoldable pub read_uint16_le : List ℕ → ℤ → ℕ
read_uint16_le zip offset = byte_at zip offset + 256 * byte_at zip (offset +ℤ pos 1)

-- The bit pattern of readUint32LE, whose result is an Int32.
unfoldable pub read_uint32_le : List ℕ → ℤ → ℕ
read_uint32_le zip offset =
    byte_at zip offset
    + 256 * byte_at zip (offset +ℤ pos 1)
    + 65536 * byte_at zip (offset +ℤ pos 2)
    + 16777216 * byte_at zip (offset +ℤ pos 3)

-- `i <= n`.
abbrev pub at_most : ℤ → ℕ → Bool
at_most (pos i) n = leb i n
at_most (negsuc i) n = true

abbrev pub name_end : List ℕ → ℤ → ℤ
name_end zip offset = offset +ℤ pos 30 +ℤ pos (read_uint16_le zip (offset +ℤ pos 26))

abbrev pub data_start : List ℕ → ℤ → ℤ
data_start zip offset = name_end zip offset +ℤ pos (read_uint16_le zip (offset +ℤ pos 28))

abbrev pub data_end : List ℕ → ℤ → ℤ
data_end zip offset = data_start zip offset +ℤ to_signed (read_uint32_le zip (offset +ℤ pos 18))

-- Whether a round of the loop finds a local file header.
unfoldable pub has_header : List ℕ → ℤ → Bool
has_header zip offset =
    below (offset +ℤ pos 4) (length zip) && read_uint32_le zip offset == 67324752

-- Only a stored entry is kept.
unfoldable pub push_entry : List ℕ → ℤ → List ZipEntry → List ZipEntry
push_entry zip offset entries =
    if read_uint16_le zip (offset +ℤ pos 8) == 0 && at_most (data_end zip offset) (length zip)
    then entries
      ++ record {
        name = decode (slice zip (offset +ℤ pos 30) (name_end zip offset));
        content = slice zip (data_start zip offset) (data_end zip offset);
      }
        ∷ []
    else entries

-- The loop, none when the fuel runs out.
unfoldable pub zip_loop : ℕ → List ℕ → ℤ → List ZipEntry → Option (List ZipEntry)
zip_loop zero zip offset entries = none
zip_loop (suc fuel) zip offset entries =
    let rest = zip_loop fuel zip (data_end zip offset) (push_entry zip offset entries) in
    if has_header zip offset then rest else some entries

unfoldable pub parse_zip_entries : ℕ → List ℕ → Option (List ZipEntry)
parse_zip_entries fuel zip = zip_loop fuel zip (pos 0) []

-- `name.endsWith(suffix)`.
unfoldable pub ends_with : Str → Str → Bool
ends_with suffix name =
    leb (length suffix) (length name) && drop (length name - length suffix) name === suffix

unfoldable pub add_sources : List ZipEntry → List (Str × Str) → List (Str × Str)
add_sources [] sources = sources
add_sources (e ∷ es) sources =
    add_sources es
      (if ends_with (text ".daml") e.name then set e.name (decode e.content) sources else sources)

unfoldable pub extract_source_from_dar : ℕ → List ℕ → Option (List (Str × Str))
extract_source_from_dar fuel zip = elim (parse_zip_entries fuel zip) [
  | none ↦ none
  | some entries ↦ some (add_sources entries [])
]
