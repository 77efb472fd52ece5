-- ===== src/Archive/Entries.antt =====
-- When the loop over zip entries (package-parser.ts) ends.
use cantontrace.Base.{
  ℕ, zero, suc, ◌+◌, ◌<◌, ◌≤◌, ◌≡◌, refl, ap, List, [], none, some, true, Bool-cases, inl, inr,
  length, arith,
}
use cantontrace.Runtime.Json.{pos}
use cantontrace.Runtime.Int.{◌+ℤ◌, to_signed}
use cantontrace.Archive.Zip.{
  ZipEntry, read_uint16_le, read_uint32_le, data_end, has_header, push_entry, zip_loop,
  parse_zip_entries,
}

-- A header whose data ends where the header begins is read for ever.
zip_loop-stuck :
    (fuel : ℕ) (zip : List ℕ) (entries : List ZipEntry)
    → has_header zip (pos 0) ≡ true
    → data_end zip (pos 0) ≡ pos 0
    → zip_loop fuel zip (pos 0) entries ≡ none
unfolding zip_loop
zip_loop-stuck zero zip entries h e = refl
zip_loop-stuck (suc fuel) zip entries h e =
    rw (zip_loop, h, e) (zip_loop-stuck fuel zip (push_entry zip (pos 0) entries) h e)

-- A header and minus its length.
cancel :
    (n e u : ℕ)
    → 2147483648 ≤ u
    → u + (30 + n + e) ≡ 4294967296
    → pos (30 + n + e) +ℤ to_signed u ≡ pos 0
cancel n e u high h = ground arith

-- If a file begins with a local header whose compressed size has its highest bit set and is, as a signed
-- number, minus the length of the header with its name and its extra field, no number of rounds ends
-- the loop.
pub parse_zip_entries-never :
    (fuel : ℕ) (zip : List ℕ)
    → has_header zip (pos 0) ≡ true
    → 2147483648 ≤ read_uint32_le zip (pos 18)
    → read_uint32_le zip (pos 18) + (30 + read_uint16_le zip (pos 26) + read_uint16_le zip (pos 28))
      ≡ 4294967296
    → parse_zip_entries fuel zip ≡ none
unfolding parse_zip_entries
parse_zip_entries-never fuel zip h high e = zip_loop-stuck fuel zip [] h (
    cancel (read_uint16_le zip (pos 26)) (read_uint16_le zip (pos 28)) (read_uint32_le zip (pos 18))
      high e)

-- A size with its highest bit clear is not negative.
to_signed_small : (u : ℕ) → u < 2147483648 → to_signed u ≡ pos u
to_signed_small u h = ground arith

-- Where the entry ends whose local header stands at `i`.
abbrev pub entry_end : List ℕ → ℕ → ℕ
entry_end zip i =
    i
    + 30
    + read_uint16_le zip (pos (i + 26))
    + read_uint16_le zip (pos (i + 28))
    + read_uint32_le zip (pos (i + 18))

-- The offsets at which the loop looks for a header: 0, and the ends of the entries one after the other.
pub data Visits (zip : List ℕ) : ℕ → Type 0 where
  at_first : Visits zip 0
  after_entry :
      {i : ℕ} → Visits zip i → has_header zip (pos i) ≡ true → Visits zip (entry_end zip i)

zip_loop-ends :
    (fuel i : ℕ) (zip : List ℕ) (entries : List ZipEntry)
    → ((j : ℕ)
        → Visits zip j
        → has_header zip (pos j) ≡ true
        → read_uint32_le zip (pos (j + 18)) < 2147483648)
    → Visits zip i
    → length zip < fuel + i
    → 0 < fuel
    → (found : List ZipEntry) × (zip_loop fuel zip (pos i) entries ≡ some found)
unfolding zip_loop has_header
zip_loop-ends zero i zip entries small v h p = absurd (omega arith)
zip_loop-ends (suc fuel) i zip entries small v h p = elim (Bool-cases (has_header zip (pos i))) [
  | inl more ↦
      let next : ℕ = entry_end zip i in
      let at : data_end zip (pos i) ≡ pos next =
        ap
          (λ z.
            pos (i + 30 + read_uint16_le zip (pos (i + 26)) + read_uint16_le zip (pos (i + 28)))
            +ℤ z)
          (to_signed_small _ (small i v more)) in
      let inside : i + 4 < length zip = ground arith in
      rw (zip_loop, more, at)
        (zip_loop-ends fuel next zip (push_entry zip (pos i) entries) small (after_entry v more)
          (omega arith) (omega arith))
  | inr over ↦ rw (zip_loop, over) (entries, refl)
]

-- If no local header that the loop comes to holds a compressed size with its highest bit set, the loop
-- ends within one round more than there are bytes. The other bytes of the file are arbitrary.
pub parse_zip_entries-ends :
    (zip : List ℕ)
    → ((i : ℕ)
        → Visits zip i
        → has_header zip (pos i) ≡ true
        → read_uint32_le zip (pos (i + 18)) < 2147483648)
    → (entries : List ZipEntry) × (parse_zip_entries (suc (length zip)) zip ≡ some entries)
unfolding parse_zip_entries
parse_zip_entries-ends zip small =
    zip_loop-ends (suc (length zip)) 0 zip [] small at_first (omega arith) (omega arith)
