-- ===== src/Errors/Details/RoundTrip.antt =====
-- decodeSimpleMessage and decodeAllFields (errors.ts) on encoded messages.
use mathlib.Core.Option
use cantontrace.Base.{
  ℕ, zero, suc, ◌+◌, ◌*◌, ◌%◌, ◌<◌, ◌≡◌, refl, sym, ap, ◌∙◌, List, [], ◌∷◌, ◌++◌, true, false, ◌==◌,
  ltb, if◌then◌else◌, length, arith, All, Option, none, some, Str, append-nil, append_assoc,
  length-append, map,
}
use cantontrace.Runtime.Json.{ℤ, pos, negsuc}
use cantontrace.Runtime.Int.{shift_right_three, below}
use cantontrace.Runtime.Utf8.{IsAscii, decode, decode_ascii}
use cantontrace.Errors.Wire.{
  FieldValue, number, string, Source, bytes, elements, read_varint, finish, go, field_round,
  decode_round, decode_loop, chunk, Fields, push_field, set_field, rounds, decode_all_fields,
  decode_simple_message,
}
use cantontrace.Errors.Wire.Varint.{varint}
use cantontrace.Errors.Wire.Encoding.{
  Field, int, str, encode_field, encode_fields, IsEncodable, field_of, read_varint-at, slice-at,
  length-varint, tag_number, to_signed-small, length-encode_field,
}
use cantontrace.Errors.Details.{is_number, field_at}

module _ {ℓ} {A : Type ℓ} (write : ℤ → FieldValue → A → A) where
  abbrev pub write_field : Field → A → A
  write_field f a = write (field_of f).0 (field_of f).1 a

  unfoldable pub write_fields : List Field → A → A
  write_fields [] a = a
  write_fields (f ∷ fs) a = write_fields fs (write_field f a)

  decode_round-int :
      (source : Source) (i j k n v : ℕ) (a : A)
      → IsEncodable (int n v)
      → below (pos i) (length (elements source)) ≡ true
      → read_varint source (pos i) ≡ (n * 8, pos j)
      → read_varint source (pos j) ≡ (v, pos k)
      → decode_round write source (pos i) a ≡ go (pos k) (write_field (int n v) a)
  unfolding decode_round field_round
  decode_round-int source i j k n v a (hn, hv) inside first second =
      let wire : (n * 8 % 8 == 0) ≡ true = ground arith in
      let tag : shift_right_three (n * 8) ≡ pos n =
        tag_number (n * 8) n hn (omega arith) (omega arith) in
      rw (decode_round, inside, first, field_round, wire, second, tag, to_signed-small v hv) refl

  decode_round-str :
      (source : Source) (i j k n : ℕ) (s : Str) (a : A)
      → IsEncodable (str n s)
      → below (pos i) (length (elements source)) ≡ true
      → read_varint source (pos i) ≡ (n * 8 + 2, pos j)
      → read_varint source (pos j) ≡ (length s, pos k)
      → chunk source (pos k) (pos (k + length s)) ≡ s
      → decode_round write source (pos i) a ≡ go (pos (k + length s)) (write_field (str n s) a)
  unfolding decode_round field_round
  decode_round-str source i j k n s a (hn, hs, _) inside first second part =
      let wire : ((n * 8 + 2) % 8 == 0) ≡ false = ground arith in
      let wire' : ((n * 8 + 2) % 8 == 2) ≡ true = ground arith in
      let tag : shift_right_three (n * 8 + 2) ≡ pos n =
        tag_number (n * 8 + 2) n hn (omega arith) (omega arith) in
      rw
        (
          decode_round,
          inside,
          first,
          field_round,
          wire,
          wire',
          second,
          tag,
          to_signed-small (length s) hs,
          part,
        )
        refl

  inside_of :
      (pre rest : List ℕ) (k v : ℕ)
      → below (pos (length pre)) (length (pre ++ (varint (suc k) v ++ rest))) ≡ true
  inside_of pre rest k v =
      let some : 0 < length (varint (suc k) v) = length-varint k v in
      let total : length (pre ++ (varint (suc k) v ++ rest))
          ≡ length pre + (length (varint (suc k) v) + length rest) =
        length-append pre _ ∙ ap (λ n. length pre + n) (length-append (varint (suc k) v) rest) in
      ground arith

  read_varint-next :
      (pre T rest : List ℕ) (v : ℕ)
      → v < 4294967296
      → read_varint (bytes (pre ++ (T ++ (varint 5 v ++ rest)))) (pos (length pre + length T))
        ≡ (v, pos (length pre + length T + length (varint 5 v)))
  read_varint-next pre T rest v h =
      rw (← append_assoc pre T (varint 5 v ++ rest))
        (read_varint-at (pre ++ T) rest (length pre + length T) v (sym (length-append pre T)) h)

  chunk-next :
      (pre T L s rest : List ℕ)
      → All IsAscii s
      → (let k = length pre + length T + length L in
          chunk (bytes (pre ++ (T ++ (L ++ (s ++ rest))))) (pos k) (pos (k + length s)))
        ≡ s
  chunk-next pre T L s rest ascii =
      let at : length pre + length T + length L ≡ length ((pre ++ T) ++ L) =
        omega (arith, length-append (pre ++ T) L, length-append pre T) in
      rw (← append_assoc pre T (L ++ (s ++ rest)), ← append_assoc (pre ++ T) L (s ++ rest))
        (ap decode (slice-at ((pre ++ T) ++ L) s rest _ at) ∙ decode_ascii s ascii)

  decode_round-field :
      (pre rest : List ℕ) (f : Field) (a : A)
      → IsEncodable f
      → decode_round write (bytes (pre ++ (encode_field f ++ rest))) (pos (length pre)) a
        ≡ go (pos (length (pre ++ encode_field f))) (write_field f a)
  unfolding encode_field
  decode_round-field pre rest (int n v) a (hn, hv) =
      let T : List ℕ = varint 5 (n * 8) in
      let V : List ℕ = varint 5 v in
      let end : length pre + length T + length V ≡ length (pre ++ (T ++ V)) =
        omega (arith, length-append pre (T ++ V), length-append T V) in
      rw (append_assoc T V rest) (
        decode_round-int (bytes (pre ++ (T ++ (V ++ rest)))) (length pre) _ _ n v a (hn, hv)
          (inside_of pre (V ++ rest) 4 (n * 8))
          (read_varint-at pre (V ++ rest) (length pre) (n * 8) refl (omega arith))
          (read_varint-next pre T rest v (omega arith))
        ∙ ap (λ k. go (pos k) (write_field (int n v) a)) end)
  decode_round-field pre rest (str n s) a (hn, hs, ascii) =
      let T : List ℕ = varint 5 (n * 8 + 2) in
      let L : List ℕ = varint 5 (length s) in
      let end : length pre + length T + length L + length s ≡ length (pre ++ (T ++ (L ++ s))) =
        omega
          (arith, length-append pre (T ++ (L ++ s)), length-append T (L ++ s), length-append L s) in
      rw (append_assoc T (L ++ s) rest, append_assoc L s rest)
        (decode_round-str (bytes (pre ++ (T ++ (L ++ (s ++ rest))))) (length pre) _ _ n s a
            (hn, hs, ascii) (inside_of pre (L ++ (s ++ rest)) 4 (n * 8 + 2))
            (read_varint-at pre (L ++ (s ++ rest)) (length pre) (n * 8 + 2) refl (omega arith))
            (read_varint-next pre T (s ++ rest) (length s) (omega arith))
            (chunk-next pre T L s rest ascii)
          ∙ ap (λ k. go (pos k) (write_field (str n s) a)) end)

  decode_round-end :
      (source : Source) (a : A)
      → decode_round write source (pos (length (elements source))) a ≡ finish a
  unfolding decode_round
  decode_round-end source a =
      let outside : ltb (length (elements source)) (length (elements source)) ≡ false =
        ground arith in
      rw (decode_round, outside) refl

  -- The loop from the end of `pre` on.
  pub decode_loop-encode_fields :
      (fuel : ℕ) (pre : List ℕ) (fs : List Field) (a : A)
      → All IsEncodable fs
      → length (encode_fields fs) < fuel
      → decode_loop write fuel (bytes (pre ++ encode_fields fs)) (pos (length pre)) a
        ≡ some (write_fields fs a)
  unfolding decode_loop encode_fields write_fields
  decode_loop-encode_fields zero pre fs a h enough = absurd (omega arith)
  decode_loop-encode_fields (suc fuel) pre [] a h enough =
      rw (append-nil pre, decode_loop, decode_round-end (bytes pre) a) refl
  decode_loop-encode_fields (suc fuel) pre (f ∷ fs) a (h, hs) enough =
      rw
        (
          decode_loop,
          decode_round-field pre (encode_fields fs) f a h,
          ← append_assoc pre (encode_field f) (encode_fields fs),
        )
        (decode_loop-encode_fields fuel (pre ++ encode_field f) fs (write_field f a) hs
          (omega (arith, length-append (encode_field f) (encode_fields fs), length-encode_field f)))

write_fields-push_field :
    (fs : List Field) (fields : Fields)
    → write_fields push_field fs fields ≡ fields ++ map field_of fs
unfolding write_fields
write_fields-push_field [] fields = sym (append-nil fields)
write_fields-push_field (f ∷ fs) fields =
    write_fields-push_field fs (push_field (field_of f).0 (field_of f).1 fields)
    ∙ append_assoc fields (field_of f ∷ []) (map field_of fs)

-- An encoded message is decoded to its fields in their order, with those that repeat. Its field
-- numbers have at most 28 bits, its numbers and the lengths of its strings 31, and its strings are
-- ASCII.
pub decode_all_fields-encode_fields :
    (fs : List Field)
    → All IsEncodable fs
    → decode_all_fields (bytes (encode_fields fs)) ≡ some (map field_of fs)
unfolding decode_all_fields
decode_all_fields-encode_fields fs h =
    decode_loop-encode_fields push_field (rounds (bytes (encode_fields fs))) [] fs [] h
      (omega arith)
    ∙ ap some (write_fields-push_field fs [])

-- The value of the last field with the number.
abbrev pub last_value : ℕ → List Field → Option FieldValue → Option FieldValue
last_value n [] found = found
last_value n (f ∷ fs) found =
    last_value n fs (if is_number n (field_of f).0 then some (field_of f).1 else found)

field_at-set_field :
    (n m : ℕ) (v : FieldValue) (fields : Fields)
    → field_at n (set_field (pos m) v fields) ≡ (if m == n then some v else field_at n fields)
unfolding field_at set_field
field_at-set_field n m v [] = refl
field_at-set_field n m v ((pos k, w) ∷ fields) = ground (arith, field_at-set_field n m v fields)
field_at-set_field n m v ((negsuc k, w) ∷ fields) = ground (arith, field_at-set_field n m v fields)

field_at-write_fields :
    (n : ℕ) (fs : List Field) (fields : Fields)
    → field_at n (write_fields set_field fs fields) ≡ last_value n fs (field_at n fields)
unfolding write_fields
field_at-write_fields n [] fields = refl
field_at-write_fields n (int m v ∷ fs) fields =
    field_at-write_fields n fs (set_field (pos m) (number (pos v)) fields)
    ∙ ap (last_value n fs) (field_at-set_field n m (number (pos v)) fields)
field_at-write_fields n (str m s ∷ fs) fields =
    field_at-write_fields n fs (set_field (pos m) (string s) fields)
    ∙ ap (last_value n fs) (field_at-set_field n m (string s) fields)

-- An encoded message is decoded to a record that has at each number the last of the fields with that
-- number, and nothing where there is none. The bounds on the message are those of its encoding.
pub decode_simple_message-encode_fields :
    (n : ℕ) (fs : List Field)
    → All IsEncodable fs
    → Option.map (field_at n) (decode_simple_message (bytes (encode_fields fs)))
      ≡ some (last_value n fs none)
unfolding decode_simple_message field_at
decode_simple_message-encode_fields n fs h =
    ap (Option.map (field_at n)) (
      decode_loop-encode_fields set_field (rounds (bytes (encode_fields fs))) [] fs [] h
        (omega arith))
    ∙ ap some (field_at-write_fields n fs [])
