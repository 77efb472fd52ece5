-- ===== src/Errors/Wire/Termination.antt =====
-- When the loop of decodeSimpleMessage and decodeAllFields (errors.ts) ends, and when it does not.
use cantontrace.Base.{
  ℕ, zero, suc, ◌+◌, ◌%◌, ◌<◌, ◌≤◌, ◌≡◌, ◌≢◌, refl, List, [], ◌∷◌, none, some, ◌==◌, ltb, length,
  drop, arith, true, length-drop, inl, inr, Bool-cases,
}
use cantontrace.Runtime.Json.{ℤ, pos}
use cantontrace.Runtime.Int.{◌+ℤ◌, to_signed, below}
use cantontrace.Errors.Wire.{
  FieldValue, Source, elements, read, read_varint, Round, finish, go, field_round, decode_round,
  decode_loop, Fields, push_field, set_field, rounds, decode_all_fields, decode_simple_message,
}

-- No varint of the source, wherever it is read, has the sign bit of an Int32.
abbrev pub IsSteady : Source → Type 0
IsSteady source = (i : ℕ) → (read_varint source (pos i)).0 < 2147483648

read-advance : (bs : List ℕ) (result shift : ℕ) → 0 < length bs → 0 < (read bs result shift).1
unfolding read
read-advance [] result shift h = absurd (omega arith)
read-advance (b ∷ bs) result shift h = ground arith

-- Where a varint that starts at `i` ends.
abbrev after : Source → ℕ → ℕ
after source i = i + (read (drop i (elements source)) 0 0).1

read_varint-after :
    (source : Source) (i : ℕ) → (read_varint source (pos i)).1 ≡ pos (after source i)
unfolding read_varint
read_varint-after source i = refl

after-lt : (source : Source) (i : ℕ) → i < length (elements source) → i < after source i
after-lt source i h = omega (
  arith,
  read-advance (drop i (elements source)) 0 0 (omega (arith, length-drop i (elements source))),
)

module _ {ℓ} {A : Type ℓ} (write : ℤ → FieldValue → A → A) where
  -- A round ends, or goes on at an offset that is no smaller.
  data Progress (i : ℕ) : Round A → Type ℓ where
    ended : (a : A) → Progress i (finish a)
    moved : (j : ℕ) (a : A) → i ≤ j → Progress i (go (pos j) a)

  jump-Progress :
      (i j : ℕ) (r : ℕ × ℤ) (a : A)
      → r.1 ≡ pos j
      → i ≤ j
      → r.0 < 2147483648
      → Progress i (go (r.1 +ℤ to_signed r.0) a)
  jump-Progress i j r a e h small =
      let positive : ltb r.0 2147483648 ≡ true = ground arith in
      rw (e, positive) (moved (j + r.0) a (omega arith))

  stay-Progress : (i j : ℕ) (o : ℤ) (a : A) → o ≡ pos j → i ≤ j → Progress i (go o a)
  stay-Progress i j o a e h = rw e (moved j a h)

  after-le : (source : Source) (i : ℕ) → i ≤ after source i
  after-le source i = omega arith

  field_round-Progress :
      (source : Source) (tag i : ℕ) (a : A)
      → IsSteady source
      → Progress i (field_round write source tag (pos i) a)
  unfolding field_round
  field_round-Progress source tag i a steady = elim (Bool-cases (tag % 8 == 0)) [
    | inl e ↦
        rw e (stay-Progress i (after source i) _ _ (read_varint-after source i) (after-le source i))
    | inr zero? ↦ elim (Bool-cases (tag % 8 == 2)) [
      | inl e ↦
          rw (zero?, e)
            (jump-Progress i (after source i) (read_varint source (pos i)) _
              (read_varint-after source i) (after-le source i) (steady i))
      | inr two? ↦ elim (Bool-cases (tag % 8 == 1)) [
        | inl e ↦ rw (zero?, two?, e) (moved (i + 8) a (omega arith))
        | inr one? ↦ elim (Bool-cases (tag % 8 == 5)) [
          | inl e ↦ rw (zero?, two?, one?, e) (moved (i + 4) a (omega arith))
          | inr five? ↦ rw (zero?, two?, one?, five?) (ended a)
        ]
      ]
    ]
  ]

  next_of_Progress :
      (fuel k : ℕ) (source : Source) (r : Round A)
      → ((j : ℕ) (a : A) → k ≤ j → decode_loop write fuel source (pos j) a ≢ none)
      → Progress k r
      → elim r [ finish a ↦ some a | go o a ↦ decode_loop write fuel source o a ] ≢ none
  next_of_Progress fuel k source _ ih (ended a) = λ e. cc
  next_of_Progress fuel k source _ ih (moved j a h) = ih j a h

  -- With a round left for each element from the offset on, the loop ends.
  decode_loop-ends :
      (fuel : ℕ) (source : Source) (i : ℕ) (a : A)
      → IsSteady source
      → length (elements source) < fuel + i
      → 0 < fuel
      → decode_loop write fuel source (pos i) a ≢ none
  unfolding decode_loop decode_round
  decode_loop-ends zero source i a steady h one = absurd (omega arith)
  decode_loop-ends (suc fuel) source i a steady h one =
      elim (Bool-cases (ltb i (length (elements source)))) [
        | inl e ↦
            let inside : i < length (elements source) = ground arith in
            let onward : i < after source i = after-lt source i inside in
            rw (decode_loop, decode_round, e, read_varint-after source i)
              (next_of_Progress fuel (after source i) source _
                (λ j b le. decode_loop-ends fuel source j b steady (omega arith) (omega arith))
                (field_round-Progress source (read_varint source (pos i)).0 (after source i) a
                  steady))
        | inr e ↦ rw (decode_loop, decode_round, e) (λ eq. cc)
      ]

  -- A length that leads back to the offset of its field keeps the loop there for ever.
  decode_loop-stuck :
      (fuel : ℕ) (source : Source) (offset : ℤ) (a : A)
      → below offset (length (elements source)) ≡ true
      → (read_varint source offset).0 % 8 ≡ 2
      → (let r = read_varint source (read_varint source offset).1 in r.1 +ℤ to_signed r.0) ≡ offset
      → decode_loop write fuel source offset a ≡ none
  unfolding decode_loop decode_round field_round
  decode_loop-stuck zero source offset a inside wire back = refl
  decode_loop-stuck (suc fuel) source offset a inside wire back =
      rw (decode_loop, decode_round, inside, field_round, wire, back)
        (decode_loop-stuck fuel source offset _ inside wire back)

-- Where no varint of a source is negative as an Int32, wherever one is read, both decoders return a
-- result: a round for each element and one more are enough.
pub decoders-end :
    (source : Source)
    → IsSteady source
    → (decode_all_fields source ≢ none) × (decode_simple_message source ≢ none)
unfolding decode_all_fields decode_simple_message
decoders-end source steady = (
  decode_loop-ends push_field (rounds source) source 0 [] steady (omega arith) (omega arith),
  decode_loop-ends set_field (rounds source) source 0 [] steady (omega arith) (omega arith),
)

-- A length-delimited field whose length is negative and leads back to where its tag begins is
-- decoded for ever: for any number of rounds, neither decoder's loop ends.
pub decode_loop-never :
    (fuel : ℕ) (source : Source) (offset : ℤ) (fields : Fields)
    → below offset (length (elements source)) ≡ true
    → (read_varint source offset).0 % 8 ≡ 2
    → (let r = read_varint source (read_varint source offset).1 in r.1 +ℤ to_signed r.0) ≡ offset
    → (decode_loop push_field fuel source offset fields ≡ none)
      × (decode_loop set_field fuel source offset fields ≡ none)
decode_loop-never fuel source offset fields inside wire back = (
  decode_loop-stuck push_field fuel source offset fields inside wire back,
  decode_loop-stuck set_field fuel source offset fields inside wire back,
)
