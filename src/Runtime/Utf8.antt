-- ===== src/Runtime/Utf8.antt =====
-- `TextDecoder` and `TextEncoder`: UTF-8 to and from UTF-16, with U+FFFD for what is malformed.
use cantontrace.Base.{
  ℕ, ◌+◌, ◌-◌, ◌*◌, ◌/◌, ◌%◌, ◌<◌, ◌≡◌, refl, ap, ◌∙◌, ◌&&◌, List, [], ◌∷◌, ◌++◌, All, arith, ltb,
  leb, ◌==◌, if◌then◌else◌, Str,
}

abbrev pub IsAscii : ℕ → Type 0
IsAscii b = b < 128

-- The code units of a code point.
units : ℕ → Str
units p =
    if ltb p 65536 then p ∷ [] else (55296 + (p - 65536) / 1024) ∷ (56320 + (p - 65536) % 1024) ∷ []

-- The decoder's state: how many continuation bytes are missing, the bits so far and the range of
-- the next byte.
record State : Type 0 where
  needed : ℕ
  point : ℕ
  lower : ℕ
  upper : ℕ

abbrev idle : State
idle = record { needed = 0; point = 0; lower = 128; upper = 191 }

abbrev pending : ℕ → ℕ → State
pending n p = record { needed = n; point = p; lower = 128; upper = 191 }

-- A byte that begins a code point.
lead : ℕ → State × Str
lead b =
    if ltb b 128
    then (idle, b ∷ [])
    else if ltb b 194
    then (idle, 65533 ∷ [])
    else if ltb b 224
    then (pending 1 (b - 192), [])
    else if b == 224
    then (record { needed = 2; point = 0; lower = 160; upper = 191 }, [])
    else if b == 237
    then (record { needed = 2; point = 13; lower = 128; upper = 159 }, [])
    else if ltb b 240
    then (pending 2 (b - 224), [])
    else if b == 240
    then (record { needed = 3; point = 0; lower = 144; upper = 191 }, [])
    else if b == 244
    then (record { needed = 3; point = 4; lower = 128; upper = 143 }, [])
    else if ltb b 244
    then (pending 3 (b - 240), [])
    else (idle, 65533 ∷ [])

-- A byte that is out of range ends the code point and is read again as a first byte.
continue : State → ℕ → State × Str
continue s b =
    if leb s.lower b && leb b s.upper
    then (if s.needed == 1
        then (idle, units (s.point * 64 + (b - 128)))
        else (pending (s.needed - 1) (s.point * 64 + (b - 128)), []))
    else ((lead b).0, 65533 ∷ (lead b).1)

advance : State → ℕ → State × Str
advance s b = if s.needed == 0 then lead b else continue s b

decode_from : State → List ℕ → Str
decode_from s [] = if s.needed == 0 then [] else 65533 ∷ []
decode_from s (b ∷ bs) = (advance s b).1 ++ decode_from (advance s b).0 bs

-- A byte order mark at the start is left out.
strip_mark : Str → Str
strip_mark [] = []
strip_mark (c ∷ s) = if c == 65279 then s else c ∷ s

unfoldable pub decode : List ℕ → Str
unfolding decode_from advance continue lead units strip_mark
decode bs = strip_mark (decode_from idle bs)

-- The bytes of a code point.
bytes : ℕ → List ℕ
bytes p =
    if ltb p 128
    then p ∷ []
    else if ltb p 2048
    then (192 + p / 64) ∷ (128 + p % 64) ∷ []
    else if ltb p 65536
    then (224 + p / 4096) ∷ (128 + p / 64 % 64) ∷ (128 + p % 64) ∷ []
    else (240 + p / 262144) ∷ (128 + p / 4096 % 64) ∷ (128 + p / 64 % 64) ∷ (128 + p % 64) ∷ []

-- The bytes of a text after the high surrogate `high`, or after none (0).
encode_from : ℕ → Str → List ℕ
encode_from high [] = if high == 0 then [] else bytes 65533
encode_from high (c ∷ s) =
    if leb 56320 c && leb c 57343
    then (if high == 0 then bytes 65533 else bytes (65536 + (high - 55296) * 1024 + (c - 56320)))
      ++ encode_from 0 s
    else (if high == 0 then [] else bytes 65533)
      ++ (if leb 55296 c && leb c 56319 then [] else bytes c)
      ++ encode_from (if leb 55296 c && leb c 56319 then c else 0) s

unfoldable pub encode : Str → List ℕ
unfolding encode_from bytes
encode s = encode_from 0 s

decode_euro :
    decode (226 ∷ 130 ∷ 172 ∷ 255 ∷ 240 ∷ 159 ∷ 152 ∷ 128 ∷ []) ≡ 8364 ∷ 65533 ∷ 55357 ∷ 56832 ∷ []
unfolding decode
decode_euro = refl

encode_euro : encode (8364 ∷ 55357 ∷ 56832 ∷ []) ≡ 226 ∷ 130 ∷ 172 ∷ 240 ∷ 159 ∷ 152 ∷ 128 ∷ []
unfolding encode
encode_euro = refl

decode_from_ascii : (s : Str) → All IsAscii s → decode_from idle s ≡ s
unfolding decode_from advance lead
decode_from_ascii [] h = refl
decode_from_ascii (c ∷ s) (p, h) = ground (arith, decode_from_ascii s h)

pub decode_ascii : (s : Str) → All IsAscii s → decode s ≡ s
unfolding decode
decode_ascii s h = ap strip_mark (decode_from_ascii s h) ∙ strip_mark_ascii s h
  where
    strip_mark_ascii : (s : Str) → All IsAscii s → strip_mark s ≡ s
    strip_mark_ascii [] h = refl
    strip_mark_ascii (c ∷ s) h = ground arith

encode_from_ascii : (s : Str) → All IsAscii s → encode_from 0 s ≡ s
unfolding encode_from bytes
encode_from_ascii [] h = refl
encode_from_ascii (c ∷ s) (p, h) = ground (arith, encode_from_ascii s h)

pub encode_ascii : (s : Str) → All IsAscii s → encode s ≡ s
unfolding encode
encode_ascii s h = encode_from_ascii s h
