-- ===== src/Hex/RoundTrip.antt =====
-- The conversions write the digits of the number, and reading them gives it back.
use ascii_serial_com_c.Prelude.{
  ℕ, suc, ◌+◌, ◌-◌, ◌*◌, ◌/◌, ◌%◌, ◌^◌, ◌≤◌, ◌<◌, bit_and, bit_or, ◌≡◌, ◌≢◌, refl, ◌∙◌, ap, ap₂,
  Bool, true, false, List, [], ◌∷◌, some, get_elem?, set, length, length-set, get_elem?-set, ◌==◌,
  if◌then◌else◌, u8, ok, arith,
}
use ascii_serial_com_c.Bits.{bit_and_mask, bit_or_field, bit_or_field_low}
use ascii_serial_com_c.Hex.{
  nibble_char, uint8_to_hex_loop, convert_uint8_to_hex, bytes_to_hex_loop, convert_uint16_to_hex,
  char_nibble, hex_to_uint8_loop, convert_hex_to_uint8, hex_to_bytes_loop, convert_hex_to_uint16,
}

pub char_nibble-nibble_char :
    (n : ℕ) (caps : Bool) → n < 16 → char_nibble (nibble_char n caps) ≡ some n
unfolding char_nibble nibble_char
char_nibble-nibble_char n caps h = ground arith

-- A digit is no '>', no '.' and no line feed.
pub nibble_char_safe :
    (n : ℕ)
    → n < 16
    → (nibble_char n true ≢ b'>')
      × (nibble_char n true ≢ b'.')
      × (nibble_char n true ≢ 0x0a)
      × (nibble_char n true < 128)
unfolding nibble_char
nibble_char_safe n h = (ground arith, ground arith, ground arith, ground arith)

-- Nor is one of the other case, and all are bytes.
pub nibble_char_avoids :
    (n : ℕ) (caps : Bool)
    → n < 16
    → (nibble_char n caps ≢ b'>')
      × (nibble_char n caps ≢ b'.')
      × (nibble_char n caps ≢ 0x0a)
      × (nibble_char n caps < 256)
unfolding nibble_char
nibble_char_avoids n true h = (ground arith, ground arith, ground arith, ground arith)
nibble_char_avoids n false h = (ground arith, ground arith, ground arith, ground arith)

-- The two digits of a byte, high one first.
pub convert_uint8_to_hex_lem :
    (num offset : ℕ) (caps : Bool) (outstr : List ℕ)
    → num < 256
    → convert_uint8_to_hex num offset caps outstr
      ≡ set
          (set outstr (offset + 1) (nibble_char (num % 16) caps))
          offset
          (nibble_char (num / 16) caps)
unfolding convert_uint8_to_hex uint8_to_hex_loop
convert_uint8_to_hex_lem num offset caps outstr h = ground (
  arith,
  bit_and_mask 4 (num / 1),
  bit_and_mask 4 (num / 16),
  ap (set (set outstr (offset + 1) (nibble_char (num % 16) caps)) (offset + 0)) digit,
)
  where
    digit : nibble_char (num / 16 % 16) caps ≡ nibble_char (num / 16) caps
    digit = ap (λ n. nibble_char n caps) (omega arith)

hex_round :
    {S : Type 0} (left i result offset c n : ℕ) (instr : List ℕ) (s : S)
    → get_elem? instr (offset + (1 - i)) ≡ some c
    → char_nibble c ≡ some n
    → hex_to_uint8_loop (suc left) i result offset instr s
      ≡ hex_to_uint8_loop left (i + 1) (u8 (bit_or result (n * 2 ^ (i * 4)))) offset instr s
unfolding hex_to_uint8_loop
hex_round left i result offset c n instr s e d = rw (e, d, hex_to_uint8_loop)

pub convert_hex_to_uint8_lem :
    {S : Type 0} (hi lo offset : ℕ) (instr : List ℕ) (caps : Bool) (s : S)
    → hi < 16
    → lo < 16
    → get_elem? instr offset ≡ some (nibble_char hi caps)
    → get_elem? instr (offset + 1) ≡ some (nibble_char lo caps)
    → convert_hex_to_uint8 offset instr s ≡ (ok (hi * 16 + lo), s)
unfolding convert_hex_to_uint8 hex_to_uint8_loop
convert_hex_to_uint8_lem hi lo offset instr caps s h l eh el =
    hex_round 1 0 0 offset _ lo instr s el (char_nibble-nibble_char lo caps l)
    ∙ hex_round 0 1 (u8 (bit_or 0 (lo * 2 ^ 0))) offset _ hi instr s
        (ap (get_elem? instr) (omega arith) ∙ eh) (char_nibble-nibble_char hi caps h)
    ∙ ap (λ n. (ok n, s)) value
  where
    first : u8 (bit_or 0 (lo * 2 ^ 0)) ≡ lo
    first = omega (arith, bit_or_field 4 0 lo, ap (bit_or 0) (times_one lo))
      where
        times_one : (n : ℕ) → n * 2 ^ 0 ≡ n
        times_one n = omega arith

    value : u8 (bit_or (u8 (bit_or 0 (lo * 2 ^ 0))) (hi * 2 ^ 4)) ≡ hi * 16 + lo
    value = rw first (omega (arith, bit_or_field_low 4 hi lo l))

-- Digit `k` of a number, counted from the low end.
abbrev pub digit : ℕ → ℕ → Bool → ℕ
digit num k caps = nibble_char (num / 16 ^ k % 16) caps

pub write_digits : ℕ → ℕ → Bool → List ℕ → List ℕ
write_digits num offset caps outstr =
    set
      (set (set (set outstr (offset + 3) (digit num 0 caps)) (offset + 2) (digit num 1 caps))
        (offset + 1) (digit num 2 caps))
      offset (digit num 3 caps)

digits_lem :
    (num offset : ℕ) (caps : Bool) (outstr : List ℕ)
    → num < 65536
    → set
        (set
          (set
            (set outstr (offset + 2 + 1) (nibble_char (num % 256 % 16) caps))
            (offset + 2)
            (nibble_char (num % 256 / 16) caps))
          (offset + 1)
          (nibble_char (num / 256 % 16) caps))
        offset
        (nibble_char (num / 256 / 16) caps)
      ≡ write_digits num offset caps outstr
unfolding write_digits
digits_lem num offset caps outstr h = cc (at_3, digit_0, digit_1, digit_3)
  where
    at_3 : offset + 2 + 1 ≡ offset + 3
    at_3 = omega arith

    digit_0 : num % 256 % 16 ≡ num / 16 ^ 0 % 16
    digit_0 = omega arith

    digit_1 : num % 256 / 16 ≡ num / 16 ^ 1 % 16
    digit_1 = omega arith

    digit_3 : num / 256 / 16 ≡ num / 16 ^ 3 % 16
    digit_3 = omega arith

pub convert_uint16_to_hex_lem :
    (num offset : ℕ) (caps : Bool) (outstr : List ℕ)
    → num < 65536
    → convert_uint16_to_hex num offset caps outstr ≡ write_digits num offset caps outstr
unfolding convert_uint16_to_hex bytes_to_hex_loop write_digits
convert_uint16_to_hex_lem num offset caps outstr h =
    ap₂
      (λ low high.
        convert_uint8_to_hex high (offset + 2 - 2) caps
          (convert_uint8_to_hex low (offset + 2 - 0) caps outstr))
      low_byte high_byte
    ∙ ap₂
        (λ o p.
          convert_uint8_to_hex (num / 256) o caps (convert_uint8_to_hex (num % 256) p caps outstr))
        (omega arith) (omega arith)
    ∙ ap (convert_uint8_to_hex (num / 256) offset caps)
        (convert_uint8_to_hex_lem (num % 256) (offset + 2) caps outstr (omega arith))
    ∙ convert_uint8_to_hex_lem (num / 256) offset caps _ (omega arith)
    ∙ digits_lem num offset caps outstr h
  where
    low_byte : bit_and (num / 2 ^ (8 * 0)) 0xff ≡ num % 256
    low_byte = omega (arith, bit_and_mask 8 (num / 1))

    high_byte : bit_and (num / 2 ^ (8 * 1)) 0xff ≡ num / 256
    high_byte = omega (arith, bit_and_mask 8 (num / 256))

-- Where the digits of a 16-bit number stand in an array.
pub record ReadsHex16 (instr : List ℕ) (offset num : ℕ) (caps : Bool) : Type 0 where
  pub at_0 : get_elem? instr offset ≡ some (digit num 3 caps)
  pub at_1 : get_elem? instr (offset + 1) ≡ some (digit num 2 caps)
  pub at_2 : get_elem? instr (offset + 2) ≡ some (digit num 1 caps)
  pub at_3 : get_elem? instr (offset + 3) ≡ some (digit num 0 caps)

reads_written :
    (xs : List ℕ) (o a b c d : ℕ)
    → o + 4 ≤ length xs
    → let written = set (set (set (set xs (o + 3) a) (o + 2) b) (o + 1) c) o d in
      (get_elem? written o ≡ some d)
      × (get_elem? written (o + 1) ≡ some c)
      × (get_elem? written (o + 2) ≡ some b)
      × (get_elem? written (o + 3) ≡ some a)
reads_written xs o a b c d h = (
  ground (arith, at o),
  ground (arith, at (o + 1)),
  ground (arith, at (o + 2)),
  ground (arith, at (o + 3)),
)
  where
    at :
        (j : ℕ)
        → get_elem? (set (set (set (set xs (o + 3) a) (o + 2) b) (o + 1) c) o d) j ≡ (
            if o == j
            then some d
            else if o + 1 == j
            then some c
            else if o + 2 == j
            then some b
            else if o + 3 == j
            then some a
            else get_elem? xs j)
    at j = ground (
      arith,
      get_elem?-set (set (set (set xs (o + 3) a) (o + 2) b) (o + 1) c) o j d,
      get_elem?-set (set (set xs (o + 3) a) (o + 2) b) (o + 1) j c,
      get_elem?-set (set xs (o + 3) a) (o + 2) j b,
      get_elem?-set xs (o + 3) j a,
      length-set (set (set xs (o + 3) a) (o + 2) b) (o + 1) c,
      length-set (set xs (o + 3) a) (o + 2) b,
      length-set xs (o + 3) a,
    )

module _ (num offset : ℕ) (caps : Bool) where
  pub write_digits-ReadsHex16 :
      (outstr : List ℕ)
      → offset + 4 ≤ length outstr
      → ReadsHex16 (write_digits num offset caps outstr) offset num caps
  unfolding write_digits
  write_digits-ReadsHex16 outstr h =
      let (r0, r1, r2, r3) =
        reads_written outstr offset (digit num 0 caps) (digit num 1 caps) (digit num 2 caps)
          (digit num 3 caps) h in
      record { at_0 = r0; at_1 = r1; at_2 = r2; at_3 = r3 }

  pub convert_hex_to_uint16_lem :
      {S : Type 0} (instr : List ℕ) (s : S)
      → num < 65536
      → ReadsHex16 instr offset num caps
      → convert_hex_to_uint16 offset instr s ≡ (ok num, s)
  unfolding convert_hex_to_uint16 hex_to_bytes_loop
  convert_hex_to_uint16_lem instr s lt r = rw (low, high) (ap (λ n. (ok n, s)) value)
    where
      low : convert_hex_to_uint8 (offset + 2 - 0) instr s ≡ (ok (num % 256), s)
      low =
          convert_hex_to_uint8_lem (num / 16 ^ 1 % 16) (num / 16 ^ 0 % 16) (offset + 2 - 0) instr
            caps s (omega arith) (omega arith) (ap (get_elem? instr) (omega arith) ∙ r.at_2)
            (ap (get_elem? instr) (omega arith) ∙ r.at_3)
          ∙ ap (λ n. (ok n, s)) (omega arith)

      high : convert_hex_to_uint8 (offset + 2 - (0 + 1) * 2) instr s ≡ (ok (num / 256), s)
      high =
          convert_hex_to_uint8_lem (num / 16 ^ 3 % 16) (num / 16 ^ 2 % 16)
            (offset + 2 - (0 + 1) * 2) instr caps s (omega arith) (omega arith)
            (ap (get_elem? instr) (omega arith) ∙ r.at_0)
            (ap (get_elem? instr) (omega arith) ∙ r.at_1)
          ∙ ap (λ n. (ok n, s)) (omega arith)

      first : bit_or 0 (num % 256 * 2 ^ 0) % 2 ^ 16 ≡ num % 256
      first =
          omega (arith, bit_or_field 16 0 (num % 256 * 2 ^ 0) (omega arith), times_one (num % 256))
        where
          times_one : (n : ℕ) → n * 2 ^ 0 ≡ n
          times_one n = omega arith

      value : bit_or (bit_or 0 (num % 256 * 2 ^ 0) % 2 ^ 16) (num / 256 * 2 ^ 8) % 2 ^ 16 ≡ num
      value = rw first (omega (arith, bit_or_field_low 8 (num / 256) (num % 256) (omega arith)))

  -- A 16-bit number written in digits of either case at any offset of an array with room for them
  -- is read back from there.
  pub hex16_round_trip :
      {S : Type 0} (outstr : List ℕ) (s : S)
      → num < 65536
      → offset + 4 ≤ length outstr
      → convert_hex_to_uint16 offset (convert_uint16_to_hex num offset caps outstr) s ≡ (ok num, s)
  hex16_round_trip outstr s lt h =
      convert_hex_to_uint16_lem _ s lt (
        rw (convert_uint16_to_hex_lem num offset caps outstr lt) (write_digits-ReadsHex16 outstr h))

-- Written over four characters.
pub write_digits_four :
    (n : ℕ) (caps : Bool) (w x y z : ℕ)
    → write_digits n 0 caps (w ∷ x ∷ y ∷ z ∷ [])
      ≡ digit n 3 caps ∷ digit n 2 caps ∷ digit n 1 caps ∷ digit n 0 caps ∷ []
unfolding write_digits
write_digits_four n caps w x y z = refl
