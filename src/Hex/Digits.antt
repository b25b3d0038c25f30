-- ===== src/Hex/Digits.antt =====
-- The conversions to digits at every width: which characters they write, and where.
use mathlib.Core.Path.{subst}
use ascii_serial_com_c.Prelude.{
  ℕ, zero, suc, ◌+◌, ◌-◌, ◌/◌, ◌%◌, ◌^◌, ◌≤◌, ◌<◌, ◌≡◌, refl, ◌∙◌, ap, ap₂, true, List, [], ◌∷◌,
  length, set, get_elem?, get_elem?-set_self, get_elem?-set_ne, length-set, arith, bit_and, Reads,
}
use ascii_serial_com_c.Bits.{bit_and_mask}
use ascii_serial_com_c.Hex.{
  nibble_char, bytes_to_hex_loop, convert_uint8_to_hex, convert_uint16_to_hex,
  convert_uint32_to_hex,
}
use ascii_serial_com_c.Hex.RoundTrip.{digit, convert_uint8_to_hex_lem}

-- The lowest `k` digits, the high one first.
abbrev pub digits_of : ℕ → ℕ → List ℕ
digits_of zero x = []
digits_of (suc k) x = digit x k true ∷ digits_of k x

pub length-digits_of : (k x : ℕ) → length (digits_of k x) ≡ k
length-digits_of zero x = refl
length-digits_of (suc k) x = omega (arith, length-digits_of k x)

-- Characters written from an index on.
abbrev pub put_all : List ℕ → ℕ → List ℕ → List ℕ
put_all [] o out = out
put_all (x ∷ xs) o out = set (put_all xs (o + 1) out) o x

pub length-put_all : (xs : List ℕ) (o : ℕ) (out : List ℕ) → length (put_all xs o out) ≡ length out
length-put_all [] o out = refl
length-put_all (x ∷ xs) o out =
    length-set (put_all xs (o + 1) out) o x ∙ length-put_all xs (o + 1) out

pub put_all_below :
    (xs : List ℕ) (o : ℕ) (out : List ℕ) (j : ℕ)
    → j < o
    → get_elem? (put_all xs o out) j ≡ get_elem? out j
put_all_below [] o out j lt = refl
put_all_below (x ∷ xs) o out j lt =
    get_elem?-set_ne (put_all xs (o + 1) out) x (omega arith)
    ∙ put_all_below xs (o + 1) out j (omega arith)

pub Reads-set :
    (array : List ℕ) (o x i : ℕ) (xs : List ℕ)
    → o < i
    → Reads array i xs
    → Reads (set array o x) i xs
Reads-set array o x i [] lt h = tt
Reads-set array o x i (y ∷ xs) lt h =
    (get_elem?-set_ne array x (omega arith) ∙ h.0, Reads-set array o x (suc i) xs (omega arith) h.1)

pub put_all-Reads :
    (xs : List ℕ) (o : ℕ) (out : List ℕ)
    → o + length xs ≤ length out
    → Reads (put_all xs o out) o xs
put_all-Reads [] o out h = tt
put_all-Reads (x ∷ xs) o out h = (
  get_elem?-set_self (put_all xs (o + 1) out) o x (omega (arith, length-put_all xs (o + 1) out)),
  Reads-set (put_all xs (o + 1) out) o x (suc o) xs (omega arith) (
      subst (λ k. Reads (put_all xs (o + 1) out) k xs) next
        (put_all-Reads xs (o + 1) out (omega arith))),
)
  where
    next : o + 1 ≡ suc o
    next = omega arith

byte_put :
    (b off off2 hi lo : ℕ) (xs out : List ℕ)
    → off2 ≡ off + 2
    → b / 16 % 16 ≡ hi
    → b % 16 ≡ lo
    → convert_uint8_to_hex (bit_and b 0xff) off true (put_all xs off2 out)
      ≡ put_all (nibble_char hi true ∷ nibble_char lo true ∷ xs) off out
byte_put b off off2 hi lo xs out e h l =
    convert_uint8_to_hex_lem (bit_and b 0xff) off true (put_all xs off2 out)
      (omega (arith, bit_and_mask 8 b))
    ∙ ap₂
        (λ x y.
          set (set (put_all xs off2 out) (off + 1) (nibble_char x true)) off (nibble_char y true))
        (omega (arith, bit_and_mask 8 b)) (omega (arith, bit_and_mask 8 b))
    ∙ ap
        (λ k.
          set (set (put_all xs k out) (off + 1) (nibble_char lo true)) off (nibble_char hi true))
        (omega arith)

pub convert_uint8_put :
    (x o : ℕ) (out : List ℕ)
    → x < 256
    → convert_uint8_to_hex x o true out ≡ put_all (digits_of 2 x) o out
convert_uint8_put x o out h =
    ap (λ b. convert_uint8_to_hex b o true out) (omega (arith, bit_and_mask 8 x))
    ∙ byte_put x o (o + 2) (x / 16 ^ 1 % 16) (x / 16 ^ 0 % 16) [] out refl (omega arith)
        (omega arith)

pub convert_uint16_put :
    (x o : ℕ) (out : List ℕ) → convert_uint16_to_hex x o true out ≡ put_all (digits_of 4 x) o out
unfolding convert_uint16_to_hex bytes_to_hex_loop
convert_uint16_put x o out =
    ap (convert_uint8_to_hex (bit_and (x / 2 ^ 8) 0xff) (o + 2 - 2) true) (
      byte_put (x / 2 ^ 0) (o + 2 - 0) (o + 4) (x / 16 ^ 1 % 16) (x / 16 ^ 0 % 16) [] out
        (omega arith) (omega arith) (omega arith))
    ∙ byte_put (x / 2 ^ 8) (o + 2 - 2) (o + 2 - 0) (x / 16 ^ 3 % 16) (x / 16 ^ 2 % 16)
        (digits_of 2 x) out (omega arith) (omega arith) (omega arith)
    ∙ ap (λ k. put_all (digits_of 4 x) k out) same
  where
    same : o + 2 - 2 ≡ o
    same = omega arith

pub convert_uint32_put :
    (x o : ℕ) (out : List ℕ) → convert_uint32_to_hex x o true out ≡ put_all (digits_of 8 x) o out
unfolding convert_uint32_to_hex bytes_to_hex_loop
convert_uint32_put x o out =
    ap (λ l. third (second (first l)))
      (byte_put (x / 2 ^ 0) (o + 6 - 0) (o + 8) (x / 16 ^ 1 % 16) (x / 16 ^ 0 % 16) [] out
        (omega arith) (omega arith) (omega arith))
    ∙ ap (λ l. third (second l))
        (byte_put (x / 2 ^ 8) (o + 6 - 2) (o + 6 - 0) (x / 16 ^ 3 % 16) (x / 16 ^ 2 % 16)
          (digits_of 2 x) out (omega arith) (omega arith) (omega arith))
    ∙ ap third (
        byte_put (x / 2 ^ 16) (o + 6 - 4) (o + 6 - 2) (x / 16 ^ 5 % 16) (x / 16 ^ 4 % 16)
          (digits_of 4 x) out (omega arith) (omega arith) (omega arith))
    ∙ byte_put (x / 2 ^ 24) (o + 6 - 6) (o + 6 - 4) (x / 16 ^ 7 % 16) (x / 16 ^ 6 % 16)
        (digits_of 6 x) out (omega arith) (omega arith) (omega arith)
    ∙ ap (λ k. put_all (digits_of 8 x) k out) same
  where
    same : o + 6 - 6 ≡ o
    same = omega arith

    first : List ℕ → List ℕ
    first = convert_uint8_to_hex (bit_and (x / 2 ^ 8) 0xff) (o + 6 - 2) true

    second : List ℕ → List ℕ
    second = convert_uint8_to_hex (bit_and (x / 2 ^ 16) 0xff) (o + 6 - 4) true

    third : List ℕ → List ℕ
    third = convert_uint8_to_hex (bit_and (x / 2 ^ 24) 0xff) (o + 6 - 6) true
