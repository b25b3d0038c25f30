-- ===== src/Hex/RoundTrips.antt =====
-- A number written in digits is read back, at the three widths.
use ascii_serial_com_c.Prelude.{
  ℕ, ◌+◌, ◌/◌, ◌%◌, ◌^◌, ◌≤◌, ◌<◌, ◌≡◌, ◌∙◌, ap, Bool, true, List, length, length-set, set,
  get_elem?-set_self, get_elem?-set_ne, ok, arith,
}
use ascii_serial_com_c.Hex.{
  nibble_char, convert_uint8_to_hex, convert_uint16_to_hex, convert_uint32_to_hex,
  convert_hex_to_uint8, convert_hex_to_uint16, convert_hex_to_uint32,
}
use ascii_serial_com_c.Hex.RoundTrip.{
  convert_uint8_to_hex_lem, convert_hex_to_uint8_lem, hex16_round_trip,
}
use ascii_serial_com_c.Hex.Read32.{hex32_round_trip}

hex8_round_trip :
    {S : Type 0} (num o : ℕ) (caps : Bool) (out : List ℕ) (s : S)
    → num < 256
    → o + 2 ≤ length out
    → convert_hex_to_uint8 o (convert_uint8_to_hex num o caps out) s ≡ (ok num, s)
hex8_round_trip num o caps out s lt room =
    ap (λ l. convert_hex_to_uint8 o l s) (convert_uint8_to_hex_lem num o caps out lt)
    ∙ convert_hex_to_uint8_lem (num / 16) (num % 16) o written caps s (omega arith) (omega arith)
        (get_elem?-set_self low o hi (omega (arith, length-set out (o + 1) lo)))
        (get_elem?-set_ne low hi (λ e. omega (arith, e))
          ∙ get_elem?-set_self out (o + 1) lo (omega arith))
    ∙ ap (λ n. (ok n, s)) (omega arith)
  where
    hi : ℕ
    hi = nibble_char (num / 16) caps

    lo : ℕ
    lo = nibble_char (num % 16) caps

    low : List ℕ
    low = set out (o + 1) lo

    written : List ℕ
    written = set low o hi

-- An 8-bit or a 16-bit number written in digits of either case, or a 32-bit number written in
-- upper-case digits, at any offset of an array with room for eight digits from there, is read back
-- from there.
pub hex_round_trips :
    {S : Type 0} (x y z o : ℕ) (caps : Bool) (out : List ℕ) (s : S)
    → x < 256
    → y < 65536
    → z < 2 ^ 32
    → o + 8 ≤ length out
    → (convert_hex_to_uint8 o (convert_uint8_to_hex x o caps out) s ≡ (ok x, s))
      × (convert_hex_to_uint16 o (convert_uint16_to_hex y o caps out) s ≡ (ok y, s))
      × (convert_hex_to_uint32 o (convert_uint32_to_hex z o true out) s ≡ (ok z, s))
hex_round_trips x y z o caps out s hx hy hz room = (
  hex8_round_trip x o caps out s hx (omega arith),
  hex16_round_trip y o caps out s hy (omega arith),
  hex32_round_trip z o out s hz room,
)
