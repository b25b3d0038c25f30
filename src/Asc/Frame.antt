-- ===== src/Asc/Frame.antt =====
-- What a message looks like on the line:
-- '>', version, application version, command, payload, '.', four digits of checksum, line feed.
use ascii_serial_com_c.Prelude.{
  ℕ, ◌+◌, ◌<◌, ◌≡◌, refl, ◌∙◌, true, List, [], ◌∷◌, ◌++◌, length, length-append, replicate, Absent,
  arith,
}
use ascii_serial_com_c.Bits.{bit_xor-lt_pow}
use ascii_serial_com_c.Hex.{convert_uint16_to_hex}
use ascii_serial_com_c.Hex.RoundTrip.{digit, convert_uint16_to_hex_lem, write_digits_four}
use ascii_serial_com_c.Crc.Tbl4bit
use ascii_serial_com_c.Crc.Agree.{IsBytes, update-byte_steps, byte_steps-lt}

-- The checksum of the bytes from '>' to '.'.
unfoldable pub crc_of : List ℕ → ℕ
crc_of bytes = Tbl4bit.finalize (Tbl4bit.update Tbl4bit.init bytes)

-- Four digits, the high one first.
unfoldable pub hex4 : ℕ → List ℕ
hex4 n = digit n 3 true ∷ digit n 2 true ∷ digit n 1 true ∷ digit n 0 true ∷ []

module _ (asc_version app_version command : ℕ) (payload : List ℕ) where
  abbrev pub header : List ℕ
  header = b'>' ∷ asc_version ∷ app_version ∷ command ∷ payload

  abbrev pub checked : List ℕ
  checked = header ++ (b'.' ∷ [])

  unfoldable pub ending : List ℕ
  ending = hex4 (crc_of checked) ++ (0x0a ∷ [])

  abbrev pub frame : List ℕ
  frame = header ++ (b'.' ∷ ending)

  -- What the payload and the three characters must avoid: the characters that delimit a frame.
  pub record IsSendable : Type 0 where
    pub bytes : IsBytes header
    pub no_start : Absent b'>' (asc_version ∷ app_version ∷ command ∷ payload)
    pub no_period : Absent b'.' (asc_version ∷ app_version ∷ command ∷ payload)
    pub no_newline : Absent 0x0a (asc_version ∷ app_version ∷ command ∷ payload)

pub length-checked :
    (v a c : ℕ) (payload : List ℕ) → length (checked v a c payload) ≡ length payload + 5
length-checked v a c payload = omega (arith, length-append {0} (header v a c payload) (b'.' ∷ []))

pub length-ending : (v a c : ℕ) (payload : List ℕ) → length (ending v a c payload) ≡ 5
unfolding ending hex4
length-ending v a c payload = refl

pub length-frame :
    (v a c : ℕ) (payload : List ℕ) → length (frame v a c payload) ≡ length payload + 10
unfolding ending hex4
length-frame v a c payload =
    omega (arith, length-append {0} (header v a c payload) (b'.' ∷ ending v a c payload))

IsBytes-snoc : (q : List ℕ) (x : ℕ) → IsBytes q → x < 256 → IsBytes (q ++ (x ∷ []))
IsBytes-snoc [] x h lt = (lt, tt)
IsBytes-snoc (y ∷ q) x h lt = (h.0, IsBytes-snoc q x h.1 lt)

pub checked-IsBytes :
    {v a c : ℕ} {payload : List ℕ} → IsSendable v a c payload → IsBytes (checked v a c payload)
checked-IsBytes {v} {a} {c} {payload} s =
    IsBytes-snoc (header v a c payload) b'.' s.bytes (omega arith)

pub crc_of-lt : (bytes : List ℕ) → IsBytes bytes → crc_of bytes < 65536
unfolding crc_of Tbl4bit.finalize Tbl4bit.init
crc_of-lt bytes h =
    bit_xor-lt_pow 16 (Tbl4bit.update 0 bytes) 0xffff
      (omega
        (arith, update-byte_steps bytes 0 h (omega arith), byte_steps-lt bytes 0 h (omega arith)))
      (omega arith)

-- The conversion writes those four digits over any four characters.
pub convert-hex4 : (n : ℕ) → n < 65536 → convert_uint16_to_hex n 0 true (replicate 4 0) ≡ hex4 n
unfolding hex4
convert-hex4 n h =
    convert_uint16_to_hex_lem n 0 true (replicate 4 0) h ∙ write_digits_four n true 0 0 0 0
