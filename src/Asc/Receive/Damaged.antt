-- ===== src/Asc/Receive/Damaged.antt =====
-- A line whose checksum is wrong is dropped.
use mathlib.Core.Path.{subst}
use ascii_serial_com_c.Prelude.{
  ℕ, ◌≤◌, ◌<◌, ◌≡◌, ◌≢◌, refl, ◌∙◌, sym, ap, ap₂, true, false, List, [], ◌∷◌, ◌++◌, length,
  replicate, Absent, Outcome, ok, arith, Bool-cases, inl, inr,
}
use ascii_serial_com_c.CircularBuffer.{CircularBuffer}
use ascii_serial_com_c.CircularBuffer.Becomes.{Holds}
use ascii_serial_com_c.Hex.{convert_hex_to_uint16}
use ascii_serial_com_c.Hex.RoundTrip.{hex16_round_trip}
use ascii_serial_com_c.Crc.Agree.{IsBytes}
use ascii_serial_com_c.Crc.Detects.{checksum-detects}
use ascii_serial_com_c.Asc.{Asc}
use ascii_serial_com_c.Asc.Frame.{
  hex4, crc_of, crc_of-lt, checked, checked-IsBytes, convert-hex4, IsSendable,
}
use ascii_serial_com_c.Asc.Receive.{Message, Receiver, same_chars, get_message_from_input_buffer}
use ascii_serial_com_c.Asc.Receive.Parts.{receiver}
use ascii_serial_com_c.Asc.Receive.Parsed.{filled, read_frame-Parsed}
use ascii_serial_com_c.Asc.Receive.Line.{
  line, get_message-AtFront, expected_checksum-crc, read_ended-read_frame,
}

same_chars-≡ : (xs ys : List ℕ) → same_chars xs ys ≡ true → xs ≡ ys
same_chars-≡ [] [] e = refl
same_chars-≡ [] (y ∷ ys) e = ground (arith, e)
same_chars-≡ (x ∷ xs) [] e = ground (arith, e)
same_chars-≡ (x ∷ xs) (y ∷ ys) e = ap₂ (λ a l. a ∷ l) heads (same_chars-≡ xs ys tails)
  where
    heads : x ≡ y
    heads = ground (arith, e)

    tails : same_chars xs ys ≡ true
    tails = ground (arith, e)

number : Outcome ℕ → ℕ
number (ok n) = n
number r = 0

hex4-injective : (n k : ℕ) → n < 65536 → k < 65536 → hex4 n ≡ hex4 k → n ≡ k
unfolding number
hex4-injective n k hn hk e = ap (λ r. number r.0) both
  where
    read : (j : ℕ) → j < 65536 → convert_hex_to_uint16 {S = Unit {0}} 0 (hex4 j) tt ≡ (ok j, tt)
    read j h =
        ap (λ l. convert_hex_to_uint16 {S = Unit {0}} 0 l tt) (sym (convert-hex4 j h))
        ∙ hex16_round_trip j 0 true (replicate 4 0) tt h (omega arith)

    both : ◌≡◌ {A = Outcome ℕ × Unit {0}} (ok n, tt) (ok k, tt)
    both = sym (read n hn) ∙ ap (λ l. convert_hex_to_uint16 {S = Unit {0}} 0 l tt) e ∙ read k hk

-- No message is delivered: the command is the zero byte and the length 0. The line is gone, and
-- what follows it is still there.
pub record Dropped (cap : ℕ) (q : List ℕ) (asc : Asc) (m : Message)
    (result : Outcome (Unit {0}) × Receiver) : Type 0 where
  pub after : CircularBuffer
  pub message : Message
  pub returns : result ≡ (ok tt, receiver asc after message)
  pub no_command : message.command ≡ 0
  pub no_data : message.data_len ≡ 0
  pub holds : Holds cap q after

module _ {cap v a c : ℕ} {payload : List ℕ} (s : IsSendable v a c payload) where
  -- If the input buffer holds bytes without a line feed, then the line of a sendable message of at
  -- most 54 bytes of payload whose four digits are those of a 16-bit number other than its
  -- checksum, then anything, the caller's array has room for the payload, and checksum mismatches
  -- are not ignored, then get_message_from_input_buffer returns normally without a message, its
  -- command the zero byte and its length 0, with the line removed and what follows it kept.
  pub get_message-Dropped :
      (n : ℕ) (junk q : List ℕ) (asc : Asc) (m : Message)
      → Holds cap (junk ++ line v a c payload n q) asc.in_buf
      → Absent 0x0a junk
      → length payload ≤ 54
      → length payload ≤ length m.bytes
      → asc.ignore_crc_mismatch ≡ false
      → n < 65536
      → n ≢ crc_of (checked v a c payload)
      → Dropped cap q asc m (get_message_from_input_buffer (record { asc = asc; message = m }))
  get_message-Dropped n junk q asc m h clean short fits off small wrong =
      let at = get_message-AtFront s n junk q asc m h clean short in
      let parsed =
        read_frame-Parsed payload q asc m n at.front (hex4 (crc_of (checked v a c payload)))
          at.holds s.no_period.1.1.1 fits (omega arith) in
      record {
        after = parsed.after;
        message = record (filled v a c payload m) { command = 0; data_len = 0 };
        returns =
            at.goes_on
            ∙ read_ended-read_frame s n q asc m at.front at.holds
                (hex4 (crc_of (checked v a c payload)))
                (expected_checksum-crc s n q asc m at.front at.holds off short) (omega arith)
            ∙ parsed.differed (rw off differ);
        no_command = refl;
        no_data = refl;
        holds = parsed.holds;
      }
    where
      differ : same_chars (hex4 n) (hex4 (crc_of (checked v a c payload))) ≡ false
      differ = elim (Bool-cases (same_chars (hex4 n) (hex4 (crc_of (checked v a c payload))))) [
        | inl same ↦ absurd (
            wrong (
              hex4-injective n (crc_of (checked v a c payload)) small
                (crc_of-lt (checked v a c payload) (checked-IsBytes s)) (same_chars-≡ _ _ same)))
        | inr differs ↦ differs
      ]

crc_of-detects :
    (p r : List ℕ) (x y x' y' : ℕ)
    → IsBytes (p ++ (x ∷ y ∷ r))
    → IsBytes (p ++ (x' ∷ y' ∷ r))
    → ¬ ((x ≡ x') × (y ≡ y'))
    → crc_of (p ++ (x ∷ y ∷ r)) ≢ crc_of (p ++ (x' ∷ y' ∷ r))
unfolding crc_of
crc_of-detects p r x y x' y' h h' changed = checksum-detects p r x y x' y' h h' changed

-- A frame of which two adjacent bytes before the checksum have changed on the line.
module _ {v a c : ℕ} {payload : List ℕ} (sent : IsSendable v a c payload) {v' a' c' : ℕ}
    {payload' : List ℕ} (arrived : IsSendable v' a' c' payload') where
  -- Let a sendable message arrive as another sendable one of at most 54 bytes of payload, with the
  -- checksum that it was sent with: of its bytes from '>' to '.', only two adjacent ones have
  -- changed, one of them at least. If the input buffer holds bytes without a line feed, then that
  -- line, then anything, the caller's array has room for the payload, and checksum mismatches are
  -- not ignored, then get_message_from_input_buffer returns normally without a message, its
  -- command the zero byte and its length 0, with the line removed and what follows it kept.
  pub get_message-Detected :
      (p r : List ℕ) (x y x' y' : ℕ)
      → checked v a c payload ≡ p ++ (x ∷ y ∷ r)
      → checked v' a' c' payload' ≡ p ++ (x' ∷ y' ∷ r)
      → ¬ ((x ≡ x') × (y ≡ y'))
      → {cap : ℕ} (junk q : List ℕ) (asc : Asc) (m : Message)
      → Holds cap (junk ++ line v' a' c' payload' (crc_of (checked v a c payload)) q) asc.in_buf
      → Absent 0x0a junk
      → length payload' ≤ 54
      → length payload' ≤ length m.bytes
      → asc.ignore_crc_mismatch ≡ false
      → Dropped cap q asc m (get_message_from_input_buffer (record { asc = asc; message = m }))
  get_message-Detected p r x y x' y' was is changed junk q asc m h clean short fits off =
      get_message-Dropped arrived (crc_of (checked v a c payload)) junk q asc m h clean short fits
        off (crc_of-lt (checked v a c payload) (checked-IsBytes sent))
        (λ e.
          crc_of-detects p r x y x' y' (subst IsBytes was (checked-IsBytes sent))
            (subst IsBytes is (checked-IsBytes arrived)) changed
            (ap crc_of (sym was) ∙ e ∙ ap crc_of is))
