-- ===== src/Asc/PutError.antt =====
-- ascii_serial_com_put_error_in_output_buffer sends the error's number, the command, and the first
-- bytes of the data.
use mathlib.Core.Path.{subst}
use ascii_serial_com_c.Prelude.{
  ℕ, zero, suc, ◌+◌, ◌≤◌, ◌<◌, ◌≡◌, ◌≢◌, refl, ◌∙◌, sym, ap, true, List, [], ◌∷◌, length, take,
  length-take, set, replicate, get_elem?, some, ltb, min, Absent, Reads, if◌then◌else◌, u8, arith,
  AscException, error_code,
}
use ascii_serial_com_c.CircularBuffer.Pushes.{HoldsAt}
use ascii_serial_com_c.Hex.{convert_uint8_to_hex}
use ascii_serial_com_c.Hex.RoundTrip.{digit, nibble_char_avoids}
use ascii_serial_com_c.Hex.Digits.{convert_uint8_put}
use ascii_serial_com_c.Crc.Agree.{IsBytes}
use ascii_serial_com_c.Asc.{
  Asc, max_message_len, copy_payload, put_message_in_output_buffer, put_error_in_output_buffer,
}
use ascii_serial_com_c.Asc.Frame.{IsSendable}
use ascii_serial_com_c.Asc.Send.{Sent, put_message-Sent}
use ascii_serial_com_c.Asc.Receive.Parts.{fill, fill_below, fill-Reads}

pub copy_payload-fill :
    (xs bytes out : List ℕ) (i at : ℕ)
    → Reads bytes i xs
    → copy_payload (length xs) i at bytes out ≡ some (fill out (i + at) xs)
unfolding copy_payload fill
copy_payload-fill [] bytes out i at r = refl
copy_payload-fill (x ∷ xs) bytes out i at r =
    rw (r.0, copy_payload)
      (ap (λ k. copy_payload (length xs) k at bytes (set out (i + at) x)) next
        ∙ copy_payload-fill xs bytes (set out (i + at) x) (suc i) at r.1
        ∙ ap (λ k. some (fill (set out (i + at) x) k xs)) (omega arith))
  where
    next : i + 1 ≡ suc i
    next = omega arith

Reads-take :
    (n : ℕ) (bytes : List ℕ) (i : ℕ) (xs : List ℕ) → Reads bytes i xs → Reads bytes i (take n xs)
Reads-take zero bytes i xs r = tt
Reads-take (suc n) bytes i [] r = tt
Reads-take (suc n) bytes i (x ∷ xs) r = (r.0, Reads-take n bytes (suc i) xs r.1)

Absent-take : (x n : ℕ) (xs : List ℕ) → Absent x xs → Absent x (take n xs)
Absent-take x zero xs h = tt
Absent-take x (suc n) [] h = tt
Absent-take x (suc n) (y ∷ xs) h = (h.0, Absent-take x n xs h.1)

IsBytes-take : (n : ℕ) (xs : List ℕ) → IsBytes xs → IsBytes (take n xs)
IsBytes-take zero xs h = tt
IsBytes-take (suc n) [] h = tt
IsBytes-take (suc n) (x ∷ xs) h = (h.0, IsBytes-take n xs h.1)

-- Two digits of the number, the command between commas, at most nine bytes of the data.
abbrev pub error_data : ℕ → AscException → List ℕ → List ℕ
error_data c error payload =
    digit (error_code error) 1 true
    ∷ digit (error_code error) 0 true
    ∷ b','
    ∷ c
    ∷ b','
    ∷ take 9 payload

error_code-lt : (error : AscException) → error_code error < 256
error_code-lt AscException.unknown = omega arith
error_code-lt AscException.no_error = omega arith
error_code-lt AscException.data_too_long = omega arith
error_code-lt AscException.checksum_problem = omega arith
error_code-lt AscException.invalid_frame = omega arith
error_code-lt AscException.invalid_frame_period = omega arith
error_code-lt AscException.not_hex_char = omega arith
error_code-lt AscException.command_not_implemented = omega arith
error_code-lt AscException.unexpected_command = omega arith
error_code-lt AscException.data_too_short = omega arith
error_code-lt AscException.reg_block_null = omega arith
error_code-lt AscException.regnum_oob = omega arith
error_code-lt AscException.regval_len = omega arith
error_code-lt AscException.cb_oob = omega arith
error_code-lt AscException.cb_pop_empty = omega arith
error_code-lt AscException.cb_bad_capacity = omega arith
error_code-lt AscException.file_read = omega arith
error_code-lt AscException.file_write = omega arith

module _ {v a c : ℕ} {payload : List ℕ} (s : IsSendable v a c payload) (error : AscException) where
  pub error_data-IsSendable : IsSendable v a b'e' (error_data c error payload)
  error_data-IsSendable = record {
    bytes = (
      omega arith,
      (
        s.bytes.1.0,
        (
          s.bytes.1.1.0,
          (
            omega arith,
            (
              (avoids 1).3,
              (
                (avoids 0).3,
                (
                  omega arith,
                  (s.bytes.1.1.1.0, (omega arith, IsBytes-take 9 payload s.bytes.1.1.1.1)),
                ),
              ),
            ),
          ),
        ),
      ),
    );
    no_start = without b'>' s.no_start (omega arith) (avoids 1).0 (avoids 0).0 (omega arith);
    no_period = without b'.' s.no_period (omega arith) (avoids 1).1 (avoids 0).1 (omega arith);
    no_newline = without 0x0a s.no_newline (omega arith) (avoids 1).2 (avoids 0).2 (omega arith);
  }
    where
      avoids :
          (k : ℕ)
          → (digit (error_code error) k true ≢ b'>')
            × (digit (error_code error) k true ≢ b'.')
            × (digit (error_code error) k true ≢ 0x0a)
            × (digit (error_code error) k true < 256)
      avoids k = nibble_char_avoids _ true (omega arith)

      without :
          (x : ℕ)
          → Absent x (v ∷ a ∷ c ∷ payload)
          → b'e' ≢ x
          → digit (error_code error) 1 true ≢ x
          → digit (error_code error) 0 true ≢ x
          → b',' ≢ x
          → Absent x (v ∷ a ∷ b'e' ∷ error_data c error payload)
      without x h e d_1 d_0 comma = (
        h.0,
        (h.1.0, (e, (d_1, (d_0, (comma, (h.1.1.0, (comma, Absent-take x 9 payload h.1.1.1))))))),
      )

  headed : List ℕ
  headed =
      digit (error_code error) 1 true
      ∷ digit (error_code error) 0 true
      ∷ b','
      ∷ c
      ∷ b','
      ∷ replicate 9 0

  taken-lt : length (take 9 payload) ≤ 9
  taken-lt = omega (arith, length-take {0} 9 payload)

  headed-Reads : Reads (fill headed 5 (take 9 payload)) 0 (error_data c error payload)
  unfolding headed
  headed-Reads = (
    kept 0 (omega arith),
    (
      kept 1 (omega arith),
      (
        kept 2 (omega arith),
        (
          kept 3 (omega arith),
          (kept 4 (omega arith), fill-Reads (take 9 payload) headed 5 (omega (arith, taken-lt))),
        ),
      ),
    ),
  )
    where
      kept : (j : ℕ) → j < 5 → get_elem? (fill headed 5 (take 9 payload)) j ≡ get_elem? headed j
      kept j h = fill_below (take 9 payload) headed 5 j (omega (arith, taken-lt)) h

  -- The array before the data is copied.
  headed_lem :
      set
        (set
          (set (convert_uint8_to_hex (u8 (error_code error)) 0 true (replicate 14 0)) 2 b',')
          3
          c)
        4
        b','
      ≡ headed
  unfolding headed
  headed_lem =
      ap (λ l. set (set (set l 2 b',') 3 c) 4 b',')
        (ap (λ n. convert_uint8_to_hex n 0 true (replicate 14 0)) small
          ∙ convert_uint8_put (error_code error) 0 (replicate 14 0) (error_code-lt error))
    where
      small : u8 (error_code error) ≡ error_code error
      small = omega (arith, error_code-lt error)

  copied_lem : (if ltb (length payload) 9 then length payload else 9) ≡ length (take 9 payload)
  copied_lem = ground (arith, length-take {0} 9 payload)

  module _ (bytes : List ℕ) (asc : Asc) (reads : Reads bytes 0 payload) where
    put_error-put_message :
        put_error_in_output_buffer v a c bytes (length payload) error asc
        ≡ put_message_in_output_buffer v a b'e'
            (fill headed 5 (take 9 payload))
            (length (error_data c error payload))
            asc
    unfolding put_error_in_output_buffer
    put_error-put_message =
        rw (headed_lem, copied_lem, copied)
          (ap (λ n. put_message_in_output_buffer v a b'e' (fill headed 5 (take 9 payload)) n asc)
            (omega arith))
      where
        copied :
            copy_payload (length (take 9 payload)) 0 5 bytes headed
            ≡ some (fill headed 5 (take 9 payload))
        copied =
            copy_payload-fill (take 9 payload) bytes headed 0 5 (Reads-take 9 bytes 0 payload reads)

    pub put_error-Sent :
        {pre : List ℕ} {start : ℕ}
        → HoldsAt max_message_len start pre asc.out_buf
        → length pre + min 9 (length payload) + 15 ≤ max_message_len
        → start + length pre ≤ max_message_len
        → Sent v a b'e'
            (error_data c error payload)
            pre
            start
            asc
            (put_error_in_output_buffer v a c bytes (length payload) error asc)
    put_error-Sent {pre} {start} h fits before =
        subst (Sent v a b'e' (error_data c error payload) pre start asc) (sym put_error-put_message)
          (put_message-Sent error_data-IsSendable (fill headed 5 (take 9 payload)) asc h
            headed-Reads (omega (arith, length-take {0} 9 payload)) before)
