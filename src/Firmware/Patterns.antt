-- ===== src/Firmware/Patterns.antt =====
-- Programs that need no device: avr/arduino_uno_cb_loopback.c, one ring between the two ends of a
-- UART; avr/arduino_uno_asc_write_pattern_to_serial.c, an 's' message again and again;
-- avr/arduino_uno_write_message_to_serial.c, the characters of one message; and
-- avr/arduino_uno_write_pattern_to_serial.c and arm/stm32f091nucleo64_write_pattern_to_serial.c, the
-- ten digits. A blocking transmission is one step.
use ascii_serial_com_c.Prelude.{
  ℕ, zero, suc, ◌+◌, List, [], ◌∷◌, Option, none, some, ◌==◌, ltb, leb, if◌then◌else◌, u8, get_or,
  set, Outcome, M, ◌>>=◌, ◌>>◌, gets, modify, when, ok, throw, fault, error_code,
}
use ascii_serial_com_c.CircularBuffer
use ascii_serial_com_c.CircularBuffer.{is_empty}
use ascii_serial_com_c.Asc
use ascii_serial_com_c.Asc.{Asc, set_ignore_crc_mismatch, put_s_message_in_output_buffer}
use ascii_serial_com_c.Device.Polling.{Transmitter, uart_rx_to_circ_buf, uart_tx_from_circ_buf}
use ascii_serial_com_c.Firmware.{Round, Counted, run}

-- The ring's program: a byte in, a byte out.
unfoldable pub cb_loop_body : Round → M Transmitter (Unit {0})
unfolding uart_rx_to_circ_buf uart_tx_from_circ_buf
cb_loop_body round = do
  modify λ t. record t { circ_buf = uart_rx_to_circ_buf round.received t.circ_buf }
  uart_tx_from_circ_buf round.tx_ready

-- An exception is returned from main.
abbrev or_return :
    {S : Type 0} → Outcome (Unit {0}) × S → (S → Outcome (Option ℕ) × S) → Outcome (Option ℕ) × S
or_return (ok tt, s) next = next s
or_return (throw e, s) next = (ok (some (error_code e)), s)
or_return (fault, s) next = (fault, s)

unfoldable pub cb_loop : List Round → M Transmitter (Option ℕ)
unfolding cb_loop_body
cb_loop [] t = (ok none, t)
cb_loop (round ∷ rounds) t = or_return (cb_loop_body round t) (cb_loop rounds)

unfoldable pub cb_main : List ℕ → List Round → M Transmitter (Option ℕ)
unfolding cb_loop
cb_main raw_buffer rounds t =
    let (r, cb) = CircularBuffer.init 64 raw_buffer t.circ_buf in
    or_return (r, record t { circ_buf = cb }) (cb_loop rounds)

-- The 's' messages' program.
pub record Writer : Type 0 where
  pub asc : Asc
  pub bytes : List ℕ
  pub sent : List ℕ

abbrev with_asc : Writer → {A : Type 0} → Outcome A × Asc → Outcome A × Writer
with_asc p (r, asc) = (r, record p { asc = asc })

abbrev with_transmitter : Writer → {A : Type 0} → Outcome A × Transmitter → Outcome A × Writer
with_transmitter p (r, t) =
    (r, record p { sent = t.sent; asc = record (p.asc) { out_buf = t.circ_buf } })

-- `if (dataBuffer[0] == '9') dataBuffer[0] = '0'; else dataBuffer[0]++;`
unfoldable pub next_digit : List ℕ → List ℕ
next_digit bytes =
    if get_or bytes 0 0 == b'9' then set bytes 0 b'0' else set bytes 0 (u8 (get_or bytes 0 0 + 1))

unfoldable pub asc_loop_body : Round → M Writer (Unit {0})
unfolding next_digit uart_tx_from_circ_buf
asc_loop_body round = do
  empty ← gets (λ p. is_empty p.asc.out_buf)
  when empty (do
    λ p. with_asc p (put_s_message_in_output_buffer b'0' b'0' p.bytes 2 p.asc)
    modify λ p. record p { bytes = next_digit p.bytes })
  λ p.
      with_transmitter p
        (uart_tx_from_circ_buf round.tx_ready (record { sent = p.sent; circ_buf = p.asc.out_buf }))

unfoldable pub asc_setup : List ℕ → M Writer (Unit {0})
unfolding set_ignore_crc_mismatch
asc_setup raw_buffer = do
  λ p. with_asc p (Asc.init raw_buffer p.asc)
  modify
      λ p. record p { asc = set_ignore_crc_mismatch p.asc; bytes = set (set p.bytes 0 b'0') 1 b'0' }

unfoldable pub asc_main : List ℕ → List Round → M (Counted Writer) (Option ℕ)
unfolding asc_setup asc_loop_body run
asc_main raw_buffer rounds = run (asc_setup raw_buffer) asc_loop_body rounds

-- ">00s0 0 0 0.DE10\n"
abbrev pub message : List ℕ
message =
    b'>' ∷ b'0' ∷ b'0' ∷ b's' ∷ b'0' ∷ b' ' ∷ b'0' ∷ b' ' ∷ b'0' ∷ b' ' ∷ b'0' ∷ b'.' ∷ b'D' ∷ b'E'
    ∷ b'1' ∷ b'0' ∷ 0x0a ∷ []

abbrev pub message_len : ℕ
message_len = 17

-- The characters that so many rounds of the loop send from index `i_char` on.
unfoldable pub message_loop : ℕ → ℕ → List ℕ
message_loop zero i_char = []
message_loop (suc rounds) i_char =
    let next = u8 (i_char + 1) in
    get_or message i_char 0 ∷ message_loop rounds (if next == message_len then 0 else next)

-- The same for the digits, from `byte` on the Arduino and from `counter` on the STM32.
unfoldable pub avr_digits_loop : ℕ → ℕ → List ℕ
avr_digits_loop zero byte = []
avr_digits_loop (suc rounds) byte =
    let next = u8 (byte + 1) in byte ∷ avr_digits_loop rounds (if ltb 57 next then 48 else next)

unfoldable pub arm_digits_loop : ℕ → ℕ → List ℕ
arm_digits_loop zero counter = []
arm_digits_loop (suc rounds) counter =
    (b'0' + counter) ∷ arm_digits_loop rounds (if leb 9 counter then 0 else u8 (counter + 1))
