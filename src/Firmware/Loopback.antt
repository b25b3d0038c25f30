-- ===== src/Firmware/Loopback.antt =====
-- arm/stm32f091nucleo64_asc_loopback.c and avr/arduino_uno_asc_loopback.c: each message that a UART
-- brings is sent back; a '?' makes the second print its two buffers to the UART.
use ascii_serial_com_c.Prelude.{
  ℕ, Bool, zero, suc, ◌+◌, not, List, [], ◌∷◌, ◌++◌, Option, ◌==◌, if◌then◌else◌, get_or, decimal,
  Outcome, M, ◌>>=◌, ◌>>◌, pure, gets, modify, when, ok,
}
use ascii_serial_com_c.CircularBuffer
use ascii_serial_com_c.CircularBuffer.{
  CircularBuffer, is_empty, get_size, get_element, push_back, pop_front,
}
use ascii_serial_com_c.Asc
use ascii_serial_com_c.Asc.{Asc, set_ignore_crc_mismatch}
use ascii_serial_com_c.Asc.Receive.{Receiver, on_asc, on_input}
use ascii_serial_com_c.Echo.{echo}
use ascii_serial_com_c.Device.Polling.{Transmitter, uart_rx_to_circ_buf, uart_tx_from_circ_buf}
use ascii_serial_com_c.Firmware.{Round, Counted, run}

-- The interface with the variables for a message, the ring of the interrupt, and what was sent.
pub record Loopback : Type 0 where
  pub rx : Receiver
  pub extra_input_buffer : CircularBuffer
  pub sent : List ℕ

abbrev with_rx : Loopback → {A : Type 0} → Outcome A × Receiver → Outcome A × Loopback
with_rx p (r, rx) = (r, record p { rx = rx })

abbrev pub on_rx : {A : Type 0} → M Receiver A → M Loopback A
on_rx m p = with_rx p (m p.rx)

abbrev with_extra : Loopback → {A : Type 0} → Outcome A × CircularBuffer → Outcome A × Loopback
with_extra p (r, cb) = (r, record p { extra_input_buffer = cb })

abbrev pub on_extra : {A : Type 0} → M CircularBuffer A → M Loopback A
on_extra m p = with_extra p (m p.extra_input_buffer)

abbrev with_transmitter : Loopback → {A : Type 0} → Outcome A × Transmitter → Outcome A × Loopback
with_transmitter p (r, t) = (
  r,
  record p {
    sent = t.sent;
    rx = record (p.rx) { asc = record (p.rx.asc) { out_buf = t.circ_buf } };
  },
)

-- A byte from the output buffer to the UART.
unfoldable pub transmit : Bool → M Loopback (Unit {0})
unfolding uart_tx_from_circ_buf
transmit tx_ready p =
    with_transmitter p
      (uart_tx_from_circ_buf tx_ready (record { sent = p.sent; circ_buf = p.rx.asc.out_buf }))

-- The Try block before the loop.
unfoldable pub setup : List ℕ → List ℕ → M Loopback (Unit {0})
unfolding set_ignore_crc_mismatch
setup raw_buffer extra_raw = do
  on_rx (on_asc (Asc.init raw_buffer))
  modify λ p. record p { rx = record (p.rx) { asc = set_ignore_crc_mismatch p.rx.asc } }
  on_extra (CircularBuffer.init 64 extra_raw)

unfoldable pub receive_interrupt : Option ℕ → M Loopback (Unit {0})
unfolding uart_rx_to_circ_buf
receive_interrupt received =
    modify λ p. record p { extra_input_buffer = uart_rx_to_circ_buf received p.extra_input_buffer }

abbrev push_input : ℕ → M Loopback (Unit {0})
push_input byte = on_rx (on_input (modify (push_back byte)))

-- With `take` for the byte that leaves extraInputBuffer.
abbrev take_byte : (ℕ → M Loopback (Unit {0})) → M Loopback (Unit {0})
take_byte take = do
  empty ← gets (λ p. is_empty p.extra_input_buffer)
  when (not empty) (do byte ← on_extra pop_front; take byte)

-- The main loop's Try block on the STM32.
unfoldable pub arm_loop_body : Round → M Loopback (Unit {0})
unfolding receive_interrupt transmit
arm_loop_body round = do
  receive_interrupt round.received
  take_byte push_input
  on_rx echo
  transmit round.tx_ready

unfoldable pub arm_main : List ℕ → List ℕ → List Round → M (Counted Loopback) (Option ℕ)
unfolding setup arm_loop_body run
arm_main raw_buffer extra_raw rounds = run (setup raw_buffer extra_raw) arm_loop_body rounds

-- `'\n'` is printed as a backslash and an n.
abbrev escaped : ℕ → List ℕ
escaped el = if el == 0x0a then 0x5c ∷ b'n' ∷ [] else el ∷ []

-- The loop over the elements, `left` rounds to go from `i` on; the text in front is `text`.
unfoldable pub print_elements : ℕ → ℕ → List ℕ → M CircularBuffer (List ℕ)
print_elements zero i text cb = (ok text, cb)
print_elements (suc left) i text cb =
    (do el ← get_element i; print_elements left (i + 1) (text ++ escaped el)) cb

-- The loop over the storage.
unfoldable pub print_storage : ℕ → ℕ → List ℕ → List ℕ
print_storage zero i buffer = []
print_storage (suc left) i buffer = escaped (get_or buffer i 0) ++ print_storage left (i + 1) buffer

-- The mark under a place of the storage.
unfoldable pub mark : CircularBuffer → ℕ → ℕ
mark cb i =
    if cb.i_start == cb.i_stop
    then (if i == cb.i_start then b'X' else b' ')
    else if i == cb.i_start
    then b'>'
    else if i == cb.i_stop
    then b'<'
    else b' '

unfoldable pub print_marks : ℕ → ℕ → CircularBuffer → List ℕ
unfolding mark
print_marks zero i cb = []
print_marks (suc left) i cb = mark cb i ∷ print_marks left (i + 1) cb

-- The text that print_buffer gives to printf.
unfoldable pub print_buffer : List ℕ → M CircularBuffer (List ℕ)
unfolding print_elements print_storage print_marks decimal
print_buffer title = do
  sz ← gets get_size
  let head = title ++ (0x0a ∷ b' ' ∷ b' ' ∷ b's' ∷ b'i' ∷ b'z' ∷ b'e' ∷ b':' ∷ b' ' ∷ [])
  text ← print_elements sz 0 (head ++ (decimal sz ++ (0x0a ∷ b' ' ∷ b' ' ∷ [])))
  storage ← gets (λ cb. print_storage cb.capacity 0 cb.buffer)
  marks ← gets (λ cb. print_marks cb.capacity 0 cb)
  pure (text ++ (0x0a ∷ b' ' ∷ b' ' ∷ (storage ++ (0x0a ∷ b' ' ∷ b' ' ∷ (marks ++ (0x0a ∷ []))))))

-- stdout is the UART: uart_putchar writes each character to it.
unfoldable pub uart_put_text : List ℕ → M Loopback (Unit {0})
uart_put_text text = modify λ p. record p { sent = p.sent ++ text }

abbrev with_out : Loopback → {A : Type 0} → Outcome A × CircularBuffer → Outcome A × Loopback
with_out p (r, cb) =
    (r, record p { rx = record (p.rx) { asc = record (p.rx.asc) { out_buf = cb } } })

-- A '?' prints the buffers, any other byte goes into the input buffer.
unfoldable pub avr_take : ℕ → M Loopback (Unit {0})
unfolding uart_put_text print_buffer
avr_take byte =
    if byte == 0x3f
    then (do
      in_text ← on_rx (on_input (print_buffer (b'i' ∷ b'n' ∷ [])))
      uart_put_text in_text
      out_text ← λ p. with_out p (print_buffer (b'o' ∷ b'u' ∷ b't' ∷ []) p.rx.asc.out_buf)
      uart_put_text out_text)
    else push_input byte

-- The main loop's Try block on the Arduino.
unfoldable pub avr_loop_body : Round → M Loopback (Unit {0})
unfolding receive_interrupt transmit avr_take
avr_loop_body round = do
  receive_interrupt round.received
  take_byte avr_take
  on_rx echo
  transmit round.tx_ready

unfoldable pub avr_main : List ℕ → List ℕ → List Round → M (Counted Loopback) (Option ℕ)
unfolding setup avr_loop_body run
avr_main raw_buffer extra_raw rounds = do
  modify λ c. record c { n_exceptions = 0 }
  run (setup raw_buffer extra_raw) avr_loop_body rounds
