-- ===== src/Firmware.antt =====
-- What the programs in arm/, avr/ and riscv/ share: a main loop that counts its exceptions, and a
-- device between two rings and a UART.
-- The hardware answers each round: the byte that the receive interrupt took, if one did, and
-- whether the UART can take a byte. The interrupt writes to extraInputBuffer alone, from which the
-- loop takes a byte in an atomic block, so it is taken before the round. The setup of clocks, pins,
-- timers and converters is left out, as are the texts for debugging.
pub mod Invariant
pub mod RegisterBlock
pub mod RegisterPointers
pub mod TestDevice
pub mod Loopback
pub mod Patterns
pub mod Pulser
pub mod AdcStreaming
pub mod AvrAdcStreaming
pub mod Neorv32
use ascii_serial_com_c.Prelude.{
  ℕ, ◌+◌, not, List, [], ◌∷◌, Option, none, some, Outcome, M, ◌>>=◌, ◌>>◌, pure, gets, modify, when,
  ok, throw, fault, u16, error_code, Bool,
}
use ascii_serial_com_c.CircularBuffer
use ascii_serial_com_c.CircularBuffer.{CircularBuffer, is_empty, push_back, pop_front}
use ascii_serial_com_c.Device
use ascii_serial_com_c.Device.{Device, DeviceConfig}
use ascii_serial_com_c.Device.Polling.{Transmitter, uart_rx_to_circ_buf, uart_tx_from_circ_buf}

-- What the hardware does in a round.
pub record Round : Type 0 where
  pub received : Option ℕ
  pub tx_ready : Bool

-- A program with its exception counter, a uint16_t.
pub record Counted (S : Type 0) : Type 0 where
  pub program : S
  pub n_exceptions : ℕ

module _ {S : Type 0} where
  -- `Catch(e) { nExceptions++; }`
  abbrev pub count_exception : ℕ → Outcome (Unit {0}) × S → Outcome (Unit {0}) × Counted S
  count_exception n (ok tt, s) = (ok tt, record { program = s; n_exceptions = n })
  count_exception n (throw e, s) = (ok tt, record { program = s; n_exceptions = u16 (n + 1) })
  count_exception n (fault, s) = (fault, record { program = s; n_exceptions = n })

  abbrev pub counted : M S (Unit {0}) → M (Counted S) (Unit {0})
  counted m c = count_exception c.n_exceptions (m c.program)

  -- `while (1) { Try { body } Catch(e) { nExceptions++; } }`
  unfoldable pub main_loop : {R : Type 0} → (R → M S (Unit {0})) → List R → M (Counted S) (Unit {0})
  main_loop body [] = pure tt
  main_loop body (round ∷ rounds) = do counted (body round); main_loop body rounds

  -- `Catch(e) { return e; }` after the setup: the exception's number is the result.
  after_setup :
      {R : Type 0}
      → (R → M S (Unit {0}))
      → List R
      → ℕ
      → Outcome (Unit {0}) × S
      → Outcome (Option ℕ) × Counted S
  unfolding main_loop
  after_setup body rounds n (ok tt, s) =
      (do main_loop body rounds; pure none) (record { program = s; n_exceptions = n })
  after_setup body rounds n (throw e, s) =
      (ok (some (error_code e)), record { program = s; n_exceptions = n })
  after_setup body rounds n (fault, s) = (fault, record { program = s; n_exceptions = n })

  -- main: `none` for a program that runs on after these rounds.
  unfoldable pub run :
      {R : Type 0} → M S (Unit {0}) → (R → M S (Unit {0})) → List R → M (Counted S) (Option ℕ)
  unfolding after_setup
  run setup body rounds c = after_setup body rounds c.n_exceptions (setup c.program)

-- A device, the ring that the interrupt fills, and the bytes given to the UART.
pub record Station (Rw Nf : Type 0) : Type 0 where
  pub ascd : Device Rw (Unit {0}) Nf
  pub extra_input_buffer : CircularBuffer
  pub sent : List ℕ

module _ {Rw Nf : Type 0} where
  abbrev with_ascd :
      Station Rw Nf → {A : Type 0} → Outcome A × Device Rw (Unit {0}) Nf → Outcome A × Station Rw Nf
  with_ascd s (r, ascd) = (r, record s { ascd = ascd })

  abbrev pub on_ascd : {A : Type 0} → M (Device Rw (Unit {0}) Nf) A → M (Station Rw Nf) A
  on_ascd m s = with_ascd s (m s.ascd)

  abbrev with_extra :
      Station Rw Nf → {A : Type 0} → Outcome A × CircularBuffer → Outcome A × Station Rw Nf
  with_extra s (r, cb) = (r, record s { extra_input_buffer = cb })

  abbrev pub on_extra : {A : Type 0} → M CircularBuffer A → M (Station Rw Nf) A
  on_extra m s = with_extra s (m s.extra_input_buffer)

  abbrev with_transmitter :
      Station Rw Nf → {A : Type 0} → Outcome A × Transmitter → Outcome A × Station Rw Nf
  with_transmitter s (r, t) = (
    r,
    record s {
      sent = t.sent;
      ascd = record (s.ascd) { asc = record (s.ascd.asc) { out_buf = t.circ_buf } };
    },
  )

  abbrev pub on_transmitter : {A : Type 0} → M Transmitter A → M (Station Rw Nf) A
  on_transmitter m s =
      with_transmitter s (m (record { sent = s.sent; circ_buf = s.ascd.asc.out_buf }))

  -- ISR(USART_RX_vect)
  unfoldable pub receive_interrupt : Option ℕ → M (Station Rw Nf) (Unit {0})
  unfolding uart_rx_to_circ_buf
  receive_interrupt received =
      modify
        λ s. record s { extra_input_buffer = uart_rx_to_circ_buf received s.extra_input_buffer }

  -- A byte from extraInputBuffer to asc_in_buf, if there is one.
  unfoldable pub move_byte : M (Station Rw Nf) (Unit {0})
  move_byte = do
    empty ← gets (λ s. is_empty s.extra_input_buffer)
    when (not empty) (do
      byte ← on_extra pop_front
      modify λ s. record s {
        ascd = record (s.ascd) {
          asc = record (s.ascd.asc) { in_buf = push_back byte s.ascd.asc.in_buf };
        };
      })

  -- The Try block before the loop, on the memory of the rings.
  unfoldable pub setup :
      List ℕ → DeviceConfig Rw (Unit {0}) Nf → List ℕ → M (Station Rw Nf) (Unit {0})
  setup raw_buffer config extra_raw = do
    on_ascd (Device.init raw_buffer config)
    on_extra (CircularBuffer.init 64 extra_raw)

  -- The Try block of a main loop: a byte in, a message handled, a byte out.
  unfoldable pub exchange : Bool → M (Station Rw Nf) (Unit {0})
  unfolding move_byte
  exchange tx_ready = do
    move_byte
    on_ascd Device.receive
    on_transmitter (uart_tx_from_circ_buf tx_ready)
