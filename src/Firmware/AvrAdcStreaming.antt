-- ===== src/Firmware/AvrAdcStreaming.antt =====
-- avr/arduino_uno_adc_streaming.c: a stream of samples, with registers of one byte behind pointers.
-- Two variables of four bytes are seen by the registers byte by byte. The addresses are arguments.
use ascii_serial_com_c.Prelude.{
  ℕ, ◌+◌, ◌*◌, Bool, true, false, not, List, [], ◌∷◌, Option, some, ◌&&◌, drop, replicate, Outcome,
  M, ◌>>=◌, ◌>>◌, gets, modify, when, ok,
}
use ascii_serial_com_c.Hex.{convert_uint16_to_hex}
use ascii_serial_com_c.MillisecTimer.{MillisecTimer, set_rel, is_expired_repeat}
use ascii_serial_com_c.Registers.{RegWidth}
use ascii_serial_com_c.Registers.Pointers.{RegisterPointers}
use ascii_serial_com_c.Device.Polling
use ascii_serial_com_c.Device.Polling.{
  Polled, uart_rx_to_circ_buf, handle_asc_comm_in_polling_loop, ready_to_stream, stream_to_host,
}
use ascii_serial_com_c.Firmware.{Counted, run}

-- Where the registers and the first bytes of the variables stand.
pub record Addresses : Type 0 where
  pub port_b : ℕ
  pub admux : ℕ
  pub adc_sample_period_ms : ℕ
  pub millisec_timer_now : ℕ

abbrev pub n_regs : ℕ
n_regs = 10

abbrev pub register_write_masks : List ℕ
register_write_masks = 0x20 ∷ 0x0f ∷ 0xff ∷ 0xff ∷ 0xff ∷ 0xff ∷ 0 ∷ 0 ∷ 0 ∷ 0 ∷ []

-- The hardware in a round: the UART, what it leaves in the registers, and the converter's flag for
-- the end of a conversion and its value.
pub record Round : Type 0 where
  pub received : Option ℕ
  pub tx_ready : Bool
  pub hardware : (ℕ → ℕ) → ℕ → ℕ
  pub have_finished_adc_conversion : Bool
  pub adc : ℕ

-- `conversions` counts the starts of the converter.
pub record Program : Type 0 where
  pub polled : Polled
  pub adc_timer : MillisecTimer
  pub have_started_adc_conversion : Bool
  pub conversions : ℕ

abbrev with_polled : Program → {A : Type 0} → Outcome A × Polled → Outcome A × Program
with_polled p (r, polled) = (r, record p { polled = polled })

abbrev on_polled : {A : Type 0} → M Polled A → M Program A
on_polled m p = with_polled p (m p.polled)

-- A variable of four bytes, the low one first.
abbrev value : ℕ → Program → ℕ
value address p =
    let byte = λ (i : ℕ). p.polled.ascd.config.state_rw.memory (address + i) in
    byte 0 + 0x100 * byte 1 + 0x10000 * byte 2 + 0x1000000 * byte 3

abbrev with_memory : ((ℕ → ℕ) → ℕ → ℕ) → Program → Program
with_memory f p = record p {
  polled = record (p.polled) {
    ascd = record (p.polled.ascd) {
      config = record (p.polled.ascd.config) {
        state_rw = record (p.polled.ascd.config.state_rw) {
          memory = f p.polled.ascd.config.state_rw.memory;
        };
      };
    };
  };
}

abbrev with_adc_timer : Program → Bool × MillisecTimer → Outcome Bool × Program
with_adc_timer p (expired, timer) = (ok expired, record p { adc_timer = timer })

abbrev is_streaming : Program → Bool
is_streaming p = p.polled.ascd.config.state_nf

module _ (at : Addresses) where
  abbrev pub register_map : List (Option ℕ)
  register_map =
      some at.port_b
      ∷ some at.admux
      ∷ some at.adc_sample_period_ms
      ∷ some (at.adc_sample_period_ms + 1)
      ∷ some (at.adc_sample_period_ms + 2)
      ∷ some (at.adc_sample_period_ms + 3)
      ∷ some at.millisec_timer_now
      ∷ some (at.millisec_timer_now + 1)
      ∷ some (at.millisec_timer_now + 2)
      ∷ some (at.millisec_timer_now + 3)
      ∷ []

  abbrev now : Program → ℕ
  now p = value at.millisec_timer_now p

  -- Streaming has just begun: the timer starts.
  unfoldable pub start_adc_timer : M Program (Unit {0})
  start_adc_timer =
      modify
        λ p. record p { adc_timer = set_rel (now p) (value at.adc_sample_period_ms p) p.adc_timer }

  -- `streaming_is_on && !have_started_ADC_conversion && millisec_timer_is_expired_repeat(...)`
  unfoldable pub start_conversion : M Program (Unit {0})
  start_conversion = do
    due ← gets (λ p. is_streaming p && not p.have_started_adc_conversion)
    when due (do
      expired ← λ p. with_adc_timer p (is_expired_repeat (now p) p.adc_timer)
      when expired (
          modify
            λ p. record p { have_started_adc_conversion = true; conversions = p.conversions + 1 }))

  unfoldable pub stream_sample : Round → M Program (Unit {0})
  stream_sample round = do
    ready ← gets (λ p.
        p.have_started_adc_conversion
        && round.have_finished_adc_conversion
        && ready_to_stream p.polled)
    when ready (do
      on_polled (stream_to_host (drop 1 (convert_uint16_to_hex round.adc 0 true (replicate 4 0))) 3)
      modify λ p. record p { have_started_adc_conversion = false })

  unfoldable pub loop_body : Round → M Program (Unit {0})
  unfolding start_adc_timer start_conversion stream_sample
  loop_body round = do
    modify (with_memory round.hardware)
    modify λ p. record p {
      polled = record (p.polled) {
        extra_input_buffer = uart_rx_to_circ_buf round.received p.polled.extra_input_buffer;
      };
    }
    before ← gets is_streaming
    on_polled (handle_asc_comm_in_polling_loop round.tx_ready)
    after ← gets is_streaming
    when (after && not before) start_adc_timer
    start_conversion
    stream_sample round

  unfoldable pub main :
      (ℕ → ℕ) → List ℕ → List ℕ → RegisterPointers → List Round → M (Counted Program) (Option ℕ)
  unfolding loop_body run
  main memory raw_buffer extra_raw uninitialized rounds = do
    modify λ c. record c { n_exceptions = 0 }
    run
        (on_polled (
          Polling.setup RegWidth.one register_map register_write_masks n_regs memory raw_buffer
            extra_raw uninitialized))
        loop_body rounds
