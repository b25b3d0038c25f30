-- ===== src/Firmware/AdcStreaming.antt =====
-- arm/stm32f091nucleo64_adc_streaming.c: a stream of samples, or of a counter, with registers of
-- four bytes behind pointers. The registers' addresses are arguments; what the program tells the
-- converters is recorded.
use ascii_serial_com_c.Prelude.{
  ℕ, ◌+◌, ◌-◌, ◌^◌, ◌/◌, Bool, true, not, List, [], ◌∷◌, ◌++◌, Option, some, ◌==◌, ◌&&◌, bit_and,
  if◌then◌else◌, drop, replicate, u32, Outcome, M, ◌>>=◌, ◌>>◌, gets, modify, when, ok,
}
use ascii_serial_com_c.Hex.{convert_uint16_to_hex, convert_uint32_to_hex}
use ascii_serial_com_c.MillisecTimer.{MillisecTimer, set_rel, is_expired, is_expired_repeat}
use ascii_serial_com_c.Registers.{RegWidth}
use ascii_serial_com_c.Registers.Pointers.{store, RegisterPointers}
use ascii_serial_com_c.Device.Polling
use ascii_serial_com_c.Device.Polling.{
  Polled, uart_rx_to_circ_buf, handle_asc_comm_in_polling_loop, ready_to_stream, stream_to_host,
}
use ascii_serial_com_c.Firmware.{Counted, run}

-- Where the registers and the variables stand.
pub record Addresses : Type 0 where
  pub gpioa_idr : ℕ
  pub gpioa_odr : ℕ
  pub option_flags : ℕ
  pub dac_dhr12r1 : ℕ
  pub dac_dhr12r2 : ℕ
  pub millisec_timer_now : ℕ
  pub adc_sample_period_ms : ℕ
  pub adc_n_overruns : ℕ
  pub tim_arr : ℕ
  pub dac_cr : ℕ

abbrev pub n_regs : ℕ
n_regs = 10

abbrev pub dac_reset_time_ms : ℕ
dac_reset_time_ms = 500

abbrev pub register_write_masks : List ℕ
register_write_masks = 0 ∷ 0x20 ∷ 0xffffffff ∷ 0xfff ∷ 0 ∷ 0 ∷ 0xffffffff ∷ 0 ∷ 0xffff ∷ 0xfc0 ∷ []

pub data Action : Type 0 where
  dac_disable dac_enable adc_start_conversion : Action
  adc_clear_overrun adc_clear_end_of_sequence : Action

-- The hardware in a round: the UART, what it leaves in the registers, and the converter's flags
-- and value.
pub record Round : Type 0 where
  pub received : Option ℕ
  pub tx_ready : Bool
  pub hardware : (ℕ → ℕ) → ℕ → ℕ
  pub end_of_sequence : Bool
  pub overrun : Bool
  pub adc_val : ℕ

-- The static variables that stand in no register.
pub record Program : Type 0 where
  pub polled : Polled
  pub adc_timer : MillisecTimer
  pub dac_reset_timer : MillisecTimer
  pub counter : ℕ
  pub actions : List Action

abbrev with_polled : Program → {A : Type 0} → Outcome A × Polled → Outcome A × Program
with_polled p (r, polled) = (r, record p { polled = polled })

abbrev on_polled : {A : Type 0} → M Polled A → M Program A
on_polled m p = with_polled p (m p.polled)

abbrev act : Action → M Program (Unit {0})
act action = modify λ p. record p { actions = p.actions ++ (action ∷ []) }

-- Reading and writing a register or a variable.
abbrev value : ℕ → Program → ℕ
value address p = p.polled.ascd.config.state_rw.memory address

abbrev with_memory : ((ℕ → ℕ) → ℕ → ℕ) → Program → Program
with_memory f p = record p {
  polled = record (p.polled) {
    ascd = record (p.polled.ascd) {
      config = record (p.polled.ascd.config) {
        state_rw = record (p.polled.ascd.config.state_rw) {
          memory = f p.polled.ascd.config.state_rw.memory;
        };
      };
    };
  };
}

abbrev assign : ℕ → ℕ → M Program (Unit {0})
assign address x = modify (with_memory (λ memory. store memory address x))

abbrev with_adc_timer : Program → Bool × MillisecTimer → Outcome Bool × Program
with_adc_timer p (expired, timer) = (ok expired, record p { adc_timer = timer })

abbrev with_dac_timer : Program → Bool × MillisecTimer → Outcome Bool × Program
with_dac_timer p (expired, timer) = (ok expired, record p { dac_reset_timer = timer })

abbrev is_streaming : Program → Bool
is_streaming p = p.polled.ascd.config.state_nf

module _ (at : Addresses) where
  abbrev pub register_map : List (Option ℕ)
  register_map =
      some at.gpioa_idr
      ∷ some at.gpioa_odr
      ∷ some at.option_flags
      ∷ some at.dac_dhr12r1
      ∷ some at.dac_dhr12r2
      ∷ some at.millisec_timer_now
      ∷ some at.adc_sample_period_ms
      ∷ some at.adc_n_overruns
      ∷ some at.tim_arr
      ∷ some at.dac_cr
      ∷ []

  abbrev now : Program → ℕ
  now p = value at.millisec_timer_now p

  -- `optionFlags & 1`
  abbrev streams_counter : Program → Bool
  streams_counter p = not (bit_and (value at.option_flags p) 1 == 0)

  -- Streaming has just begun: the timer starts.
  unfoldable pub start_adc_timer : M Program (Unit {0})
  start_adc_timer =
      modify
        λ p. record p { adc_timer = set_rel (now p) (value at.adc_sample_period_ms p) p.adc_timer }

  -- The option flag for a reset of the DAC, which is enabled again when the timer has expired.
  unfoldable pub reset_dac : M Program (Unit {0})
  reset_dac = do
    flags ← gets (value at.option_flags)
    when (not (bit_and (flags / 2) 1 == 0)) (do
      act Action.dac_disable
      assign at.option_flags (bit_and flags (2 ^ 32 - 1 - 2))
      modify
          λ p. record p { dac_reset_timer = set_rel (now p) dac_reset_time_ms p.dac_reset_timer })
    expired ← λ p. with_dac_timer p (is_expired (now p) p.dac_reset_timer)
    when expired (act Action.dac_enable)

  -- `streaming_is_on && !(optionFlags & 1) && millisec_timer_is_expired_repeat(...)`
  unfoldable pub start_conversion : M Program (Unit {0})
  start_conversion = do
    due ← gets (λ p. is_streaming p && not (streams_counter p))
    when due (do
      expired ← λ p. with_adc_timer p (is_expired_repeat (now p) p.adc_timer)
      when expired (act Action.adc_start_conversion))

  unfoldable pub stream_counter : M Program (Unit {0})
  stream_counter = do
    counter ← gets (λ p. p.counter)
    on_polled (stream_to_host (convert_uint32_to_hex counter 0 true (replicate 8 0)) 8)
    modify λ p. record p { counter = u32 (p.counter + 1) }

  unfoldable pub stream_sample : Round → M Program (Unit {0})
  stream_sample round = when round.end_of_sequence (do
    when round.overrun (do
      n ← gets (value at.adc_n_overruns)
      assign at.adc_n_overruns (u32 (n + 1))
      act Action.adc_clear_overrun)
    act Action.adc_clear_end_of_sequence
    on_polled
        (stream_to_host (drop 1 (convert_uint16_to_hex round.adc_val 0 true (replicate 4 0))) 3))

  unfoldable pub loop_body : Round → M Program (Unit {0})
  unfolding start_adc_timer reset_dac start_conversion stream_counter stream_sample
  loop_body round = do
    modify (with_memory round.hardware)
    modify λ p. record p {
      polled = record (p.polled) {
        extra_input_buffer = uart_rx_to_circ_buf round.received p.polled.extra_input_buffer;
      };
    }
    before ← gets is_streaming
    on_polled (handle_asc_comm_in_polling_loop round.tx_ready)
    after ← gets is_streaming
    when (after && not before) start_adc_timer
    reset_dac
    start_conversion
    ready ← gets (λ p. ready_to_stream p.polled)
    when ready
        (do counts ← gets streams_counter; if counts then stream_counter else stream_sample round)

  unfoldable pub main :
      (ℕ → ℕ) → List ℕ → List ℕ → RegisterPointers → List Round → M (Counted Program) (Option ℕ)
  unfolding loop_body run
  main memory raw_buffer extra_raw uninitialized rounds =
      run
        (on_polled (
          Polling.setup RegWidth.four register_map register_write_masks n_regs memory raw_buffer
            extra_raw uninitialized))
        loop_body rounds
