-- ===== src/Firmware/Pulser.antt =====
-- arm/stm32f091nucleo64_pulser.c: registers of four bytes behind pointers, some of which are the
-- program's variables, and pulses measured by a timer. The registers' addresses are arguments; the
-- clearing of the timer's flags is left out.
use ascii_serial_com_c.Prelude.{ℕ, Bool, List, [], ◌∷◌, Option, some, bit_or, M, ◌>>◌, modify, when}
use ascii_serial_com_c.Registers.{RegWidth}
use ascii_serial_com_c.Registers.Pointers.{store, RegisterPointers}
use ascii_serial_com_c.Device.Polling.{Polled, uart_rx_to_circ_buf, handle_asc_comm_in_polling_loop}
use ascii_serial_com_c.Device.Polling
use ascii_serial_com_c.Firmware.{Counted, run}

-- Where the registers and the variables stand.
pub record Addresses : Type 0 where
  pub gpioa_idr : ℕ
  pub gpioa_odr : ℕ
  pub option_flags : ℕ
  pub millisec_timer_now : ℕ
  pub tim_psc : ℕ
  pub tim_arr : ℕ
  pub tim_ccr1 : ℕ
  pub ic_period : ℕ
  pub ic_pulse_length : ℕ
  pub ic_overrun : ℕ

abbrev pub n_regs : ℕ
n_regs = 10

-- The hardware in a round: the UART, what it leaves in the registers, and the flags and the
-- capture registers of the timer for the input.
pub record Round : Type 0 where
  pub received : Option ℕ
  pub tx_ready : Bool
  pub hardware : (ℕ → ℕ) → ℕ → ℕ
  pub cc1if : Bool
  pub cc1of : Bool
  pub cc2of : Bool
  pub ccr1 : ℕ
  pub ccr2 : ℕ

abbrev pub register_write_masks : List ℕ
register_write_masks = 0 ∷ 0x20 ∷ 0xffffffff ∷ 0 ∷ 0xffff ∷ 0xffff ∷ 0xffff ∷ 0 ∷ 0 ∷ 0 ∷ []

-- The memory behind the pointers, changed by `f`.
abbrev pub with_memory : ((ℕ → ℕ) → ℕ → ℕ) → Polled → Polled
with_memory f p = record p {
  ascd = record (p.ascd) {
    config = record (p.ascd.config) {
      state_rw = record (p.ascd.config.state_rw) { memory = f p.ascd.config.state_rw.memory };
    };
  };
}

abbrev assign : ℕ → ℕ → M Polled (Unit {0})
assign address value = modify (with_memory (λ memory. store memory address value))

-- `variable |= value;`
abbrev or_assign : ℕ → ℕ → M Polled (Unit {0})
or_assign address value =
    modify (with_memory (λ memory. store memory address (bit_or (memory address) value)))

module _ (at : Addresses) where
  abbrev pub register_map : List (Option ℕ)
  register_map =
      some at.gpioa_idr
      ∷ some at.gpioa_odr
      ∷ some at.option_flags
      ∷ some at.millisec_timer_now
      ∷ some at.tim_psc
      ∷ some at.tim_arr
      ∷ some at.tim_ccr1
      ∷ some at.ic_period
      ∷ some at.ic_pulse_length
      ∷ some at.ic_overrun
      ∷ []

  -- A pulse has been measured.
  unfoldable pub capture : Round → M Polled (Unit {0})
  capture round = do
    assign at.ic_pulse_length round.ccr2
    assign at.ic_period round.ccr1
    assign at.ic_overrun 0
    when round.cc1of (or_assign at.ic_overrun 1)
    when round.cc2of (or_assign at.ic_overrun 0x10)

  unfoldable pub loop_body : Round → M Polled (Unit {0})
  unfolding capture uart_rx_to_circ_buf
  loop_body round = do
    modify (with_memory round.hardware)
    modify λ p. record p {
      extra_input_buffer = uart_rx_to_circ_buf round.received p.extra_input_buffer;
    }
    handle_asc_comm_in_polling_loop round.tx_ready
    when round.cc1if (capture round)

  unfoldable pub main :
      (ℕ → ℕ) → List ℕ → List ℕ → RegisterPointers → List Round → M (Counted Polled) (Option ℕ)
  unfolding loop_body run
  main memory raw_buffer extra_raw uninitialized rounds =
      run
        (Polling.setup RegWidth.four register_map register_write_masks n_regs memory raw_buffer
          extra_raw uninitialized)
        loop_body rounds
