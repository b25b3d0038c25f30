-- ===== src/Firmware/Neorv32.antt =====
-- riscv/neorv32/neorv32_asc_gpio.c and neorv32_asc_pulse_counter.c: input and output ports as
-- registers of four bytes. The loop itself takes the bytes from the UART.
use ascii_serial_com_c.Prelude.{
  ℕ, Bool, List, [], ◌∷◌, Option, none, some, if◌then◌else◌, M, ◌>>◌, pure, modify,
}
use ascii_serial_com_c.CircularBuffer.{push_back}
use ascii_serial_com_c.Registers.{RegWidth}
use ascii_serial_com_c.Registers.Pointers.{RegisterPointers}
use ascii_serial_com_c.Device.Polling
use ascii_serial_com_c.Device.Polling.{Polled, handle_asc_comm_in_polling_loop}
use ascii_serial_com_c.Firmware.{Round, Counted, run}

-- The ports' addresses.
pub record Gpio : Type 0 where
  pub output_lo : ℕ
  pub output_hi : ℕ
  pub input_lo : ℕ
  pub input_hi : ℕ

abbrev pub gpio_register_map : Gpio → List (Option ℕ)
gpio_register_map gpio =
    some gpio.output_lo ∷ some gpio.output_hi ∷ some gpio.input_lo ∷ some gpio.input_hi ∷ []

abbrev pub gpio_register_write_masks : List ℕ
gpio_register_write_masks = 0xffffffff ∷ 0xffffffff ∷ 0 ∷ 0 ∷ []

abbrev pub counter_register_map : Gpio → List (Option ℕ)
counter_register_map gpio =
    some gpio.output_lo
    ∷ some gpio.output_hi
    ∷ some gpio.input_lo
    ∷ some gpio.input_hi
    ∷ some 0x71000000
    ∷ some 0x71000004
    ∷ []

abbrev pub counter_register_write_masks : List ℕ
counter_register_write_masks = 0xffffffff ∷ 0xffffffff ∷ 0 ∷ 0 ∷ 0 ∷ 3 ∷ []

-- `rx_status == 0`: a character was received.
abbrev getc_safe : Option ℕ → M Polled (Unit {0})
getc_safe none = pure tt
getc_safe (some tmp_byte) =
    modify λ p. record p { extra_input_buffer = push_back tmp_byte p.extra_input_buffer }

unfoldable pub loop_body : Round → M Polled (Unit {0})
loop_body round = do handle_asc_comm_in_polling_loop round.tx_ready; getc_safe round.received

-- main of either program, for what the processor has: `return 1` without a UART or ports.
unfoldable pub main :
    List (Option ℕ)
    → List ℕ
    → ℕ
    → (uart1_available gpio_available : Bool) → (ℕ → ℕ)
    → List ℕ
    → List ℕ
    → RegisterPointers
    → List Round
    → M (Counted Polled) (Option ℕ)
unfolding loop_body run
main register_map register_write_masks n_regs uart1_available gpio_available memory raw_buffer
      extra_raw uninitialized rounds =
    if uart1_available
    then (if gpio_available
        then run
            (Polling.setup RegWidth.four register_map register_write_masks n_regs memory raw_buffer
              extra_raw uninitialized)
            loop_body rounds
        else pure (some 1))
    else pure (some 1)

unfoldable pub gpio_main :
    Gpio
    → (uart1_available gpio_available : Bool) → (ℕ → ℕ)
    → List ℕ
    → List ℕ
    → RegisterPointers
    → List Round
    → M (Counted Polled) (Option ℕ)
unfolding main
gpio_main gpio = main (gpio_register_map gpio) gpio_register_write_masks 4

unfoldable pub counter_main :
    Gpio
    → (uart1_available gpio_available : Bool) → (ℕ → ℕ)
    → List ℕ
    → List ℕ
    → RegisterPointers
    → List Round
    → M (Counted Polled) (Option ℕ)
unfolding main
counter_main gpio = main (counter_register_map gpio) counter_register_write_masks 6
