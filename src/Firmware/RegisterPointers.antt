-- ===== src/Firmware/RegisterPointers.antt =====
-- avr/arduino_uno_register_pointers.c: three ports as registers of one byte, of which one bit can
-- be written. The ports' addresses are arguments.
pub mod Guarded
use ascii_serial_com_c.Prelude.{ℕ, List, [], ◌∷◌, Option, none, some, M, ◌>>◌, modify}
use ascii_serial_com_c.Registers.{RegWidth}
use ascii_serial_com_c.Registers.Pointers
use ascii_serial_com_c.Registers.Pointers.{Registers, RegisterPointers}
use ascii_serial_com_c.Device.{DeviceConfig}
use ascii_serial_com_c.Firmware
use ascii_serial_com_c.Firmware.{Round, Counted, Station, receive_interrupt, exchange, run}

abbrev pub n_regs : ℕ
n_regs = 3

abbrev pub Program : Type 0
Program = Station Registers (Unit {0})

abbrev pub masks : List ℕ
masks = 0x20 ∷ 0 ∷ 0 ∷ []

module _ (port_b port_c port_d : ℕ) where
  abbrev pub reg_ptrs : List (Option ℕ)
  reg_ptrs = some port_b ∷ some port_c ∷ some port_d ∷ []

  -- After ascii_serial_com_register_pointers_init.
  abbrev pub reg_pointers_state : RegisterPointers
  reg_pointers_state = record { pointers = reg_ptrs; write_masks = masks; n_regs = n_regs }

  unfoldable pub ascd_config : (ℕ → ℕ) → DeviceConfig Registers (Unit {0}) (Unit {0})
  ascd_config memory = record {
    func_rw = some (Pointers.handle_message RegWidth.one);
    func_s = none;
    func_nf = none;
    state_rw = record { register_pointers = some reg_pointers_state; memory = memory };
    state_s = tt;
    state_nf = tt;
  }

unfoldable pub loop_body : Round → M Program (Unit {0})
unfolding receive_interrupt exchange
loop_body round = do receive_interrupt round.received; exchange round.tx_ready

unfoldable pub main :
    ℕ → ℕ → ℕ → (ℕ → ℕ) → List ℕ → List ℕ → List Round → M (Counted Program) (Option ℕ)
unfolding ascd_config loop_body run
main port_b port_c port_d memory raw_buffer extra_raw rounds = do
  modify λ c. record c { n_exceptions = 0 }
  run (Firmware.setup raw_buffer (ascd_config port_b port_c port_d memory) extra_raw) loop_body
      rounds
