-- ===== src/Firmware/RegisterBlock.antt =====
-- avr/arduino_uno_dummy_register_block.c: ten registers of one byte in a block.
use ascii_serial_com_c.Prelude.{ℕ, List, [], Option, none, some, replicate, M, ◌>>◌, modify}
use ascii_serial_com_c.Registers.{RegWidth}
use ascii_serial_com_c.Registers.Block
use ascii_serial_com_c.Registers.Block.{RegisterBlock}
use ascii_serial_com_c.Device.{DeviceConfig}
use ascii_serial_com_c.Firmware
use ascii_serial_com_c.Firmware.{Round, Counted, Station, receive_interrupt, exchange, run}

abbrev pub n_regs : ℕ
n_regs = 10

abbrev pub Program : Type 0
Program = Station (Option RegisterBlock) (Unit {0})

-- With `reg_block` after its initialization; the registers are static variables.
unfoldable pub ascd_config : DeviceConfig (Option RegisterBlock) (Unit {0}) (Unit {0})
ascd_config = record {
  func_rw = some (Block.handle_message RegWidth.one);
  func_s = none;
  func_nf = none;
  state_rw = some (Block.init (replicate n_regs 0) n_regs (record { block = []; n_regs = 0 }));
  state_s = tt;
  state_nf = tt;
}

unfoldable pub loop_body : Round → M Program (Unit {0})
unfolding receive_interrupt exchange
loop_body round = do receive_interrupt round.received; exchange round.tx_ready

unfoldable pub main : List ℕ → List ℕ → List Round → M (Counted Program) (Option ℕ)
unfolding ascd_config loop_body run
main raw_buffer extra_raw rounds = do
  modify λ c. record c { n_exceptions = 0 }
  run (Firmware.setup raw_buffer ascd_config extra_raw) loop_body rounds
