-- ===== src/Firmware/TestDevice.antt =====
-- avr/arduino_uno_test_device.c: registers behind pointers, and a stream of a counter that 'n'
-- turns on and 'f' off.
use ascii_serial_com_c.Prelude.{
  ℕ, ◌+◌, Bool, true, not, List, [], ◌∷◌, Option, none, some, ◌==◌, ◌&&◌, if◌then◌else◌, Outcome, M,
  ◌>>=◌, ◌>>◌, gets, modify, when, ok, u8,
}
use ascii_serial_com_c.CircularBuffer.{get_size}
use ascii_serial_com_c.Hex.{convert_uint8_to_hex}
use ascii_serial_com_c.Registers.{RegWidth, Handler}
use ascii_serial_com_c.Registers.Pointers
use ascii_serial_com_c.Registers.Pointers.{Registers, RegisterPointers}
use ascii_serial_com_c.Device
use ascii_serial_com_c.Device.{Device, DeviceConfig}
use ascii_serial_com_c.Device.Polling.{uart_tx_from_circ_buf}
use ascii_serial_com_c.Firmware
use ascii_serial_com_c.Firmware.{
  Round, Counted, Station, on_ascd, on_transmitter, receive_interrupt, move_byte, run,
}

abbrev pub n_regs : ℕ
n_regs = 3

abbrev pub masks : List ℕ
masks = 0x20 ∷ 0 ∷ 0 ∷ []

-- on_off_stream_state is its uint8_t `on`.
pub record TestDevice : Type 0 where
  pub station : Station Registers ℕ
  pub counter : ℕ
  pub counter_buffer : List ℕ

unfoldable pub handle_nf_messages : Handler ℕ
handle_nf_messages asc_version app_version command data_len call =
    if command == b'n'
    then (ok tt, record call { state = 1 })
    else if command == b'f'
    then (ok tt, record call { state = 0 })
    else (ok tt, call)

abbrev with_station :
    TestDevice → {A : Type 0} → Outcome A × Station Registers ℕ → Outcome A × TestDevice
with_station p (r, station) = (r, record p { station = station })

abbrev pub on_station : {A : Type 0} → M (Station Registers ℕ) A → M TestDevice A
on_station m p = with_station p (m p.station)

module _ (port_b port_c port_d : ℕ) where
  abbrev pub reg_ptrs : List (Option ℕ)
  reg_ptrs = some port_b ∷ some port_c ∷ some port_d ∷ []

  unfoldable pub ascd_config : (ℕ → ℕ) → DeviceConfig Registers (Unit {0}) ℕ
  ascd_config memory = record {
    func_rw = some (Pointers.handle_message RegWidth.one);
    func_s = none;
    func_nf = some handle_nf_messages;
    state_rw = record {
      register_pointers =
          some (record { pointers = reg_ptrs; write_masks = masks; n_regs = n_regs });
      memory = memory;
    };
    state_s = tt;
    state_nf = 0;
  }

-- The counter's two digits, the message, and the next value, a uint8_t.
unfoldable pub stream : M TestDevice (Unit {0})
stream = do
  modify λ p. record p { counter_buffer = convert_uint8_to_hex p.counter 0 true p.counter_buffer }
  λ p. on_station (on_ascd (Device.put_s_message_in_output_buffer b'0' b'0' p.counter_buffer 2)) p
  modify λ p. record p { counter = u8 (p.counter + 1) }

-- `stream_state.on && circular_buffer_get_size_uint8(asc_out_buf) == 0`
unfoldable pub ready_to_stream : TestDevice → Bool
ready_to_stream p =
    not (p.station.ascd.config.state_nf == 0) && (get_size p.station.ascd.asc.out_buf == 0)

unfoldable pub loop_body : Round → M TestDevice (Unit {0})
unfolding receive_interrupt move_byte stream ready_to_stream
loop_body round = do
  on_station (receive_interrupt round.received)
  on_station move_byte
  on_station (on_ascd Device.receive)
  ready ← gets ready_to_stream
  when ready stream
  on_station (on_transmitter (uart_tx_from_circ_buf round.tx_ready))

unfoldable pub main :
    ℕ → ℕ → ℕ → (ℕ → ℕ) → List ℕ → List ℕ → List Round → M (Counted TestDevice) (Option ℕ)
unfolding ascd_config loop_body run
main port_b port_c port_d memory raw_buffer extra_raw rounds = do
  modify λ c. record c { n_exceptions = 0; program = record (c.program) { counter = 0 } }
  run (on_station (Firmware.setup raw_buffer (ascd_config port_b port_c port_d memory) extra_raw))
      loop_body rounds
