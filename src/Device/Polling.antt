-- ===== src/Device/Polling.antt =====
-- asc_helpers.h: the macros for a device with register pointers, and moving bytes between a UART
-- and the rings.
-- What the UART tells is an argument: the byte that waits in it, if one does, and whether it can take
-- a byte. What is written to it is recorded. The statements under _ATOMIC are one step.
use ascii_serial_com_c.Prelude.{
  ℕ, Bool, true, false, not, List, [], ◌∷◌, ◌++◌, Option, none, some, ◌==◌, ◌&&◌, if◌then◌else◌,
  Outcome, M, ◌>>=◌, ◌>>◌, gets, modify, when, ok,
}
use ascii_serial_com_c.CircularBuffer
use ascii_serial_com_c.CircularBuffer.{CircularBuffer, get_size, is_empty, push_back, pop_front}
use ascii_serial_com_c.Registers.{Handler, RegWidth}
use ascii_serial_com_c.Registers.Pointers
use ascii_serial_com_c.Registers.Pointers.{Registers, RegisterPointers}
use ascii_serial_com_c.Device
use ascii_serial_com_c.Device.{Device, DeviceConfig}

-- `if (is_uart_rx_data_waiting) { uart_rx; push_back; }`
unfoldable pub uart_rx_to_circ_buf : Option ℕ → CircularBuffer → CircularBuffer
uart_rx_to_circ_buf none cb = cb
uart_rx_to_circ_buf (some byte) cb = push_back byte cb

pub record Transmitter : Type 0 where
  pub sent : List ℕ
  pub circ_buf : CircularBuffer

abbrev with_circ_buf :
    Transmitter → {A : Type 0} → Outcome A × CircularBuffer → Outcome A × Transmitter
with_circ_buf t (r, cb) = (r, record t { circ_buf = cb })

abbrev on_circ_buf : {A : Type 0} → M CircularBuffer A → M Transmitter A
on_circ_buf m t = with_circ_buf t (m t.circ_buf)

unfoldable pub uart_tx_from_circ_buf : Bool → M Transmitter (Unit {0})
uart_tx_from_circ_buf tx_ready t =
    if tx_ready && not (is_empty t.circ_buf)
    then (do byte ← on_circ_buf pop_front; modify λ t'. record t' { sent = t'.sent ++ (byte ∷ []) })
        t
    else (ok tt, t)

-- _handle_nf_messages: `state` is the `streaming_is_on` behind the pointer.
unfoldable pub handle_nf_messages : Handler Bool
handle_nf_messages asc_version app_version command data_len call =
    if command == b'n'
    then (ok tt, record call { state = true })
    else if command == b'f'
    then (ok tt, record call { state = false })
    else (ok tt, call)

-- The static variables that DECLARE_ASC_DEVICE_W_REGISTER_POINTERS declares; `streaming_is_on` is
-- `ascd.config.state_nf`, and `_reg_pointers_state` stands in `ascd.config.state_rw`.
pub record Polled : Type 0 where
  pub ascd : Device Registers (Unit {0}) Bool
  pub extra_input_buffer : CircularBuffer
  pub sent : List ℕ

abbrev pub ascd_config : RegWidth → Registers → Bool → DeviceConfig Registers (Unit {0}) Bool
ascd_config w state_rw streaming_is_on = record {
  func_rw = some (Pointers.handle_message w);
  func_s = none;
  func_nf = some handle_nf_messages;
  state_rw = state_rw;
  state_s = tt;
  state_nf = streaming_is_on;
}

abbrev with_ascd :
    Polled → {A : Type 0} → Outcome A × Device Registers (Unit {0}) Bool → Outcome A × Polled
with_ascd p (r, ascd) = (r, record p { ascd = ascd })

abbrev on_ascd : {A : Type 0} → M (Device Registers (Unit {0}) Bool) A → M Polled A
on_ascd m p = with_ascd p (m p.ascd)

abbrev with_extra : Polled → {A : Type 0} → Outcome A × CircularBuffer → Outcome A × Polled
with_extra p (r, cb) = (r, record p { extra_input_buffer = cb })

abbrev on_extra : {A : Type 0} → M CircularBuffer A → M Polled A
on_extra m p = with_extra p (m p.extra_input_buffer)

abbrev with_transmitter : Polled → {A : Type 0} → Outcome A × Transmitter → Outcome A × Polled
with_transmitter p (r, t) = (
  r,
  record p {
    sent = t.sent;
    ascd = record (p.ascd) { asc = record (p.ascd.asc) { out_buf = t.circ_buf } };
  },
)

abbrev on_transmitter : {A : Type 0} → M Transmitter A → M Polled A
on_transmitter m p =
    with_transmitter p (m (record { sent = p.sent; circ_buf = p.ascd.asc.out_buf }))

-- SETUP_ASC_DEVICE_W_REGISTER_POINTERS, with the memory of `asc` and of the extra buffer.
unfoldable pub setup :
    RegWidth
    → List (Option ℕ)
    → List ℕ
    → ℕ
    → (ℕ → ℕ)
    → List ℕ
    → List ℕ
    → RegisterPointers
    → M Polled (Unit {0})
setup w register_map register_write_masks n_regs memory raw_buffer extra_raw uninitialized = do
  let rp = Pointers.init register_map register_write_masks n_regs uninitialized
  let registers : Registers = record { register_pointers = some rp; memory = memory }
  streaming_is_on ← gets (λ p. p.ascd.config.state_nf)
  on_ascd (Device.init raw_buffer (ascd_config w registers streaming_is_on))
  on_extra (CircularBuffer.init 64 extra_raw)

-- HANDLE_ASC_COMM_IN_POLLING_LOOP
unfoldable pub handle_asc_comm_in_polling_loop : Bool → M Polled (Unit {0})
unfolding uart_tx_from_circ_buf
handle_asc_comm_in_polling_loop tx_ready = do
  on_transmitter (uart_tx_from_circ_buf tx_ready)
  empty ← gets (λ p. is_empty p.extra_input_buffer)
  when (not empty) (do
    byte ← on_extra pop_front
    modify λ p. record p {
      ascd = record (p.ascd) {
        asc = record (p.ascd.asc) { in_buf = push_back byte p.ascd.asc.in_buf };
      };
    })
  on_ascd Device.receive

-- READY_TO_STREAM_ASC_DEVICE_W_REGISTER_POINTERS
unfoldable pub ready_to_stream : Polled → Bool
ready_to_stream p = p.ascd.config.state_nf && (get_size (Device.get_output_buffer p.ascd) == 0)

-- STREAM_TO_HOST_ASC_DEVICE_W_REGISTER_POINTERS
unfoldable pub stream_to_host : List ℕ → ℕ → M Polled (Unit {0})
stream_to_host bytes data_size =
    on_ascd (Device.put_s_message_in_output_buffer b'0' b'0' bytes data_size)
