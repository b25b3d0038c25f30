-- ===== src/Device.antt =====
-- ascii_serial_com_device.c: receives messages and hands them to the functions of its
-- configuration.
-- What `state_rw`, `state_s` and `state_nf` point to is a field of its own each; they do not overlap.
pub mod Dispatch
pub mod Guarded
pub mod Refused
pub mod Polling
use ascii_serial_com_c.Prelude.{
  ℕ, Bool, true, false, List, Option, none, some, ◌==◌, ◌||◌, if◌then◌else◌, Outcome, M, ◌>>=◌,
  ◌>>◌, pure, gets, modify, ok, throw, fault, command_not_implemented,
}
use ascii_serial_com_c.CircularBuffer.{CircularBuffer}
use ascii_serial_com_c.Asc
use ascii_serial_com_c.Asc.{Asc, put_error_in_output_buffer}
use ascii_serial_com_c.Asc.Receive.{Message, Receiver, get_message_from_input_buffer}
use ascii_serial_com_c.Registers.{Call, Handler}

pub record DeviceConfig (Rw S Nf : Type 0) : Type 0 where
  pub func_rw : Option (Handler Rw)
  pub func_s : Option (Handler S)
  pub func_nf : Option (Handler Nf)
  pub state_rw : Rw
  pub state_s : S
  pub state_nf : Nf

-- `message` is the struct's five members ascVersion, appVersion, command, dataBuffer and dataLen.
pub record Device (Rw S Nf : Type 0) : Type 0 where
  pub asc : Asc
  pub message : Message
  pub config : DeviceConfig Rw S Nf

module _ {Rw S Nf : Type 0} where
  abbrev with_asc : Device Rw S Nf → {A : Type 0} → Outcome A × Asc → Outcome A × Device Rw S Nf
  with_asc ascd (r, asc) = (r, record ascd { asc = asc })

  abbrev pub on_asc : {A : Type 0} → M Asc A → M (Device Rw S Nf) A
  on_asc m ascd = with_asc ascd (m ascd.asc)

  abbrev with_receiver :
      Device Rw S Nf → {A : Type 0} → Outcome A × Receiver → Outcome A × Device Rw S Nf
  with_receiver ascd (r, rx) = (r, record ascd { asc = rx.asc; message = rx.message })

  abbrev pub on_receiver : {A : Type 0} → M Receiver A → M (Device Rw S Nf) A
  on_receiver m ascd = with_receiver ascd (m (record { asc = ascd.asc; message = ascd.message }))

  -- `raw_buffer` is the memory that `asc` already has for its two buffers.
  unfoldable pub init : List ℕ → DeviceConfig Rw S Nf → M (Device Rw S Nf) (Unit {0})
  init raw_buffer config = do
    on_asc (Asc.init raw_buffer)
    modify λ ascd. record ascd { config = config }

  unfoldable pub put_error : M (Device Rw S Nf) (Unit {0})
  put_error ascd =
      on_asc
        (put_error_in_output_buffer ascd.message.asc_version ascd.message.app_version
          ascd.message.command ascd.message.bytes ascd.message.data_len command_not_implemented)
        ascd

  -- What a handler leaves, with its state put back by `put`.
  abbrev pub after_call :
      {St : Type 0}
      → (St → DeviceConfig Rw S Nf)
      → Device Rw S Nf
      → Outcome (Unit {0}) × Call St
      → Outcome (Unit {0}) × Device Rw S Nf
  after_call put ascd (r, call) = (
    r,
    record ascd {
      asc = call.asc;
      message = record (ascd.message) { bytes = call.bytes };
      config = put call.state;
    },
  )

  -- `if (func) func(...); else put_error(...);`
  unfoldable pub call_or_error :
      {St : Type 0}
      → Option (Handler St)
      → St
      → (St → DeviceConfig Rw S Nf)
      → M (Device Rw S Nf) (Unit {0})
  unfolding put_error
  call_or_error none state put ascd = put_error ascd
  call_or_error (some func) state put ascd = after_call put ascd (
      func ascd.message.asc_version ascd.message.app_version ascd.message.command
        ascd.message.data_len
        (record { asc = ascd.asc; bytes = ascd.message.bytes; state = state }))

  -- The chain of tests on the command.
  unfoldable pub dispatch : M (Device Rw S Nf) (Unit {0})
  unfolding call_or_error
  dispatch ascd =
      let command = ascd.message.command in
      let config = ascd.config in
      if command == 0
      then (ok tt, ascd)
      else if (command == b'r') || (command == b'w')
      then call_or_error config.func_rw config.state_rw (λ st. record config { state_rw = st }) ascd
      else if command == b's'
      then call_or_error config.func_s config.state_s (λ st. record config { state_s = st }) ascd
      else if (command == b'n') || (command == b'f')
      then call_or_error config.func_nf config.state_nf (λ st. record config { state_nf = st }) ascd
      else if command == b'z'
      then (ok tt, ascd)
      else put_error ascd

  unfoldable pub receive : M (Device Rw S Nf) (Unit {0})
  unfolding dispatch
  receive = do on_receiver get_message_from_input_buffer; dispatch

  unfoldable pub get_input_buffer : Device Rw S Nf → CircularBuffer
  get_input_buffer ascd = ascd.asc.in_buf

  unfoldable pub get_output_buffer : Device Rw S Nf → CircularBuffer
  get_output_buffer ascd = ascd.asc.out_buf

  unfoldable pub put_message_in_output_buffer :
      ℕ → ℕ → ℕ → List ℕ → ℕ → M (Device Rw S Nf) (Unit {0})
  put_message_in_output_buffer asc_version app_version command bytes data_len =
      on_asc (Asc.put_message_in_output_buffer asc_version app_version command bytes data_len)

  unfoldable pub put_s_message_in_output_buffer : ℕ → ℕ → List ℕ → ℕ → M (Device Rw S Nf) (Unit {0})
  put_s_message_in_output_buffer asc_version app_version bytes data_len =
      on_asc (Asc.put_s_message_in_output_buffer asc_version app_version bytes data_len)
