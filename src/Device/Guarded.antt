-- ===== src/Device/Guarded.antt =====
-- The device with register pointers keeps the bits that the write masks guard.
use ascii_serial_com_c.Prelude.{
  ℕ, ◌≡◌, Option, none, some, ◌==◌, ◌||◌, Outcome, continue_invariant, either,
}
use ascii_serial_com_c.Asc.Receive.{get_message_from_input_buffer}
use ascii_serial_com_c.Registers.{RegWidth, Handler}
use ascii_serial_com_c.Registers.Pointers.{Registers, RegisterPointers, handle_message}
use ascii_serial_com_c.Registers.Guarded.{AreOutside, IsGuarded, handle_message-IsGuarded}
use ascii_serial_com_c.Device.{
  Device, DeviceConfig, on_receiver, put_error, call_or_error, dispatch, receive,
}

-- The handler for 'r' and 'w' is the one for register pointers, on a guarded state.
pub record HasGuarded (w : RegWidth) (rp : RegisterPointers) (fixed memory : ℕ → ℕ) {S Nf : Type 0}
    (config : DeviceConfig Registers S Nf) : Type 0 where
  pub handler : config.func_rw ≡ some (handle_message w)
  pub guarded : IsGuarded rp fixed memory config.state_rw

-- A call changes the configuration to what `put` makes of the handler's state.
call_or_error-put :
    {Rw S Nf St : Type 0} (Q : DeviceConfig Rw S Nf → Type 0) (o : Option (Handler St)) (state : St)
    (put : St → DeviceConfig Rw S Nf) (ascd : Device Rw S Nf)
    → Q ascd.config
    → ((st : St) → Q (put st))
    → Q (call_or_error o state put ascd).1.config
unfolding call_or_error put_error
call_or_error-put Q none state put ascd q k = q
call_or_error-put Q (some func) state put ascd q k = k _

module _ (w : RegWidth) (rp : RegisterPointers) (fixed memory : ℕ → ℕ)
    (outside : AreOutside w rp fixed) {S Nf : Type 0} where
  abbrev Has : DeviceConfig Registers S Nf → Type 0
  Has config = HasGuarded w rp fixed memory config

  abbrev HasDevice : Device Registers S Nf → Type 0
  HasDevice ascd = Has ascd.config

  call_rw-Has :
      (o : Option (Handler Registers)) (ascd : Device Registers S Nf)
      → o ≡ some (handle_message w)
      → Has ascd.config
      → Has
          (call_or_error o ascd.config.state_rw
            (λ st. record (ascd.config) { state_rw = st })
            ascd).1.config
  unfolding call_or_error put_error
  call_rw-Has none ascd e h = h
  call_rw-Has (some func) ascd e h =
      let same : func ≡ handle_message w = cc in
      rw same (record {
        handler = h.handler;
        guarded =
            handle_message-IsGuarded w rp fixed memory outside ascd.message.asc_version
              ascd.message.app_version ascd.message.command ascd.message.data_len _ h.guarded;
      })

  dispatch-Has : (ascd : Device Registers S Nf) → Has ascd.config → Has (dispatch ascd).1.config
  unfolding dispatch put_error
  dispatch-Has ascd h =
      let command = ascd.message.command in
      let config = ascd.config in
      let Kept : Outcome (Unit {0}) × Device Registers S Nf → Type 0 = λ r. Has r.1.config in
      either Kept (command == 0) h (
        either Kept ((command == b'r') || (command == b'w'))
          (call_rw-Has config.func_rw ascd h.handler h)
          (either Kept (command == b's')
            (call_or_error-put Has config.func_s config.state_s
              (λ st. record config { state_s = st }) ascd h
              (λ st. record { handler = h.handler; guarded = h.guarded }))
            (either Kept ((command == b'n') || (command == b'f'))
              (call_or_error-put Has config.func_nf config.state_nf
                (λ st. record config { state_nf = st }) ascd h
                (λ st. record { handler = h.handler; guarded = h.guarded }))
              (either Kept (command == b'z') h h))))

  pub receive-HasGuarded :
      (ascd : Device Registers S Nf)
      → HasGuarded w rp fixed memory ascd.config
      → HasGuarded w rp fixed memory (receive ascd).1.config
  unfolding receive
  receive-HasGuarded ascd h =
      continue_invariant HasDevice (on_receiver get_message_from_input_buffer ascd) _ h
        (λ done ascd' h'. dispatch-Has ascd' h')
