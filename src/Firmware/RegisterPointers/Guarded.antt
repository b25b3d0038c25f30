-- ===== src/Firmware/RegisterPointers/Guarded.antt =====
-- What arduino_uno_register_pointers.c lets a host write: bit 5 of PORTB.
use ascii_serial_com_c.Prelude.{
  ℕ, none, fault, ◌⊎◌, ap, zero, suc, ◌≤◌, ◌≡◌, ◌≢◌, refl, List, length, ◌==◌, if◌then◌else◌, ok,
  arith,
}
use ascii_serial_com_c.Registers.{RegWidth}
use ascii_serial_com_c.Registers.Pointers.{Registers}
use ascii_serial_com_c.Registers.WriteMask.{masked_lem}
use ascii_serial_com_c.Registers.Guarded.{AreOutside, IsGuarded}
use ascii_serial_com_c.CircularBuffer
use ascii_serial_com_c.CircularBuffer.{CircularBuffer}
use ascii_serial_com_c.CircularBuffer.Init.{init-HoldsAt}
use ascii_serial_com_c.Asc
use ascii_serial_com_c.Asc.{Asc}
use ascii_serial_com_c.Asc.Init.{init-Initialized}
use ascii_serial_com_c.Device
use ascii_serial_com_c.Device.{Device, DeviceConfig}
use ascii_serial_com_c.Device.Guarded.{HasGuarded, receive-HasGuarded}
use ascii_serial_com_c.Firmware
use ascii_serial_com_c.Firmware.{Round, Counted, Station, receive_interrupt, on_extra}
use ascii_serial_com_c.Firmware.Invariant.{run-Ends, run_invariant, exchange_invariant}
use ascii_serial_com_c.Firmware.RegisterPointers.{
  Program, reg_pointers_state, ascd_config, loop_body, main,
}

-- All but bit 5 of PORTB, and all bits of any other address.
abbrev pub fixed : ℕ → ℕ → ℕ
fixed port_b address = if address == port_b then 0xdf else 0xff

fixed-port_b : (port_b : ℕ) → fixed port_b port_b ≡ 0xdf
fixed-port_b port_b = ground arith

fixed_other : (port_b address : ℕ) → port_b ≢ address → fixed port_b address ≡ 0xff
fixed_other port_b address ne = ground arith

-- The setup returns with the configuration that it was given.
setup-returns :
    (raw_buffer extra_raw : List ℕ) (config : DeviceConfig Registers (Unit {0}) (Unit {0}))
    (s : Program) (asc : Asc) (extra : CircularBuffer)
    → Asc.init raw_buffer s.ascd.asc ≡ (ok tt, asc)
    → CircularBuffer.init 64 extra_raw s.extra_input_buffer ≡ (ok tt, extra)
    → Firmware.setup raw_buffer config extra_raw s ≡ (
      ok tt,
      record s {
        ascd = record (s.ascd) { asc = asc; config = config };
        extra_input_buffer = extra;
      },
    )
unfolding Firmware.setup Device.init
setup-returns raw_buffer extra_raw config s asc extra e f = rw (e, f) refl

module _ (port_b port_c port_d : ℕ) (b_c : port_b ≢ port_c) (b_d : port_b ≢ port_d) where
  masks-AreOutside :
      AreOutside RegWidth.one (reg_pointers_state port_b port_c port_d) (fixed port_b)
  unfolding AreOutside
  masks-AreOutside zero address mask p m new old =
      let at : address ≡ port_b = cc in
      let is : mask ≡ 0x20 = cc in
      rw (at, is, fixed-port_b port_b) (masked_lem 8 new 0x20 old (omega arith)).1
  masks-AreOutside (suc zero) address mask p m new old =
      let at : address ≡ port_c = cc in
      let is : mask ≡ 0 = cc in
      rw (at, is, fixed_other port_b port_c b_c) (masked_lem 8 new 0 old (omega arith)).1
  masks-AreOutside (suc (suc zero)) address mask p m new old =
      let at : address ≡ port_d = cc in
      let is : mask ≡ 0 = cc in
      rw (at, is, fixed_other port_b port_d b_d) (masked_lem 8 new 0 old (omega arith)).1
  masks-AreOutside (suc (suc (suc n))) address mask p m new old = ground (arith, p)

  module _ (memory : ℕ → ℕ) where
    abbrev HasConfig : DeviceConfig Registers (Unit {0}) (Unit {0}) → Type 0
    HasConfig config =
        HasGuarded RegWidth.one (reg_pointers_state port_b port_c port_d) (fixed port_b) memory
          config

    abbrev Has : Program → Type 0
    Has s = HasConfig s.ascd.config

    loop_body-Has : (round : Round) (s : Program) → Has s → Has (loop_body round s).1
    unfolding loop_body receive_interrupt
    loop_body-Has round s h =
        exchange_invariant HasConfig
          (receive-HasGuarded RegWidth.one (reg_pointers_state port_b port_c port_d) (fixed port_b)
            memory masks-AreOutside)
          round.tx_ready _ h

    config-HasGuarded :
        HasGuarded RegWidth.one
          (reg_pointers_state port_b port_c port_d)
          (fixed port_b)
          memory
          (ascd_config port_b port_c port_d memory)
    unfolding ascd_config
    config-HasGuarded = record {
      handler = refl;
      guarded = record { table = refl; kept = λ address. refl };
    }

    -- Let PORTB be at another address than PORTC and PORTD. Started with 128 bytes of memory for
    -- the buffers of the interface and 64 for the extra one, the program
    -- arduino_uno_register_pointers, whatever bytes arrive, whenever the UART can send, and
    -- whichever calls throw, either goes through all the rounds given or stops at an access
    -- outside an array, from which on C leaves the behaviour undefined. At the end of the rounds,
    -- or at that access, it has kept its table of registers and, in each byte of the memory, all
    -- bits but bit 5 of PORTB, and so PORTC and PORTD whole.
    pub main-Guarded :
        (raw_buffer extra_raw : List ℕ) (rounds : List Round) (c : Counted Program)
        → 128 ≤ length raw_buffer
        → 64 ≤ length extra_raw
        → let (result, c') = main port_b port_c port_d memory raw_buffer extra_raw rounds c in
          ((result ≡ ok none) ⊎ (result ≡ fault))
          × IsGuarded
              (reg_pointers_state port_b port_c port_d)
              (fixed port_b)
              memory
              c'.program.ascd.config.state_rw
    unfolding main
    main-Guarded raw_buffer extra_raw rounds c fits room =
        let begun = init-Initialized raw_buffer c.program.ascd.asc fits in
        let extra =
          init-HoldsAt 64 extra_raw c.program.extra_input_buffer (omega arith) (6, refl) room in
        let config = ascd_config port_b port_c port_d memory in
        let returns =
          setup-returns raw_buffer extra_raw config c.program begun.asc _ begun.returns (
            ap (λ r. (r, (CircularBuffer.init 64 extra_raw c.program.extra_input_buffer).1))
              extra.0) in
        (
          run-Ends loop_body (Firmware.setup raw_buffer config extra_raw) rounds
              (record c { n_exceptions = 0 }) _ returns,
          (run_invariant Has loop_body loop_body-Has (Firmware.setup raw_buffer config extra_raw)
              rounds (record c { n_exceptions = 0 }) (rw returns config-HasGuarded)).guarded,
        )
