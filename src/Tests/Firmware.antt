-- ===== src/Tests/Firmware.antt =====
-- Witness for the programs for boards.
use ascii_serial_com_c.Prelude.{
  arith, replicate, List, [], ◌∷◌, ◌++◌, map, none, some, true, false, ok, fault, ◌⊎◌, ◌≡◌,
}
use ascii_serial_com_c.Registers.{RegWidth}
use ascii_serial_com_c.Registers.Reply.{number, value_digits}
use ascii_serial_com_c.Asc.Frame.{frame}
use ascii_serial_com_c.Registers.Guarded.{IsGuarded}
use ascii_serial_com_c.Firmware.{Round, Counted}
use ascii_serial_com_c.Firmware.RegisterPointers.{Program, reg_pointers_state, main}
use ascii_serial_com_c.Firmware.RegisterPointers.Guarded.{fixed, main-Guarded}
use ascii_serial_com_c.Tests.{ring_at, asc}
use ascii_serial_com_c.Tests.Native.{no_message}

-- Before the program starts.
abbrev program : Counted Program
program = record {
  program = record {
    ascd = record {
      asc = asc;
      message = no_message;
      config = record {
        func_rw = none;
        func_s = none;
        func_nf = none;
        state_rw = record { register_pointers = none; memory = λ address. 0 };
        state_s = tt;
        state_nf = tt;
      };
    };
    extra_input_buffer = ring_at 0;
    sent = [];
  };
  n_exceptions = 3;
}

-- A whole request to write 0 to register 0, PORTB, arrives, one byte a round.
abbrev rounds : List Round
rounds =
    map (λ b. record { received = some b; tx_ready = true })
      (frame b'0' b'0' b'w' (number 0 false ++ (b',' ∷ value_digits RegWidth.one 0)))

main-Guarded_example :
    let (result, c') =
      main 0x25 0x28 0x2b (λ address. 0x33) (replicate 128 0) (replicate 64 0) rounds program in
    ((result ≡ ok none) ⊎ (result ≡ fault))
    × IsGuarded
        (reg_pointers_state 0x25 0x28 0x2b)
        (fixed 0x25)
        (λ address. 0x33)
        c'.program.ascd.config.state_rw
main-Guarded_example =
    main-Guarded 0x25 0x28 0x2b (λ e. ground (arith, e)) (λ e. ground (arith, e)) (λ address. 0x33)
      (replicate 128 0) (replicate 64 0) rounds program (omega arith) (omega arith)
