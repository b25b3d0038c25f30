-- ===== src/Firmware/Invariant.antt =====
-- What the main loops leave as it is.
use ascii_serial_com_c.Prelude.{
  ℕ, ◌+◌, ◌≡◌, refl, ◌⊎◌, inl, inr, Option, none, pure, continue, u16, arith, Bool, not, List, [],
  ◌∷◌, Outcome, M, ok, throw, fault, continue_invariant, when_invariant,
}
use ascii_serial_com_c.CircularBuffer.{is_empty, pop_front}
use ascii_serial_com_c.Device
use ascii_serial_com_c.Device.{Device, DeviceConfig}
use ascii_serial_com_c.Firmware.{
  Counted, count_exception, main_loop, after_setup, run, Station, on_ascd, on_extra, move_byte,
  exchange,
}

module _ {S R : Type 0} (P : S → Type 0) (body : R → M S (Unit {0}))
    (keeps : (round : R) (s : S) → P s → P (body round s).1) where
  abbrev Program : Counted S → Type 0
  Program c = P c.program

  count_exception_lem :
      (n : ℕ) (r : Outcome (Unit {0}) × S) → P r.1 → P (count_exception n r).1.program
  count_exception_lem n (ok tt, s) p = p
  count_exception_lem n (throw e, s) p = p
  count_exception_lem n (fault, s) p = p

  pub main_loop_invariant :
      (rounds : List R) (c : Counted S) → P c.program → P (main_loop body rounds c).1.program
  unfolding main_loop
  main_loop_invariant [] c p = p
  main_loop_invariant (round ∷ rounds) c p =
      continue_invariant Program (count_exception c.n_exceptions (body round c.program)) _
        (count_exception_lem c.n_exceptions (body round c.program) (keeps round c.program p))
        (λ done c' p'. main_loop_invariant rounds c' p')

  -- Whether the setup returned or threw.
  after_setup_invariant :
      (rounds : List R) (n : ℕ) (r : Outcome (Unit {0}) × S)
      → P r.1
      → P (after_setup body rounds n r).1.program
  unfolding after_setup
  after_setup_invariant rounds n (ok tt, s) p =
      let started : Counted S = record { program = s; n_exceptions = n } in
      continue_invariant Program (main_loop body rounds started) _
        (main_loop_invariant rounds started p) (λ done c p'. p')
  after_setup_invariant rounds n (throw e, s) p = p
  after_setup_invariant rounds n (fault, s) p = p

  pub run_invariant :
      (setup : M S (Unit {0})) (rounds : List R) (c : Counted S)
      → P (setup c.program).1
      → P (run setup body rounds c).1.program
  unfolding run
  run_invariant setup rounds c p = after_setup_invariant rounds c.n_exceptions (setup c.program) p

-- The loop catches what the calls throw, so it ends after its rounds, or at a fault.
module _ {S R : Type 0} (body : R → M S (Unit {0})) where
  Ends : M (Counted S) (Unit {0}) → Type 0
  Ends m = (c : Counted S) → ((m c).0 ≡ ok tt) ⊎ ((m c).0 ≡ fault)

  count_exception-Ends :
      (rest : M (Counted S) (Unit {0})) (n : ℕ) (r : Outcome (Unit {0}) × S)
      → Ends rest
      → let ended = continue (count_exception n r) (λ done. rest) in
        (ended.0 ≡ ok tt) ⊎ (ended.0 ≡ fault)
  unfolding Ends
  count_exception-Ends rest n (ok tt, s) h = h (record { program = s; n_exceptions = n })
  count_exception-Ends rest n (throw e, s) h =
      h (record { program = s; n_exceptions = u16 (n + 1) })
  count_exception-Ends rest n (fault, s) h = inr refl

  main_loop-Ends : (rounds : List R) → Ends (main_loop body rounds)
  unfolding main_loop Ends
  main_loop-Ends [] c = inl refl
  main_loop-Ends (round ∷ rounds) c =
      count_exception-Ends (main_loop body rounds) c.n_exceptions (body round c.program)
        (main_loop-Ends rounds)

  runs_on :
      (r : Outcome (Unit {0}) × Counted S)
      → (r.0 ≡ ok tt) ⊎ (r.0 ≡ fault)
      → let result = continue r (λ done. pure {A = Option ℕ} none) in
        (result.0 ≡ ok none) ⊎ (result.0 ≡ fault)
  runs_on (ok tt, c) e = inl refl
  runs_on (throw e, c) (inl h) = ground (arith, h)
  runs_on (throw e, c) (inr h) = ground (arith, h)
  runs_on (fault, c) e = inr refl

  pub run-Ends :
      (setup : M S (Unit {0})) (rounds : List R) (c : Counted S) (s : S)
      → setup c.program ≡ (ok tt, s)
      → ((run setup body rounds c).0 ≡ ok none) ⊎ ((run setup body rounds c).0 ≡ fault)
  unfolding run after_setup Ends
  run-Ends setup rounds c s e =
      let started : Counted S = record { program = s; n_exceptions = c.n_exceptions } in
      rw e (runs_on (main_loop body rounds started) (main_loop-Ends rounds started))

-- The configuration changes only in the call that receives a message.
module _ {Rw Nf : Type 0} (Q : DeviceConfig Rw (Unit {0}) Nf → Type 0)
    (keeps : (ascd : Device Rw (Unit {0}) Nf)
      → Q ascd.config
      → Q (Device.receive ascd).1.config) where
  abbrev Configured : Station Rw Nf → Type 0
  Configured s = Q s.ascd.config

  move_byte_lem : (s : Station Rw Nf) → Configured s → Configured (move_byte s).1
  unfolding move_byte
  move_byte_lem s q =
      when_invariant Configured (not (is_empty s.extra_input_buffer)) _ s q
        (continue_invariant Configured (on_extra pop_front s) _ q (λ byte s' q'. q'))

  pub exchange_invariant :
      (tx_ready : Bool) (s : Station Rw Nf)
      → Q s.ascd.config
      → Q (exchange tx_ready s).1.ascd.config
  unfolding exchange
  exchange_invariant tx_ready s q =
      continue_invariant Configured (move_byte s) _ (move_byte_lem s q) (λ moved s' q'.
        continue_invariant Configured (on_ascd Device.receive s') _ (keeps s'.ascd q')
          (λ received s'' q''. q''))
