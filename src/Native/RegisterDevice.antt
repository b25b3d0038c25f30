-- ===== src/Native/RegisterDevice.antt =====
-- native/ascii_serial_com_dummy_register_device.c: ten registers in a block, between two files.
-- asc_in_buf and asc_out_buf point to the rings of `ascd`, which are also those of `cb_io`: they
-- are lent to it for each call.
use ascii_serial_com_c.Prelude.{
  ℕ, not, List, [], ◌∷◌, Option, none, some, ◌==◌, if◌then◌else◌, replicate, Outcome, M, ◌>>=◌,
  ◌>>◌, pure, gets, modify, ok, length,
}
use ascii_serial_com_c.CircularBuffer.{is_empty}
use ascii_serial_com_c.IoFdPoll
use ascii_serial_com_c.IoFdPoll.{IoFdPoll, do_poll, do_input, do_output}
use ascii_serial_com_c.Registers.{RegWidth}
use ascii_serial_com_c.Registers.Block
use ascii_serial_com_c.Registers.Block.{RegisterBlock}
use ascii_serial_com_c.Device
use ascii_serial_com_c.Device.{Device, DeviceConfig}
use ascii_serial_com_c.Native.{Files, Round, is_option, open_files, try_catch}

abbrev pub n_regs : ℕ
n_regs = 10

-- The static variables.
pub record RegisterDevice : Type 0 where
  pub cb_io : IoFdPoll
  pub ascd : Device (Option RegisterBlock) (Unit {0}) (Unit {0})
  pub timeout : Option ℕ

abbrev with_cb_io :
    RegisterDevice → {A : Type 0} → Outcome A × IoFdPoll → Outcome A × RegisterDevice
with_cb_io p (r, io) = (
  r,
  record p {
    cb_io = io;
    ascd = record (p.ascd) {
      asc = record (p.ascd.asc) { in_buf = io.in_buf; out_buf = io.out_buf };
    };
  },
)

abbrev on_cb_io : {A : Type 0} → M IoFdPoll A → M RegisterDevice A
on_cb_io m p =
    with_cb_io p (m (record (p.cb_io) { in_buf = p.ascd.asc.in_buf; out_buf = p.ascd.asc.out_buf }))

abbrev with_ascd :
    RegisterDevice
    → {A : Type 0} → Outcome A × Device (Option RegisterBlock) (Unit {0}) (Unit {0})
    → Outcome A × RegisterDevice
with_ascd p (r, ascd) = (r, record p { ascd = ascd })

abbrev on_ascd :
    {A : Type 0} → M (Device (Option RegisterBlock) (Unit {0}) (Unit {0})) A → M RegisterDevice A
on_ascd m p = with_ascd p (m p.ascd)

-- `reg_block` is what `state_rw` points to.
unfoldable pub ascd_config :
    RegWidth → RegisterBlock → DeviceConfig (Option RegisterBlock) (Unit {0}) (Unit {0})
ascd_config w reg_block = record {
  func_rw = some (Block.handle_message w);
  func_s = none;
  func_nf = none;
  state_rw = some reg_block;
  state_s = tt;
  state_nf = tt;
}

-- The Try block before the loop; `regs` are ten zeros, as static variables are.
unfoldable pub setup : RegWidth → List ℕ → ℕ → ℕ → M RegisterDevice (Option ℕ)
unfolding ascd_config
setup w raw_buffer infileno outfileno = do
  let reg_block = Block.init (replicate n_regs 0) n_regs (record { block = []; n_regs = 0 })
  on_ascd (Device.init raw_buffer (ascd_config w reg_block))
  modify λ p. record p {
    cb_io = IoFdPoll.init p.ascd.asc.in_buf p.ascd.asc.out_buf infileno outfileno p.cb_io;
  }
  pure none

-- The Try block of the loop, after a poll without an error.
unfoldable pub transfer : Round → M RegisterDevice (Option ℕ)
transfer round = do
  fd_in ← gets (λ p. p.cb_io.fd_in)
  n_read ← on_cb_io (do_input (round.read fd_in))
  on_ascd Device.receive
  fd_out ← gets (λ p. p.cb_io.fd_out)
  n_written ← on_cb_io (do_output (round.write fd_out))
  modify λ p. record p { timeout = if not (is_empty p.ascd.asc.in_buf) then some 5 else none }
  pure none

unfoldable pub loop_body : Round → M RegisterDevice (Option ℕ)
unfolding transfer
loop_body round p =
    let (code, io) =
      do_poll (round.poll p.timeout)
        (record (p.cb_io) { in_buf = p.ascd.asc.in_buf; out_buf = p.ascd.asc.out_buf }) in
    if not (code == 0)
    then with_cb_io p (ok (some 1), io)
    else transfer round (with_cb_io p (ok tt, io)).1

-- `while (true)`: an exception ends the program, as an error of poll does.
unfoldable pub main_loop : List Round → M RegisterDevice (Option ℕ)
unfolding loop_body
main_loop [] = pure none
main_loop (round ∷ rounds) = do
  status ← try_catch (loop_body round) (λ e. pure (some 1))
  elim status [ none ↦ main_loop rounds | some n ↦ pure (some n) ]

-- After the check of the arguments.
unfoldable pub run : RegWidth → List ℕ → Option (ℕ × ℕ) → List Round → M RegisterDevice (Option ℕ)
unfolding setup main_loop
run w raw_buffer none rounds = pure (some 1)
run w raw_buffer (some (infileno, outfileno)) rounds = do
  status ← try_catch (setup w raw_buffer infileno outfileno) (λ e. pure (some 1))
  elim status [ none ↦ main_loop rounds | some n ↦ pure (some n) ]

-- `arguments` stand after the program's name.
unfoldable pub main :
    RegWidth → List ℕ → Files → List (List ℕ) → List Round → M RegisterDevice (Option ℕ)
unfolding run open_files
main w raw_buffer files [] rounds = run w raw_buffer (open_files files []) rounds
main w raw_buffer files (argument ∷ arguments) rounds =
    if is_option b'-' b'h' argument
    then pure (some 0)
    else if length arguments == 1
    then run w raw_buffer (open_files files (argument ∷ arguments)) rounds
    else pure (some 1)
