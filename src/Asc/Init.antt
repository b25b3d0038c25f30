-- ===== src/Asc/Init.antt =====
-- ascii_serial_com_init gives two empty buffers.
use ascii_serial_com_c.Prelude.{
  ℕ, ◌≤◌, ◌≡◌, refl, ap, false, List, [], length, length-take, length-drop, take, drop, Outcome, ok,
  arith,
}
use ascii_serial_com_c.CircularBuffer
use ascii_serial_com_c.CircularBuffer.{CircularBuffer}
use ascii_serial_com_c.CircularBuffer.Pushes.{HoldsAt}
use ascii_serial_com_c.CircularBuffer.Init.{init-HoldsAt}
use ascii_serial_com_c.Asc
use ascii_serial_com_c.Asc.{Asc, max_message_len}

-- Two empty buffers of 64 bytes that start at their storage's first byte, the counters at zero, and
-- the checksum not ignored.
pub record IsFresh (asc : Asc) : Type 0 where
  pub in_empty : HoldsAt max_message_len 0 [] asc.in_buf
  pub out_empty : HoldsAt max_message_len 0 [] asc.out_buf
  pub sent_none : asc.send_stream_frame_counter ≡ 0
  pub checks : asc.ignore_crc_mismatch ≡ false

pub record Initialized (result : Outcome (Unit {0}) × Asc) : Type 0 where
  pub asc : Asc
  pub returns : result ≡ (ok tt, asc)
  pub fresh : IsFresh asc

ring :
    (buffer : List ℕ) (cb : CircularBuffer)
    → 64 ≤ length buffer
    → (CircularBuffer.init 64 buffer cb ≡ (ok tt, (CircularBuffer.init 64 buffer cb).1))
      × HoldsAt 64 0 [] (CircularBuffer.init 64 buffer cb).1
ring buffer cb fits =
    let (returns, holds) = init-HoldsAt 64 buffer cb (omega arith) (6, refl) fits in
    (ap (λ r. (r, (CircularBuffer.init 64 buffer cb).1)) returns, holds)

init-returns :
    (raw_buffer : List ℕ) (asc : Asc) (in_buf out_buf : CircularBuffer)
    → CircularBuffer.init 64 (take 64 raw_buffer) asc.in_buf ≡ (ok tt, in_buf)
    → CircularBuffer.init 64 (drop 64 raw_buffer) asc.out_buf ≡ (ok tt, out_buf)
    → Asc.init raw_buffer asc ≡ (
      ok tt,
      record {
        in_buf = in_buf;
        out_buf = out_buf;
        send_stream_frame_counter = 0;
        receive_stream_frame_counter = 0;
        receive_stream_frame_counter_initialized = false;
        ignore_crc_mismatch = false;
      },
    )
unfolding Asc.init
init-returns raw_buffer asc in_buf out_buf p q = rw (p, q) refl

-- With the 128 bytes of memory that the struct has for them.
pub init-Initialized :
    (raw_buffer : List ℕ) (asc : Asc)
    → 128 ≤ length raw_buffer
    → Initialized (Asc.init raw_buffer asc)
init-Initialized raw_buffer asc fits =
    let first =
      ring (take 64 raw_buffer) asc.in_buf (omega (arith, length-take {0} 64 raw_buffer)) in
    let second =
      ring (drop 64 raw_buffer) asc.out_buf (omega (arith, length-drop {0} 64 raw_buffer)) in
    record {
      asc = _;
      returns = init-returns raw_buffer asc _ _ first.0 second.0;
      fresh = record { in_empty = first.1; out_empty = second.1; sent_none = refl; checks = refl };
    }
