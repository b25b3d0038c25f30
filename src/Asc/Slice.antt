-- ===== src/Asc/Slice.antt =====
-- The blocks that get_blocks gives are the elements asked for, as long as the first of them lies
-- before the end of the storage; past it, the size of the first block wraps.
use ascii_serial_com_c.Prelude.{
  ℕ, zero, suc, ◌+◌, ◌-◌, ◌≤◌, ◌<◌, ◌≡◌, inl, inr, refl, ◌∙◌, sym, ap, ap₂, List, ◌++◌, length,
  get_or, get_elem?-eq-get_or, take, drop, take-append, drop-append, span, span_ext, span_append,
  drop-span, take-span, ltb, none, some, ok, fault, ◌>>=◌, arith, length-append, Bool-cases, ltb→lt,
  size_mod,
}
use ascii_serial_com_c.CircularBuffer.{CircularBuffer}
use ascii_serial_com_c.CircularBuffer.Deque.{Deque}
use ascii_serial_com_c.CircularBuffer.Inv.{IsValid, IsShaped}
use ascii_serial_com_c.CircularBuffer.Window.{byte_at}
use ascii_serial_com_c.CircularBuffer.Refine.{contents, length-contents, get_elem?-out}
use ascii_serial_com_c.CircularBuffer.Becomes.{Holds}
use ascii_serial_com_c.CircularBuffer.Block.{get_blocks}
use ascii_serial_com_c.Crc.Tbl4bit
use ascii_serial_com_c.Crc.Agree.{IsBytes, update-append}
use ascii_serial_com_c.Asc.{read_block, update_block, update_blocks}

abbrev raw : List ℕ → ℕ → ℕ
raw buffer i = get_or buffer i 0

read_block_lem :
    (buffer : List ℕ) (start len : ℕ)
    → start + len ≤ length buffer
    → read_block buffer start len ≡ some (span (raw buffer) start len)
unfolding read_block
read_block_lem buffer start zero h = refl
read_block_lem buffer start (suc len) h =
    ground (arith, get_elem?-eq-get_or buffer start 0, read_block_lem buffer (start + 1) len)

-- Elements `length p` to `length p + length msg` of what a ring holds.
module _ (p msg r : Deque) (cb : CircularBuffer) (e : contents cb ≡ p ++ (msg ++ r)) where
  open cb use {capacity, size, i_start, buffer}

  size_lem : size ≡ length p + (length msg + length r)
  size_lem =
      sym (length-contents cb)
      ∙ ap length e
      ∙ length-append p (msg ++ r)
      ∙ ap (λ n. length p + n) (length-append msg r)

  slice_lem : span (byte_at buffer capacity i_start) (length p) (length msg) ≡ msg
  slice_lem =
      sym (
        take-span (byte_at buffer capacity i_start) (length p) (size - length p) (length msg)
          (omega (arith, size_lem)))
      ∙ ap (take (length msg)) (from_p ∙ ap (drop (length p)) e ∙ drop-append p (msg ++ r))
      ∙ take-append msg r
    where
      from_p :
          span (byte_at buffer capacity i_start) (length p) (size - length p)
          ≡ drop (length p) (contents cb)
      from_p =
          ap (λ k. span (byte_at buffer capacity i_start) k (size - length p)) (omega arith)
          ∙ sym (
              drop-span (byte_at buffer capacity i_start) 0 size (length p)
                (omega (arith, size_lem)))

-- The bytes of the storage from an element's place on, up to the end of the storage.
unwrapped :
    (buffer : List ℕ) (cap start s n : ℕ)
    → start + s + n ≤ cap
    → span (raw buffer) (start + s) n ≡ span (byte_at buffer cap start) s n
unwrapped buffer cap start s n h =
    span_ext (raw buffer) (byte_at buffer cap start) (start + s) s n
      λ j lt. ap (raw buffer) (ground arith)

-- Those at the start of the storage are the elements that come round.
wrapped :
    (buffer : List ℕ) (cap start s n : ℕ)
    → start + s ≡ cap
    → n ≤ start
    → 0 < cap
    → span (raw buffer) 0 n ≡ span (byte_at buffer cap start) s n
wrapped buffer cap start s n e h pos =
    span_ext (raw buffer) (byte_at buffer cap start) 0 s n λ j lt. ap (raw buffer) (ground arith)

get_blocks_one :
    (cb : CircularBuffer) (s n : ℕ)
    → IsShaped cb
    → s + n ≤ cb.size
    → cb.i_start + s + n ≤ cb.capacity
    → get_blocks s n cb ≡ (
      ok (record {
        n_blocks = 1;
        first = record { start = cb.i_start + s; len = n };
        second = none;
      }),
      cb,
    )
unfolding get_blocks
get_blocks_one cb s n shape h fits = ground (arith, shape)

get_blocks_two :
    (cb : CircularBuffer) (s n : ℕ)
    → IsShaped cb
    → s + n ≤ cb.size
    → cb.i_start + s ≤ cb.capacity
    → cb.capacity < cb.i_start + s + n
    → get_blocks s n cb ≡ (
      ok (record {
        n_blocks = 2;
        first = record { start = cb.i_start + s; len = cb.capacity - cb.i_start - s };
        second = some (record { start = 0; len = n - (cb.capacity - cb.i_start - s) });
      }),
      cb,
    )
unfolding get_blocks
get_blocks_two cb s n shape h before over = ground (arith, shape)

update_block_lem :
    (crc start len : ℕ) (cb : CircularBuffer)
    → start + len ≤ length cb.buffer
    → update_block crc (record { start = start; len = len }) cb
      ≡ (ok (Tbl4bit.update crc (span (raw cb.buffer) start len)), cb)
unfolding update_block
update_block_lem crc start len cb h = ground (arith, read_block_lem cb.buffer start len h)

update_blocks_one :
    (crc start len n : ℕ) (cb : CircularBuffer)
    → start + len ≤ length cb.buffer
    → update_blocks crc
        (record { n_blocks = n; first = record { start = start; len = len }; second = none })
        cb
      ≡ (ok (Tbl4bit.update crc (span (raw cb.buffer) start len)), cb)
unfolding update_blocks
update_blocks_one crc start len n cb h = ground (arith, update_block_lem crc start len cb h)

update_blocks_two :
    (crc start len start' len' n : ℕ) (cb : CircularBuffer)
    → start + len ≤ length cb.buffer
    → start' + len' ≤ length cb.buffer
    → update_blocks crc
        (record {
          n_blocks = n;
          first = record { start = start; len = len };
          second = some (record { start = start'; len = len' });
        })
        cb
      ≡ (
        ok (
            Tbl4bit.update
              (Tbl4bit.update crc (span (raw cb.buffer) start len))
              (span (raw cb.buffer) start' len')),
        cb,
      )
unfolding update_blocks
update_blocks_two crc start len start' len' n cb h h' = ground (
  arith,
  update_block_lem crc start len cb h,
  update_block_lem (Tbl4bit.update crc (span (raw cb.buffer) start len)) start' len' cb h',
)

module _ {cap : ℕ} (p msg r : Deque) {cb : CircularBuffer} (crc : ℕ)
    (h : Holds cap (p ++ (msg ++ r)) cb) where
  open cb use {capacity, size, i_start, buffer}

  sizes : size ≡ length p + (length msg + length r)
  sizes = size_lem p msg r cb h.held

  in_one_block :
      i_start + length p + length msg ≤ capacity
      → (do blocks ← get_blocks (length p) (length msg); update_blocks crc blocks) cb
        ≡ (ok (Tbl4bit.update crc msg), cb)
  in_one_block fits =
      rw (get_blocks_one cb (length p) (length msg) h.valid.shape (omega (arith, sizes)) fits) (
        update_blocks_one crc (i_start + length p) (length msg) 1 cb
          (omega (arith, fits, h.valid.shape))
        ∙ ap (λ l. (ok (Tbl4bit.update crc l), cb))
            (unwrapped buffer capacity i_start (length p) (length msg) fits
              ∙ slice_lem p msg r cb h.held))

  in_two_blocks :
      i_start + length p ≤ capacity
      → capacity < i_start + length p + length msg
      → IsBytes msg
      → crc < 65536
      → (do blocks ← get_blocks (length p) (length msg); update_blocks crc blocks) cb
        ≡ (ok (Tbl4bit.update crc msg), cb)
  in_two_blocks before over bytes lt =
      rw
        (get_blocks_two cb (length p) (length msg) h.valid.shape (omega (arith, sizes)) before over)
        (update_blocks_two crc (i_start + length p) n_1 0 n_2 2 cb
            (omega (arith, before, h.valid.shape)) (omega (arith, sizes, before, h.valid.shape))
          ∙ ap (λ c. (ok c, cb))
              (update-append first second crc (rw whole bytes) lt ∙ ap (Tbl4bit.update crc) whole))
    where
      n_1 : ℕ
      n_1 = capacity - i_start - length p

      n_2 : ℕ
      n_2 = length msg - n_1

      first : List ℕ
      first = span (raw buffer) (i_start + length p) n_1

      second : List ℕ
      second = span (raw buffer) 0 n_2

      whole : first ++ second ≡ msg
      whole =
          ap₂ ◌++◌ (unwrapped buffer capacity i_start (length p) n_1 (omega (arith, before))) (
            wrapped buffer capacity i_start (length p + n_1) n_2 (omega (arith, before))
              (omega (arith, sizes, before, over, h.valid.shape)) (omega (arith, h.valid.shape)))
          ∙ sym (span_append (byte_at buffer capacity i_start) (length p) n_1 n_2)
          ∙ ap (span (byte_at buffer capacity i_start) (length p)) (omega (arith, over, before))
          ∙ slice_lem p msg r cb h.held

  -- If a valid buffer holds a stretch of bytes that does not start in the part of the storage that
  -- has wrapped around, get_blocks for that stretch and the loop of the checksum over its one or
  -- two blocks give the checksum of exactly those bytes in order.
  pub update_slice :
      i_start + length p ≤ capacity
      → IsBytes msg
      → crc < 65536
      → (do blocks ← get_blocks (length p) (length msg); update_blocks crc blocks) cb
        ≡ (ok (Tbl4bit.update crc msg), cb)
  update_slice before bytes lt =
      elim (Bool-cases (ltb capacity (i_start + length p + length msg))) [
        | inl over ↦ in_two_blocks before (ltb→lt _ _ over) bytes lt
        | inr fits ↦ in_one_block (ground arith)
      ]

read_block_out :
    (buffer : List ℕ) (start len : ℕ)
    → length buffer ≤ start
    → 0 < len
    → read_block buffer start len ≡ none
unfolding read_block
read_block_out buffer start zero h p = elim p [ ]
read_block_out buffer start (suc len) h p = ground (arith, get_elem?-out buffer start h)

get_blocks_past :
    (cb : CircularBuffer) (s n : ℕ)
    → IsShaped cb
    → s + n ≤ cb.size
    → 0 < n
    → cb.capacity < cb.i_start + s
    → get_blocks s n cb ≡ (
      ok (record {
        n_blocks = 2;
        first = record { start = cb.i_start + s; len = size_mod + cb.capacity - cb.i_start - s };
        second = some (record { start = 0; len = n + cb.i_start + s - cb.capacity });
      }),
      cb,
    )
unfolding get_blocks
get_blocks_past cb s n shape h pos past = ground (arith, shape)

-- If a non-empty stretch of a valid buffer starts beyond the end of the storage, in the part that
-- has wrapped around, get_blocks succeeds but the loop of the checksum over its blocks reads
-- outside the storage.
pub update_past_end :
    {cb : CircularBuffer} (s n crc : ℕ)
    → IsValid cb
    → length cb.buffer ≡ cb.capacity
    → s + n ≤ cb.size
    → 0 < n
    → cb.capacity < cb.i_start + s
    → (do blocks ← get_blocks s n; update_blocks crc blocks) cb ≡ (fault, cb)
unfolding update_blocks update_block
update_past_end {cb} s n crc v exact h pos past = rw (get_blocks_past cb s n v.shape h pos past) (
    ground (
      arith,
      v.shape,
      read_block_out cb.buffer (cb.i_start + s) (size_mod + cb.capacity - cb.i_start - s),
    ))
