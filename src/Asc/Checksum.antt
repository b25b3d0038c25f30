-- ===== src/Asc/Checksum.antt =====
-- ascii_serial_com_compute_checksum on a buffer that holds a frame.
use mathlib.Core.Path.{subst}
use mathlib.Core.List.{append-nil, append_assoc}
use ascii_serial_com_c.Prelude.{
  ℕ, ◌+◌, ◌-◌, ◌≤◌, ◌<◌, ◌≡◌, refl, ◌∙◌, sym, ap, Bool, true, false, List, [], ◌∷◌, ◌++◌, length,
  length-append, replicate, ltb, leb, ◌||◌, if◌then◌else◌, add_size, sub_size, Absent-append, ok,
  pure, arith, continue_assoc,
}
use ascii_serial_com_c.CircularBuffer.{CircularBuffer, get_size}
use ascii_serial_com_c.CircularBuffer.Deque
use ascii_serial_com_c.CircularBuffer.Deque.{Deque, find_first-append, find_last-append}
use ascii_serial_com_c.CircularBuffer.Search.{find_first, find_last}
use ascii_serial_com_c.CircularBuffer.Block.{get_blocks}
use ascii_serial_com_c.CircularBuffer.Becomes.{Holds, size-Holds, find_first-Holds, find_last-Holds}
use ascii_serial_com_c.Crc.Tbl4bit
use ascii_serial_com_c.Crc.Agree.{IsBytes}
use ascii_serial_com_c.Hex.{convert_uint16_to_hex}
use ascii_serial_com_c.Asc.{checksum_of, update_blocks, n_char_checksum}
use ascii_serial_com_c.Asc.Slice.{update_slice}
use ascii_serial_com_c.Asc.Frame.{
  hex4, crc_of, crc_of-lt, convert-hex4, header, checked, length-checked, IsSendable,
  checked-IsBytes,
}

module _ {cap : ℕ} (p msg r : Deque) {cb : CircularBuffer}
    (h : Holds cap (p ++ (msg ++ r)) cb) where
  total : cb.size ≡ length p + (length msg + length r)
  total = size-Holds h ∙ length-append p (msg ++ r) ∙ ap (λ n. length p + n) (length-append msg r)

  -- With the delimiters found at the ends of `msg`.
  checksum_found :
      (output_buffer : Bool) (last_start last_stop i_stop : ℕ)
      → find_last b'>' cb ≡ (ok last_start, cb)
      → find_last b'.' cb ≡ (ok last_stop, cb)
      → (if output_buffer then pure last_start else find_first b'>') cb ≡ (ok (length p), cb)
      → (if output_buffer then pure last_stop else find_first b'.') cb ≡ (ok i_stop, cb)
      → i_stop + 1 ≡ length p + length msg
      → i_stop < 59
      → 5 ≤ length msg
      → cb.i_start + length p ≤ cb.capacity
      → IsBytes msg
      → checksum_of output_buffer (replicate n_char_checksum 0) cb ≡ (ok (hex4 (crc_of msg)), cb)
  unfolding checksum_of get_size crc_of
  checksum_found output_buffer last_start last_stop i_stop e_start e_stop f_start f_stop ends lt
        five before bytes =
      let in_1 : leb cb.size (length p) ≡ false = ground (arith, total) in
      let in_2 : leb cb.size i_stop ≡ false = ground (arith, total) in
      let in_3 : leb (64 - 4 - 1) i_stop ≡ false = ground arith in
      let in_4 : (leb i_stop (length p) || ltb (sub_size i_stop (length p)) 4) ≡ false =
        ground (arith, total) in
      let n_elem : add_size (sub_size i_stop (length p)) 1 ≡ length msg = omega arith in
      rw (e_start, e_stop, f_start, f_stop)
        (rw (in_1, in_2, in_3, in_4)
          (rw n_elem (
            continue_assoc (get_blocks (length p) (length msg) cb) (update_blocks Tbl4bit.init)
              (λ crc.
                pure (
                  convert_uint16_to_hex (Tbl4bit.finalize crc) 0 true
                    (replicate n_char_checksum 0)))
            ∙ rw (update_slice p msg r Tbl4bit.init h before bytes zero_small)
                (ap (λ l. (ok l, cb)) (convert-hex4 (crc_of msg) (crc_of-lt msg bytes))))))
    where
      zero_small : Tbl4bit.init < 65536
      zero_small = unfold Tbl4bit.init in omega arith

module _ {cap : ℕ} {v a c : ℕ} {payload : List ℕ} (s : IsSendable v a c payload)
    {cb : CircularBuffer} where
  -- The output buffer with the frame at its end, up to the period.
  pub checksum_of_output :
      (pre : Deque)
      → Holds cap (pre ++ checked v a c payload) cb
      → length pre + length payload + 10 ≤ 64
      → cb.i_start + length pre ≤ cb.capacity
      → checksum_of true (replicate n_char_checksum 0) cb
        ≡ (ok (hex4 (crc_of (checked v a c payload))), cb)
  checksum_of_output pre h fits before =
      checksum_found pre (checked v a c payload) [] (subst (λ l. Holds cap l cb) ends h) true _ _
        (length pre + (length payload + 4)) start stop refl refl
        (omega (arith, length-checked v a c payload)) (omega arith)
        (omega (arith, length-checked v a c payload)) before (checked-IsBytes s)
    where
      ends : pre ++ checked v a c payload ≡ pre ++ (checked v a c payload ++ [])
      ends = ap (λ l. pre ++ l) (sym (append-nil (checked v a c payload)))

      start : find_last b'>' cb ≡ (ok (length pre), cb)
      start =
          find_last-Holds b'>' h
          ∙ ap (λ n. (ok n, cb))
              (find_last-append b'>' pre ((v ∷ a ∷ c ∷ payload) ++ (b'.' ∷ []))
                (Absent-append b'>' (v ∷ a ∷ c ∷ payload) (b'.' ∷ []) s.no_start (omega arith)))

      stop : find_last b'.' cb ≡ (ok (length pre + (length payload + 4)), cb)
      stop =
          find_last-Holds b'.' h
          ∙ ap (λ q. (ok (Deque.find_last b'.' q), cb))
              (sym (append_assoc pre (header v a c payload) (b'.' ∷ [])))
          ∙ ap (λ n. (ok n, cb))
              (find_last-append b'.' (pre ++ header v a c payload) [] tt
                ∙ length-append pre (header v a c payload)
                ∙ omega arith)

  -- The input buffer with the frame at its front.
  pub checksum_of_input :
      (r : Deque)
      → Holds cap (checked v a c payload ++ r) cb
      → length payload ≤ 54
      → checksum_of false (replicate n_char_checksum 0) cb
        ≡ (ok (hex4 (crc_of (checked v a c payload))), cb)
  checksum_of_input r h fits =
      checksum_found [] (checked v a c payload) r h false _ _ (length payload + 4)
        (find_last-Holds b'>' h) (find_last-Holds b'.' h) (find_first-Holds b'>' h) stop
        (omega (arith, length-checked v a c payload)) (omega arith)
        (omega (arith, length-checked v a c payload)) (omega (arith, h.valid.shape))
        (checked-IsBytes s)
    where
      stop : find_first b'.' cb ≡ (ok (length payload + 4), cb)
      stop =
          find_first-Holds b'.' h
          ∙ ap (λ q. (ok (Deque.find_first b'.' q), cb))
              (append_assoc (header v a c payload) (b'.' ∷ []) r)
          ∙ ap (λ n. (ok n, cb))
              (find_first-append b'.' (header v a c payload) r (omega arith, s.no_period)
                ∙ omega arith)
