-- ===== src/Asc/Receive/Line.antt =====
-- A line in the input buffer: a header and payload, and the digits of a checksum, right or wrong.
use mathlib.Core.Path.{subst}
use mathlib.Core.List.{append_assoc}
use ascii_serial_com_c.Prelude.{
  ℕ, ◌+◌, ◌/◌, ◌%◌, ◌^◌, ◌≤◌, ◌<◌, ◌≡◌, ◌≢◌, refl, ◌∙◌, sym, ap, true, false, List, ◌∷◌, ◌++◌,
  length, replicate, ltb, leb, ◌==◌, Absent, Absent-append, ok, arith, length-append,
}
use ascii_serial_com_c.CircularBuffer.{CircularBuffer, get_size}
use ascii_serial_com_c.CircularBuffer.Deque.{find_first-append}
use ascii_serial_com_c.CircularBuffer.Search.{find_first}
use ascii_serial_com_c.CircularBuffer.Becomes.{Holds, Becomes, size-Holds, find_first-Holds}
use ascii_serial_com_c.CircularBuffer.Frames.{remove_front_unfinished_frames}
use ascii_serial_com_c.CircularBuffer.Frames.Resync.{resync}
use ascii_serial_com_c.Hex.{nibble_char}
use ascii_serial_com_c.Hex.RoundTrip.{nibble_char_safe}
use ascii_serial_com_c.Asc.{Asc, n_char_checksum, compute_checksum, with_in}
use ascii_serial_com_c.Asc.Checksum.{checksum_of_input}
use ascii_serial_com_c.Asc.Frame.{hex4, crc_of, header, checked, IsSendable}
use ascii_serial_com_c.Asc.Receive.{
  char_sign, Message, expected_checksum, read_frame, read_ended, get_message_from_input_buffer,
}
use ascii_serial_com_c.Asc.Receive.Parts.{receiver}

-- Up to and with the line feed, and what follows it.
abbrev pub line : ℕ → ℕ → ℕ → List ℕ → ℕ → List ℕ → List ℕ
line v a c payload n q = header v a c payload ++ (b'.' ∷ (hex4 n ++ (0x0a ∷ q)))

hex4-Absent : (x n : ℕ) → ((k : ℕ) → k < 16 → nibble_char k true ≢ x) → Absent x (hex4 n)
unfolding hex4
hex4-Absent x n safe = (
  safe (n / 16 ^ 3 % 16) (omega arith),
  (
    safe (n / 16 ^ 2 % 16) (omega arith),
    (safe (n / 16 ^ 1 % 16) (omega arith), (safe (n / 16 ^ 0 % 16) (omega arith), tt)),
  ),
)

-- A line in the forms in which the parser meets it.
module _ (v a c : ℕ) (payload : List ℕ) (n : ℕ) where
  abbrev body : List ℕ
  body = v ∷ a ∷ c ∷ (payload ++ (b'.' ∷ hex4 n))

  length-body : length body ≡ length payload + 8
  unfolding hex4
  length-body = omega (arith, length-append {0} payload (b'.' ∷ hex4 n))

  as_body : (q : List ℕ) → line v a c payload n q ≡ (b'>' ∷ body) ++ (0x0a ∷ q)
  as_body q = simp append_assoc

  pub line-checked :
      (q : List ℕ) → line v a c payload n q ≡ checked v a c payload ++ (hex4 n ++ (0x0a ∷ q))
  line-checked q = simp append_assoc

  as_framed :
      (junk q : List ℕ) → junk ++ line v a c payload n q ≡ (junk ++ (b'>' ∷ body)) ++ (0x0a ∷ q)
  as_framed junk q =
      ap (λ l. junk ++ l) (as_body q) ∙ sym (append_assoc junk (b'>' ∷ body) (0x0a ∷ q))

module _ {v a c : ℕ} {payload : List ℕ} (s : IsSendable v a c payload) (n : ℕ) where
  no_newline_inside : Absent 0x0a (body v a c payload n)
  no_newline_inside =
      Absent-append 0x0a (v ∷ a ∷ c ∷ payload) (b'.' ∷ hex4 n) s.no_newline
        (omega arith, hex4-Absent 0x0a n (λ k h. (nibble_char_safe k h).2))

  no_start_inside : Absent b'>' (body v a c payload n)
  no_start_inside =
      Absent-append b'>' (v ∷ a ∷ c ∷ payload) (b'.' ∷ hex4 n) s.no_start
        (omega arith, hex4-Absent b'>' n (λ k h. (nibble_char_safe k h).0))

module _ {cap v a c : ℕ} {payload : List ℕ} (s : IsSendable v a c payload) (n : ℕ)
    (q : List ℕ) where
  pub period_found :
      {cb : CircularBuffer}
      → Holds cap (line v a c payload n q) cb
      → find_first b'.' cb ≡ (ok (length payload + 4), cb)
  period_found {cb} h =
      find_first-Holds b'.' h
      ∙ ap (λ k. (ok k, cb))
          (find_first-append b'.' (header v a c payload) (hex4 n ++ (0x0a ∷ q))
              (omega arith, s.no_period)
            ∙ omega arith)

-- The line is at the front of the buffer, and the parser has found its end.
pub record AtFront (cap : ℕ) (l : List ℕ) (i_end : ℕ) (asc : Asc) (m : Message) : Type 0 where
  pub front : CircularBuffer
  pub holds : Holds cap l front
  pub goes_on :
      get_message_from_input_buffer (record { asc = asc; message = m })
      ≡ read_ended i_end (receiver asc front m)

module _ {cap v a c : ℕ} {payload : List ℕ} (s : IsSendable v a c payload) (n : ℕ)
    (junk q : List ℕ) where
  -- The unfinished frames and the other bytes in front are removed.
  brought_to_front :
      {cb : CircularBuffer}
      → Holds cap (junk ++ line v a c payload n q) cb
      → Absent 0x0a junk
      → Becomes cap
          (remove_front_unfinished_frames char_sign b'>' 0x0a cb)
          (length junk)
          (line v a c payload n q)
  brought_to_front {cb} h clean =
      subst (Becomes cap (remove_front_unfinished_frames char_sign b'>' 0x0a cb) (length junk))
        (sym (as_body v a c payload n q))
        (resync junk b'>' (body v a c payload n) 0x0a q {cap = cap} {cb = cb} char_sign
          (omega arith) (subst (λ l. Holds cap l cb) (as_framed v a c payload n junk q) h) clean
          (omega arith) (no_newline_inside s n) (no_start_inside s n))

  newline_found :
      {cb : CircularBuffer}
      → Holds cap (line v a c payload n q) cb
      → find_first 0x0a cb ≡ (ok (length payload + 9), cb)
  newline_found {cb} h =
      find_first-Holds 0x0a (subst (λ l. Holds cap l cb) (as_body v a c payload n q) h)
      ∙ ap (λ k. (ok k, cb))
          (find_first-append 0x0a (b'>' ∷ body v a c payload n) q
              (omega arith, no_newline_inside s n)
            ∙ omega (arith, length-body v a c payload n))

  pub get_message-AtFront :
      (asc : Asc) (m : Message)
      → Holds cap (junk ++ line v a c payload n q) asc.in_buf
      → Absent 0x0a junk
      → length payload ≤ 54
      → AtFront cap (line v a c payload n q) (length payload + 9) asc m
  unfolding get_message_from_input_buffer get_size
  get_message-AtFront asc m h clean short =
      let front = brought_to_front h clean in
      let all_there : length (line v a c payload n q)
          ≡ length (b'>' ∷ body v a c payload n) + length (0x0a ∷ q) =
        ap length (as_body v a c payload n q)
        ∙ length-append (b'>' ∷ body v a c payload n) (0x0a ∷ q) in
      let nonempty : (asc.in_buf.size == 0) ≡ false =
        ground (arith, size-Holds h, length-append {0} junk (line v a c payload n q)) in
      let ended : leb front.after.size (length payload + 9) ≡ false =
        ground (arith, size-Holds front.holds, all_there, length-body v a c payload n) in
      record {
        front = front.after;
        holds = front.holds;
        goes_on = rw (nonempty, front.returns, newline_found front.holds, ended) refl;
      }

module _ {cap v a c : ℕ} {payload : List ℕ} (s : IsSendable v a c payload) (n : ℕ) (q : List ℕ)
    (asc : Asc) (m : Message) (cb : CircularBuffer)
    (h : Holds cap (line v a c payload n q) cb) where
  compute_checksum-crc :
      length payload ≤ 54
      → compute_checksum (replicate n_char_checksum 0) false (record asc { in_buf = cb })
        ≡ (ok (hex4 (crc_of (checked v a c payload))), record asc { in_buf = cb })
  unfolding compute_checksum
  compute_checksum-crc short = ap (with_in asc) (
      checksum_of_input s (hex4 n ++ (0x0a ∷ q))
        (subst (λ l. Holds cap l cb) (line-checked v a c payload n q) h) short)

  -- Unless the checksum is ignored, it is computed from the header and the payload.
  pub expected_checksum-crc :
      asc.ignore_crc_mismatch ≡ false
      → length payload ≤ 54
      → expected_checksum (receiver asc cb m)
        ≡ (ok (hex4 (crc_of (checked v a c payload))), receiver asc cb m)
  unfolding expected_checksum
  expected_checksum-crc off short = ground (arith, off, compute_checksum-crc short)

  pub read_ended-read_frame :
      (computed : List ℕ)
      → expected_checksum (receiver asc cb m) ≡ (ok computed, receiver asc cb m)
      → length payload < 256
      → read_ended (length payload + 9) (receiver asc cb m)
        ≡ read_frame (length payload + 4) computed (receiver asc cb m)
  unfolding read_ended
  read_ended-read_frame computed e short =
      let in_order : ltb (length payload + 9) (length payload + 4) ≡ false = ground arith in
      rw (period_found s n q h, in_order, e) refl
