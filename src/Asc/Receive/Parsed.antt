-- ===== src/Asc/Receive/Parsed.antt =====
-- The parser on a line at the front of the buffer, whatever checksum the line has.
use ascii_serial_com_c.Prelude.{
  ℕ, ◌+◌, ◌≤◌, ◌<◌, ◌≡◌, ap, true, false, List, ◌∷◌, ◌++◌, length, ◌||◌, sub_size, Absent, ok,
  arith,
}
use ascii_serial_com_c.CircularBuffer.{CircularBuffer}
use ascii_serial_com_c.CircularBuffer.Becomes.{Holds, pop_front-Becomes}
use ascii_serial_com_c.Asc.{Asc}
use ascii_serial_com_c.Asc.Frame.{hex4}
use ascii_serial_com_c.Asc.Receive.{Message, same_chars, read_frame}
use ascii_serial_com_c.Asc.Receive.Parts.{
  receiver, fill, payload_loop-Copied, hex4_misplaced-false, pop_hex4-Becomes,
}
use ascii_serial_com_c.Asc.Receive.Line.{line}

-- The variables after all but the comparison of the checksums.
abbrev pub filled : ℕ → ℕ → ℕ → List ℕ → Message → Message
filled v a c payload m = record {
  asc_version = v;
  app_version = a;
  command = c;
  bytes = fill m.bytes 0 payload;
  data_len = length payload;
}

-- The parser with the line feed at the front, the checksums compared.
pub record Parsed (cap v a c : ℕ) (payload : List ℕ) (n : ℕ) (q computed : List ℕ) (asc : Asc)
    (m : Message) (cb : CircularBuffer) : Type 0 where
  pub after : CircularBuffer
  pub holds : Holds cap q after
  pub agreed :
      (asc.ignore_crc_mismatch || same_chars (hex4 n) computed) ≡ true
      → read_frame (length payload + 4) computed (receiver asc cb m)
        ≡ (ok tt, receiver asc after (filled v a c payload m))
  pub differed :
      (asc.ignore_crc_mismatch || same_chars (hex4 n) computed) ≡ false
      → read_frame (length payload + 4) computed (receiver asc cb m) ≡ (
        ok tt,
        receiver asc after (record (filled v a c payload m) { command = 0; data_len = 0 }),
      )

module _ {cap v a c : ℕ} (payload q : List ℕ) (asc : Asc) (m : Message) (n : ℕ)
    (cb : CircularBuffer) where
  pub read_frame-Parsed :
      (computed : List ℕ)
      → Holds cap (line v a c payload n q) cb
      → Absent b'.' payload
      → length payload ≤ length m.bytes
      → length payload < 256
      → Parsed cap v a c payload n q computed asc m cb
  unfolding read_frame
  read_frame-Parsed computed h absent fits short =
      let p_0 = pop_front-Becomes h in
      let p_1 = pop_front-Becomes p_0.holds in
      let p_2 = pop_front-Becomes p_1.holds in
      let p_3 = pop_front-Becomes p_2.holds in
      let m' : Message = record m { asc_version = v; app_version = a; command = c; data_len = 0 } in
      let copied =
        payload_loop-Copied payload (b'.' ∷ (hex4 n ++ (0x0a ∷ q))) asc p_3.after m' 0 p_3.holds
          absent (omega arith) in
      let p_4 = pop_front-Becomes copied.holds in
      let digits = pop_hex4-Becomes n q p_4.holds in
      let p_5 = pop_front-Becomes digits.holds in
      let total : 0 + length payload ≡ length payload = omega arith in
      let rounds : sub_size (length payload + 4) 4 ≡ length payload = omega arith in
      record {
        after = p_5.after;
        holds = p_5.holds;
        agreed = λ agree.
            rw
              (
                p_0.returns,
                p_1.returns,
                p_2.returns,
                p_3.returns,
                rounds,
                copied.returns,
                p_4.returns,
                hex4_misplaced-false n q p_4.holds,
                digits.returns,
                agree,
                p_5.returns,
              )
              (ap
                (λ k. (
                  ok tt,
                  receiver asc p_5.after (record (filled v a c payload m) { data_len = k }),
                ))
                total);
        differed = λ differ. rw (
          p_0.returns,
          p_1.returns,
          p_2.returns,
          p_3.returns,
          rounds,
          copied.returns,
          p_4.returns,
          hex4_misplaced-false n q p_4.holds,
          digits.returns,
          differ,
          p_5.returns,
        );
      }
