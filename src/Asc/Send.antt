-- ===== src/Asc/Send.antt =====
-- ascii_serial_com_put_message_in_output_buffer appends exactly the frame.
use mathlib.Core.Path.{subst}
use mathlib.Core.List.{append_assoc}
use ascii_serial_com_c.Prelude.{
  ℕ, suc, ◌+◌, ◌≤◌, ◌≡◌, refl, ◌∙◌, sym, ap, true, false, List, [], ◌∷◌, ◌++◌, length,
  length-append, replicate, ltb, Reads, Reads-append, Outcome, ok, arith,
}
use ascii_serial_com_c.CircularBuffer.{CircularBuffer, push_back}
use ascii_serial_com_c.CircularBuffer.Pushes.{HoldsAt, push_all, push_all-HoldsAt, push_all-append}
use ascii_serial_com_c.Asc.{
  Asc, n_char_checksum, max_message_len, checksum_of, compute_checksum, push_chars, with_out,
  put_message_in_output_buffer,
}
use ascii_serial_com_c.Asc.Frame.{
  hex4, crc_of, header, checked, ending, frame, IsSendable, length-checked, length-ending,
}
use ascii_serial_com_c.Asc.Checksum.{checksum_of_output}

push_chars_lem :
    (array : List ℕ) (xs : List ℕ) (i : ℕ) (cb : CircularBuffer)
    → Reads array i xs
    → push_chars array (length xs) i cb ≡ (ok tt, push_all xs cb)
unfolding push_chars push_all
push_chars_lem array [] i cb h = refl
push_chars_lem array (x ∷ xs) i cb h =
    rw (h.0, push_chars)
      (ap (λ k. push_chars array (length xs) k (push_back x cb)) (omega arith)
        ∙ push_chars_lem array xs (suc i) (push_back x cb) h.1)

compute_checksum_output :
    (checksum_out : List ℕ) (asc : Asc)
    → compute_checksum checksum_out true asc
      ≡ with_out asc (checksum_of true checksum_out asc.out_buf)
unfolding compute_checksum
compute_checksum_output checksum_out asc = refl

push_chars-hex4 :
    (n : ℕ) (cb : CircularBuffer)
    → push_chars (hex4 n) n_char_checksum 0 cb ≡ (ok tt, push_all (hex4 n) cb)
unfolding hex4
push_chars-hex4 n cb = push_chars_lem (hex4 n) (hex4 n) 0 cb (Reads-append (hex4 n) [])

push_period :
    (v a c : ℕ) (payload : List ℕ) (cb : CircularBuffer)
    → push_back b'.'
        (push_all payload (push_back c (push_back a (push_back v (push_back b'>' cb)))))
      ≡ push_all (checked v a c payload) cb
unfolding push_all
push_period v a c payload cb = sym (push_all-append payload (b'.' ∷ []) _)

push_ending :
    (v a c : ℕ) (payload : List ℕ) (cb : CircularBuffer)
    → push_back 0x0a (push_all (hex4 (crc_of (checked v a c payload))) cb)
      ≡ push_all (ending v a c payload) cb
unfolding ending push_all
push_ending v a c payload cb =
    sym (push_all-append (hex4 (crc_of (checked v a c payload))) (0x0a ∷ []) cb)

module _ (v a c : ℕ) (bytes payload : List ℕ) (asc : Asc) where
  -- The ring after the pushes before the checksum, and after all of them.
  abbrev body_pushed : CircularBuffer
  body_pushed = push_all (checked v a c payload) asc.out_buf

  abbrev all_pushed : CircularBuffer
  all_pushed = push_all (ending v a c payload) body_pushed

  put_pushes :
      Reads bytes 0 payload
      → length payload ≤ 54
      → checksum_of true (replicate n_char_checksum 0) body_pushed
        ≡ (ok (hex4 (crc_of (checked v a c payload))), body_pushed)
      → put_message_in_output_buffer v a c bytes (length payload) asc
        ≡ (ok tt, record asc { out_buf = all_pushed })
  unfolding put_message_in_output_buffer
  put_pushes reads short sum =
      let in_range : ltb 54 (length payload) ≡ false = ground arith in
      rw (in_range, push_chars_lem bytes payload 0 _ reads)
        (rw
          (
            compute_checksum_output (replicate n_char_checksum 0) (record asc {
              out_buf = push_back b'.' (
                  push_all payload
                    (push_back c (push_back a (push_back v (push_back b'>' asc.out_buf)))));
            }),
            body,
            sum,
            push_chars-hex4 (crc_of (checked v a c payload)) body_pushed,
          )
          (ap (λ cb. (ok tt, record asc { out_buf = cb })) (push_ending v a c payload body_pushed)))
    where
      body :
          push_back b'.' (
            push_all payload (push_back c (push_back a (push_back v (push_back b'>' asc.out_buf)))))
          ≡ body_pushed
      body = push_period v a c payload asc.out_buf

-- What sending leaves: the frame behind what the ring held, and all else unchanged.
pub record Sent (v a c : ℕ) (payload pre : List ℕ) (start : ℕ) (asc : Asc)
    (result : Outcome (Unit {0}) × Asc) : Type 0 where
  pub out : CircularBuffer
  pub returns : result ≡ (ok tt, record asc { out_buf = out })
  pub holds : HoldsAt max_message_len start (pre ++ frame v a c payload) out

module _ {v a c : ℕ} {payload pre : List ℕ} {start : ℕ} (s : IsSendable v a c payload) where
  -- If the frame of a sendable message fits behind what a valid output buffer of 64 bytes holds,
  -- and does not start in the part of the storage that has wrapped around,
  -- put_message_in_output_buffer returns normally, appends exactly '>', the versions, the command,
  -- the payload, '.', four digits of the checksum of all these, and a line feed, and changes
  -- nothing else.
  pub put_message-Sent :
      (bytes : List ℕ) (asc : Asc)
      → HoldsAt max_message_len start pre asc.out_buf
      → Reads bytes 0 payload
      → length pre + length payload + 10 ≤ max_message_len
      → start + length pre ≤ max_message_len
      → Sent v a c payload pre start asc
          (put_message_in_output_buffer v a c bytes (length payload) asc)
  put_message-Sent bytes asc h reads fits before = record {
    out = all_pushed v a c bytes payload asc;
    returns = put_pushes v a c bytes payload asc reads (omega arith) (
        checksum_of_output s pre body.holds fits
          (omega (arith, body.holds.same_capacity, body.same_start)));
    holds =
        subst (λ l. HoldsAt max_message_len start l (all_pushed v a c bytes payload asc))
          (append_assoc pre (checked v a c payload) (ending v a c payload)
            ∙ ap (λ l. pre ++ l)
                (append_assoc (header v a c payload) (b'.' ∷ []) (ending v a c payload)))
          (push_all-HoldsAt (ending v a c payload) body (
            omega (
              arith,
              length-append {0} pre (checked v a c payload),
              length-checked v a c payload,
              length-ending v a c payload,
            )));
  }
    where
      body :
          HoldsAt max_message_len start
            (pre ++ checked v a c payload)
            (body_pushed v a c bytes payload asc)
      body =
          push_all-HoldsAt (checked v a c payload) h (omega (arith, length-checked v a c payload))
