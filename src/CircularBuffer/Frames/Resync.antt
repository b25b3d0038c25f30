-- ===== src/CircularBuffer/Frames/Resync.antt =====
-- How remove_front_unfinished_frames brings a finished frame to the front.
use ascii_serial_com_c.Prelude.{
  ℕ, zero, suc, ◌+◌, ◌-◌, ◌≤◌, ◌<◌, ◌≡◌, ◌≢◌, ◌⊎◌, inl, inr, ◌∙◌, sym, ap, ◌∷◌, ◌++◌, ◌==◌, leb,
  length, arith, ok, none, some, get_or, Absent, get_or-Absent, get_or-append_left,
  get_or-append_right, length-append, Absent-append, true, false, ◌>>=◌, ◌>>◌, pure, add_size,
}
use ascii_serial_com_c.CircularBuffer.{CircularBuffer, pop_front}
use mathlib.Core.Path.{subst}
use mathlib.Core.List.{append_assoc}
use ascii_serial_com_c.CircularBuffer.Block.{pop_front_times}
use ascii_serial_com_c.CircularBuffer.Search.{discard, find_first}
use ascii_serial_com_c.CircularBuffer.Deque.{Deque, find_first-append}
use ascii_serial_com_c.CircularBuffer.Becomes.{
  Holds, Becomes, size-Holds, get_element-Holds, pop_front_times-Becomes, find_first-Holds,
}
use ascii_serial_com_c.CircularBuffer.Frames.{
  CharSign, char_is, back_to_start, without_end, remove_loop, remove_front_unfinished_frames,
}

char_is-true :
    (sign : CharSign) {x start_char : ℕ}
    → start_char < 128
    → x ≡ start_char
    → char_is sign x start_char ≡ true
unfolding char_is
char_is-true CharSign.signed ascii e = ground arith
char_is-true CharSign.unsigned ascii e = ground arith

char_is-false :
    (sign : CharSign) {x start_char : ℕ} → x ≢ start_char → char_is sign x start_char ≡ false
unfolding char_is
char_is-false CharSign.signed ne = ground arith
char_is-false CharSign.unsigned ne = ground arith

le_suc_cases : (i j : ℕ) → j ≤ suc i → (j ≡ suc i) ⊎ (j ≤ i)
le_suc_cases i j h = grind arith

module _ {cap : ℕ} {cb : CircularBuffer} {q : Deque} (h : Holds cap q cb) (sign : CharSign)
    (start_char : ℕ) where
  -- The loop stops at the last `start_char` at or below `i`.
  pub back_to_start_found :
      (i j : ℕ)
      → i < length q
      → j ≤ i
      → start_char < 128
      → get_or q j 0 ≡ start_char
      → ((k : ℕ) → j < k → k ≤ i → get_or q k 0 ≢ start_char)
      → back_to_start sign start_char i cb ≡ (ok (some j), cb)
  unfolding back_to_start
  back_to_start_found zero j lt le ascii here none_between =
      let yes : char_is sign (get_or q 0 0) start_char ≡ true =
        char_is-true sign ascii (ap (λ k. get_or q k 0) (omega arith) ∙ here) in
      ground (arith, get_element-Holds 0 q h lt)
  back_to_start_found (suc i) j lt le ascii here none_between = elim (le_suc_cases i j le) [
    | inl e ↦
        let yes : char_is sign (get_or q (suc i) 0) start_char ≡ true =
          char_is-true sign ascii (ap (λ k. get_or q k 0) (sym e) ∙ here) in
        ground (arith, get_element-Holds (suc i) q h lt, e)
    | inr below ↦
        let no : char_is sign (get_or q (suc i) 0) start_char ≡ false =
          char_is-false sign (none_between (suc i) (omega arith) (omega arith)) in
        rw (get_element-Holds (suc i) q h lt, no)
          (back_to_start_found i j (omega arith) below ascii here
            (λ k p r. none_between k p (omega arith)))
  ]

-- One round of the function on each of its branches, by what the searches find.
module _ {cb : CircularBuffer} (sign : CharSign) (start_char end_char fuel i_end : ℕ) where
  pub round_found :
      (i : ℕ)
      → find_first end_char cb ≡ (ok i_end, cb)
      → i_end < cb.size
      → 0 < i_end
      → back_to_start sign start_char (i_end - 1) cb ≡ (ok (some i), cb)
      → remove_loop sign start_char end_char (suc fuel) cb ≡ (do pop_front_times i; pure i) cb
  unfolding remove_loop
  round_found i found lt pos back =
      let in_size : leb cb.size i_end ≡ false = ground arith in
      let not_first : (i_end == 0) ≡ false = ground arith in rw (found, in_size, not_first, back)

  pub round_no_start :
      find_first end_char cb ≡ (ok i_end, cb)
      → i_end < cb.size
      → 0 < i_end
      → back_to_start sign start_char (i_end - 1) cb ≡ (ok none, cb)
      → remove_loop sign start_char end_char (suc fuel) cb
        ≡ (do
          pop_front_times (i_end + 1)
          n ← remove_loop sign start_char end_char fuel
          pure (add_size (i_end + 1) n))
            cb
  unfolding remove_loop
  round_no_start found lt pos back =
      let in_size : leb cb.size i_end ≡ false = ground arith in
      let not_first : (i_end == 0) ≡ false = ground arith in rw (found, in_size, not_first, back)

  pub round_leading :
      find_first end_char cb ≡ (ok i_end, cb)
      → i_end < cb.size
      → i_end ≡ 0
      → remove_loop sign start_char end_char (suc fuel) cb
        ≡ (do discard pop_front; remove_loop sign start_char end_char fuel) cb
  unfolding remove_loop
  round_leading found lt e =
      let in_size : leb cb.size i_end ≡ false = ground arith in
      let first : (i_end == 0) ≡ true = ground arith in rw (found, in_size, first)

  pub round_no_end :
      find_first end_char cb ≡ (ok i_end, cb)
      → cb.size ≤ i_end
      → remove_loop sign start_char end_char (suc fuel) cb ≡ without_end start_char cb
  unfolding remove_loop
  round_no_end found le = let out : leb cb.size i_end ≡ true = ground arith in rw (found, out)

-- Reads in `junk ++ start ∷ body ++ end ∷ rest`.
module _ (junk : Deque) (start_char : ℕ) (body : Deque) (end_char : ℕ) (rest : Deque) where
  abbrev framed : Deque
  framed = (junk ++ (start_char ∷ body)) ++ (end_char ∷ rest)

  abbrev end_at : ℕ
  end_at = length (junk ++ (start_char ∷ body))

  end_at_lem : end_at ≡ length junk + suc (length body)
  end_at_lem = length-append junk (start_char ∷ body)

  framed_at :
      (k : ℕ)
      → k < suc (length body)
      → get_or framed (length junk + k) 0 ≡ get_or (start_char ∷ body) k 0
  framed_at k h =
      get_or-append_left (junk ++ (start_char ∷ body)) (end_char ∷ rest) (length junk + k) 0
        (omega (arith, end_at_lem))
      ∙ get_or-append_right junk (start_char ∷ body) k 0

  framed_start : get_or framed (length junk) 0 ≡ start_char
  framed_start = ap (λ i. get_or framed i 0) (omega arith) ∙ framed_at 0 (omega arith)

  framed-body :
      Absent start_char body
      → (k : ℕ) → length junk < k
      → k < end_at
      → get_or framed k 0 ≢ start_char
  framed-body a k lo hi e =
      get_or-Absent start_char body (k - length junk - 1) 0 a (omega (arith, end_at_lem))
        (shifted ∙ e)
    where
      shifted : get_or body (k - length junk - 1) 0 ≡ get_or framed k 0
      shifted =
          sym (framed_at (suc (k - length junk - 1)) (omega (arith, end_at_lem)))
          ∙ ap (λ i. get_or framed i 0) (omega arith)

  -- Let `char` be signed or not, and the start character below 128. If a valid buffer holds bytes
  -- without an end character, then a start character, a body with neither of the two (different)
  -- characters, an end character, and anything, then remove_front_unfinished_frames drops exactly
  -- what stands before that start character, starts of unfinished frames included, and returns the
  -- number of bytes dropped.
  pub resync :
      {cap : ℕ} {cb : CircularBuffer} (sign : CharSign)
      → start_char < 128
      → Holds cap framed cb
      → Absent end_char junk
      → start_char ≢ end_char
      → Absent end_char body
      → Absent start_char body
      → Becomes cap
          (remove_front_unfinished_frames sign start_char end_char cb)
          (length junk)
          ((start_char ∷ body) ++ (end_char ∷ rest))
  unfolding remove_front_unfinished_frames
  resync {cap = cap} {cb = cb} sign ascii h a ne b c =
      let popped =
        pop_front_times-Becomes junk ((start_char ∷ body) ++ (end_char ∷ rest)) {cb = cb} (
          subst (λ l. Holds cap l cb) (append_assoc junk (start_char ∷ body) (end_char ∷ rest))
            h) in
      record {
        after = popped.after;
        returns =
            round_found sign start_char end_char cb.size end_at (length junk)
              (find_first-Holds end_char h
                ∙ ap (λ n. (ok n, cb))
                    (find_first-append end_char (junk ++ (start_char ∷ body)) rest
                      (Absent-append end_char junk (start_char ∷ body) a (ne, b))))
              (omega (
                arith,
                size-Holds h,
                length-append {0} (junk ++ (start_char ∷ body)) (end_char ∷ rest),
              ))
              (omega (arith, end_at_lem))
              (back_to_start_found h sign start_char (end_at - 1) (length junk)
                (omega (
                  arith,
                  end_at_lem,
                  length-append {0} (junk ++ (start_char ∷ body)) (end_char ∷ rest),
                ))
                (omega (arith, end_at_lem)) ascii framed_start
                (λ k lo hi. framed-body c k lo (omega (arith, end_at_lem))))
            ∙ rw popped.returns;
        holds = popped.holds;
      }
