-- ===== src/CircularBuffer/Window.antt =====
-- The bytes that a ring holds: `n` of them from index `start` on, going round at `cap`.
use ascii_serial_com_c.Prelude.{
  ℕ, suc, ◌+◌, ◌≤◌, ◌<◌, ◌≡◌, ◌≢◌, ◌∙◌, ap, ap₂, sym, List, [], ◌∷◌, ◌++◌, length, get_or, set,
  get_or-set, span, length-span, span_ext, span_snoc, arith,
}
use ascii_serial_com_c.CircularBuffer.Inv.{wrap}

module _ (buf : List ℕ) (cap start : ℕ) where
  abbrev pub byte_at : ℕ → ℕ
  byte_at i = get_or buf (wrap cap (start + i)) 0

  abbrev pub window : ℕ → List ℕ
  window n = span byte_at 0 n

  pub length-window : (n : ℕ) → length (window n) ≡ n
  length-window n = length-span byte_at 0 n

  pub window_snoc : (n : ℕ) → window (suc n) ≡ window n ++ (byte_at n ∷ [])
  window_snoc n = span_snoc byte_at 0 n ∙ ap (λ k. window n ++ (byte_at k ∷ [])) (omega arith)

-- The first byte, and the window that starts after it.
pub window_slide :
    (buf : List ℕ) (cap start n : ℕ)
    → start < cap
    → n < cap
    → window buf cap start (suc n) ≡ get_or buf start 0 ∷ window buf cap (wrap cap (start + 1)) n
window_slide buf cap start n hs hn =
    ap₂ ◌∷◌ (ap (λ i. get_or buf i 0) (ground arith))
      (span_ext _ _ 1 0 n (λ j p. ap (λ i. get_or buf i 0) (ground arith)))

-- A write outside a window leaves it alone.
pub window-set_outside :
    (buf : List ℕ) (cap start n i x : ℕ)
    → i < length buf
    → ((j : ℕ) → j < n → i ≢ wrap cap (start + j))
    → window (set buf i x) cap start n ≡ window buf cap start n
window-set_outside buf cap start n i x hi h =
    span_ext _ _ 0 0 n
      λ j p. ground (arith, get_or-set buf i (wrap cap (start + (0 + j))) x 0 hi, h j)

-- A write just past a window extends it.
pub window-set_stop :
    (buf : List ℕ) (cap start n stop x : ℕ)
    → cap ≤ length buf
    → start < cap
    → n < cap
    → stop ≡ wrap cap (start + n)
    → window (set buf stop x) cap start (suc n) ≡ window buf cap start n ++ (x ∷ [])
window-set_stop buf cap start n stop x hb hs hn e =
    window_snoc (set buf stop x) cap start n
    ∙ ap₂ (λ l (b : ℕ). l ++ (b ∷ []))
        (window-set_outside buf cap start n stop x (ground arith) (λ j p. ground arith))
        (ground (arith, get_or-set buf stop (wrap cap (start + n)) x 0))

-- A write just before a window, and the window from there.
pub window-set_start :
    (buf : List ℕ) (cap start n i x : ℕ)
    → cap ≤ length buf
    → start < cap
    → n < cap
    → i < cap
    → start ≡ wrap cap (i + 1)
    → window (set buf i x) cap i (suc n) ≡ x ∷ window buf cap start n
window-set_start buf cap start n i x hb hs hn hi e =
    window_slide (set buf i x) cap i n hi hn
    ∙ ap₂ ◌∷◌ (ground (arith, get_or-set buf i i x 0)) (
        ap (λ k. window (set buf i x) cap k n) (sym e)
        ∙ window-set_outside buf cap start n i x (omega arith) (λ j p. ground arith))
