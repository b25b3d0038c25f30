-- ===== src/Prelude/Span.antt =====
-- The values of an indexed sequence, and equations between them.
use Prim.Native.Nat.{ℕ, zero, suc, ◌+◌, ◌-◌, ◌≤◌, ◌<◌}
use mathlib.Core.Path.{◌≡◌, refl, ap, ap₂, ◌∙◌}
use mathlib.Core.List.{List, [], ◌∷◌, ◌++◌}
use native.Mathlib.Omega.{arith}
use ascii_serial_com_c.Prelude.Lists.{length, take, drop}

module _ {ℓ} {A : Type ℓ} where
  -- f i, f (i + 1), ..., n of them
  abbrev pub span : (ℕ → A) → ℕ → ℕ → List A
  span f i zero = []
  span f i (suc n) = f i ∷ span f (i + 1) n

  pub length-span : (f : ℕ → A) (i n : ℕ) → length (span f i n) ≡ n
  length-span f i zero = refl
  length-span f i (suc n) = ap suc (length-span f (i + 1) n)

  pub span_ext :
      (f g : ℕ → A) (i k n : ℕ)
      → ((j : ℕ) → j < n → f (i + j) ≡ g (k + j))
      → span f i n ≡ span g k n
  span_ext f g i k zero h = refl
  span_ext f g i k (suc n) h =
      ap₂ ◌∷◌ (ground (arith, h 0 (omega arith)))
        (span_ext f g (i + 1) (k + 1) n (λ j p. ground (arith, h (suc j) (omega arith))))

  pub span_snoc : (f : ℕ → A) (i n : ℕ) → span f i (suc n) ≡ span f i n ++ (f (i + n) ∷ [])
  span_snoc f i zero = ground arith
  span_snoc f i (suc n) = ap (λ l. f i ∷ l) (ground (arith, span_snoc f (i + 1) n))

  pub drop-span : (f : ℕ → A) (i m s : ℕ) → s ≤ m → drop s (span f i m) ≡ span f (i + s) (m - s)
  drop-span f i m zero h = ap₂ (span f) (omega arith) (omega arith)
  drop-span f i zero (suc s) h = elim h [ ]
  drop-span f i (suc m) (suc s) h =
      drop-span f (i + 1) m s (omega arith) ∙ ap₂ (span f) (omega arith) (omega arith)

  pub take-span : (f : ℕ → A) (i m n : ℕ) → n ≤ m → take n (span f i m) ≡ span f i n
  take-span f i m zero h = refl
  take-span f i zero (suc n) h = elim h [ ]
  take-span f i (suc m) (suc n) h = ap (λ l. f i ∷ l) (take-span f (i + 1) m n (omega arith))

  pub span_append : (f : ℕ → A) (i n m : ℕ) → span f i (n + m) ≡ span f i n ++ span f (i + n) m
  span_append f i zero m = ap₂ (span f) (omega arith) (omega arith)
  span_append f i (suc n) m =
      let grown : suc n + m ≡ suc (n + m) = omega arith in
      let shifted : i + 1 + n ≡ i + suc n = omega arith in
      ap (span f i) grown
      ∙ ap (λ l. f i ∷ l)
          (span_append f (i + 1) n m ∙ ap (λ k. span f (i + 1) n ++ span f k m) shifted)
