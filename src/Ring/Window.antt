-- ===== src/Ring/Window.antt =====
-- The slots from `tail` to `head`, going round at the size of the array, and what the masked
-- increment does to an index.
use cancept.Prelude.{
  ℕ, zero, suc, ◌+◌, ◌-◌, ◌%◌, ◌^◌, ◌≤◌, ◌<◌, ◌≡◌, ◌≢◌, refl, sym, ap, ap₂, ◌∙◌, List, [], ◌∷◌,
  ◌++◌, length, get_or, set, arith, bit_and, bit_and-ones, get_or-set_self, get_or-set_ne,
}
use cancept.Prelude.Pow.{two-pow-pos}
use native.Mathlib.Nat.{mod-eq_of_lt, mod-add-mod, add-zero, pow-le-pow_right}
use cancept.Ring.{advance}

-- For a size that is a power of two the mask is a remainder.
pub advance_lem : (k i : ℕ) → k ≤ 63 → i < 2 ^ k → advance (2 ^ k) i ≡ (i + 1) % 2 ^ k
unfolding advance
advance_lem k i hk h =
    let small = pow-le-pow_right {n = 2} (omega arith) hk in
    ap₂ bit_and (mod-eq_of_lt (omega arith)) (mask k small) ∙ bit_and-ones k (i + 1)
  where
    mask : (k : ℕ) → 2 ^ k ≤ 2 ^ 63 → (2 ^ k + 2 ^ 64 - 1) % 2 ^ 64 ≡ 2 ^ k - 1
    mask k small = omega (arith, two-pow-pos k)

pub around_ne : (n t i j : ℕ) → t < n → i < j → j < n → (t + i) % n ≢ (t + j) % n
around_ne n t i j ht hij hj = grind arith

pub around-suc : (n t i : ℕ) → ((t + 1) % n + i) % n ≡ (t + suc i) % n
around-suc n t i = mod-add-mod (t + 1) n i ∙ ap (λ (x : ℕ). x % n) (omega arith)

module _ {ℓ} {A : Type ℓ} (blank : A) (n : ℕ) where
  -- The values of `m` slots from slot `t` on.
  abbrev pub window : List A → ℕ → ℕ → List A
  window buf t zero = []
  window buf t (suc m) = get_or buf t blank ∷ window buf ((t + 1) % n) m

  pub length-window : (buf : List A) (t m : ℕ) → length (window buf t m) ≡ m
  length-window buf t zero = refl
  length-window buf t (suc m) = ap suc (length-window buf ((t + 1) % n) m)

  -- One more slot at the far end.
  pub window-suc :
      (buf : List A) (t m : ℕ)
      → t < n
      → window buf t (suc m) ≡ window buf t m ++ (get_or buf ((t + m) % n) blank ∷ [])
  window-suc buf t zero h =
      ap (λ (x : ℕ). get_or buf x blank ∷ [])
        (sym (mod-eq_of_lt h) ∙ ap (λ (x : ℕ). x % n) (sym (add-zero t)))
  window-suc buf t (suc m) h = ap (◌∷◌ (get_or buf t blank)) (
      window-suc buf ((t + 1) % n) m (omega arith)
      ∙ ap (λ (x : ℕ). window buf ((t + 1) % n) m ++ (get_or buf x blank ∷ [])) (around-suc n t m))

  -- A write outside the window.
  pub window-set_outside :
      (buf : List A) (t m i : ℕ) (v : A)
      → ((j : ℕ) → j < m → (t + j) % n ≢ i)
      → t < n
      → window (set buf i v) t m ≡ window buf t m
  window-set_outside buf t zero i v out h = refl
  window-set_outside buf t (suc m) i v out h =
      ap₂ ◌∷◌
        (get_or-set_ne buf i t v blank
          (λ e. out 0 (omega arith) (rw add-zero (mod-eq_of_lt h ∙ sym e))))
        (window-set_outside buf ((t + 1) % n) m i v
          (λ j hj. rw around-suc (out (suc j) (omega arith))) (omega arith))

  -- Writing the slot behind the window extends the window by the value.
  pub window-set_end :
      (buf : List A) (t m i : ℕ) (v : A)
      → t < n
      → m < n
      → n ≤ length buf
      → i ≡ (t + m) % n
      → window (set buf i v) t (suc m) ≡ window buf t m ++ (v ∷ [])
  window-set_end buf t m i v ht hm fits e =
      window-suc (set buf i v) t m ht
      ∙ ap₂ (λ xs x. xs ++ (x ∷ []))
          (window-set_outside buf t m i v (λ j hj. rw e (around_ne n t j m ht hj hm)) ht)
          (rw (← e) (get_or-set_self buf i v blank (omega arith)))
