-- ===== src/DbcParser/Termination/Loops.antt =====
-- Totality below a length of the file, which is what a loop on that much fuel has.
use cancept.Prelude.{ℕ, suc, ◌≤◌, ◌<◌, codes, length, starts_with, arith}
use Prim.Native.String.{String}
use cancept.DbcParser.Monad.{Parser, M, ◌>>=◌, if_starts, if_valid, if_parsed, fuelled}
use cancept.DbcParser.Termination.Rules.{
  Ends, Total, Takes, by_valid, by_parsed, Ends-bind, Ends_mono, test-Ends,
}

unfoldable pub Below : {A : Type 0} → ℕ → M A → Type 0
unfolding Ends
Below n m = (p : Parser) → length p.file < n → Ends (m p) λ a q. length q.file ≤ length p.file

module _ {A : Type 0} where
  pub Total-Below : (n : ℕ) (m : M A) → Total m → Below n m
  unfolding Total Below
  Total-Below n m t p h = t p

  pub bind-Below :
      {B : Type 0} (n : ℕ) (m : M A) (f : A → M B)
      → Below n m
      → ((a : A) → Below n (f a))
      → Below n (m >>= f)
  unfolding Below
  bind-Below n m f t u p h =
      Ends-bind (m p) f _ (t p h)
        λ a q k. Ends_mono (f a q) _ (u a q (omega arith)) λ b r l. omega arith

  pub if_starts-Below :
      (n : ℕ) (s : String) (m k : M A) → Below n m → Below n k → Below n (if_starts s m k)
  unfolding Below
  if_starts-Below n s m k t u p h =
      test-Ends (starts_with p.file (codes s)) _ _ _ (λ e. t p h) (λ e. u p h)

  -- No file is shorter than nothing.
  pub zero-Below : (m : M A) → Below 0 m
  unfolding Below
  zero-Below m p h = absurd (omega arith)

  pub fuelled-Total : (loop : ℕ → M A) → ((n : ℕ) → Below n (loop n)) → Total (fuelled loop)
  unfolding Total Below
  fuelled-Total loop t p = t (suc (length p.file)) p (omega arith)

-- A round that goes on has taken some of the file.
module _ {A B : Type 0} (n : ℕ) (m : M A) (yes_branch no_branch : A → M B) where
  pub if_valid_round :
      Takes by_valid m
      → ((a : A) → Below n (yes_branch a))
      → ((a : A) → Total (no_branch a))
      → Below (suc n) (m >>= λ a. if_valid (yes_branch a) (no_branch a))
  unfolding Takes Below Total
  if_valid_round t u v p h =
      Ends-bind (m p) (λ a. if_valid (yes_branch a) (no_branch a)) _ (t p)
        λ a q k.
          test-Ends q.parsing_valid _ _ _
            (λ e.
              Ends_mono (yes_branch a q) _ (u a q (omega (arith, k.1 e)))
                λ b r l. omega (arith, k.0))
            (λ e. Ends_mono (no_branch a q) _ (v a q) λ b r l. omega (arith, k.0))

  pub if_parsed_round :
      Takes by_parsed m
      → ((a : A) → Below n (yes_branch a))
      → ((a : A) → Total (no_branch a))
      → Below (suc n) (m >>= λ a. if_parsed (yes_branch a) (no_branch a))
  unfolding Takes Below Total
  if_parsed_round t u v p h =
      Ends-bind (m p) (λ a. if_parsed (yes_branch a) (no_branch a)) _ (t p)
        λ a q k.
          test-Ends q.parsed_object _ _ _
            (λ e.
              Ends_mono (yes_branch a q) _ (u a q (omega (arith, k.1 e)))
                λ b r l. omega (arith, k.0))
            (λ e. Ends_mono (no_branch a q) _ (v a q) λ b r l. omega (arith, k.0))

pub ruleset loops = (bind-Below, if_starts-Below, Total-Below)
