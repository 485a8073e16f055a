-- ===== src/DbcParser/Termination/Rules.antt =====
-- The judgements of termination, and a rule for each shape that the parser is written in.
use cancept.Prelude.{
  ℕ, suc, ◌≤◌, ◌<◌, ◌≡◌, refl, Bool, true, false, [], ◌∷◌, Option, none, some, Bytes, codes, length,
  drop, length-drop, starts_with, if◌then◌else◌, arith,
}
use Prim.Native.String.{String}
use cancept.DbcParser.Lexer.{keyword}
use cancept.DbcParser.Monad.{
  Parser, M, ◌>>=◌, ret, absent, invalid, parsed, if_starts, if_valid, if_parsed, skip,
}

-- A run that ends, with a result of which `post` holds.
unfoldable pub Ends : {A : Type 0} → Option (A × Parser) → (A → Parser → Type 0) → Type 0
Ends none post = ⊥
Ends (some (a, p)) post = post a p

unfoldable pub Total : {A : Type 0} → M A → Type 0
unfolding Ends
Total m = (p : Parser) → Ends (m p) λ a q. length q.file ≤ length p.file

-- A run whose result passes `good` has taken some of the file.
unfoldable pub Takes : {A : Type 0} → (A → Parser → Bool) → M A → Type 0
unfolding Ends
Takes good m =
    (p : Parser)
    → Ends (m p)
        λ a q. (length q.file ≤ length p.file) × (good a q ≡ true → length q.file < length p.file)

abbrev pub by_valid : {A : Type 0} → A → Parser → Bool
by_valid a q = q.parsing_valid

abbrev pub by_parsed : {A : Type 0} → A → Parser → Bool
by_parsed a q = q.parsed_object

abbrev pub by_value : Bool → Parser → Bool
by_value more q = more

pub Ends-bind :
    {A B : Type 0} (o : Option (A × Parser)) (f : A → M B) {P : A → Parser → Type 0}
    (Q : B → Parser → Type 0)
    → Ends o P
    → ((a : A) (q : Parser) → P a q → Ends (f a q) Q)
    → Ends (elim o [ none ↦ none | some (a, q) ↦ f a q ]) Q
unfolding Ends
Ends-bind none f Q e h = e
Ends-bind (some (a, q)) f Q e h = h a q e

pub Ends_mono :
    {A : Type 0} (o : Option (A × Parser)) {P : A → Parser → Type 0} (Q : A → Parser → Type 0)
    → Ends o P
    → ((a : A) (q : Parser) → P a q → Q a q)
    → Ends o Q
unfolding Ends
Ends_mono none Q e h = e
Ends_mono (some (a, q)) Q e h = h a q e

module _ {A : Type 0} where
  pub bind-Total :
      {B : Type 0} (m : M A) (f : A → M B) → Total m → ((a : A) → Total (f a)) → Total (m >>= f)
  unfolding Total
  bind-Total m f t u p =
      Ends-bind (m p) f _ (t p) λ a q h. Ends_mono (f a q) _ (u a q) λ b r k. omega arith

  pub ret-Total : (a : A) → Total (ret a)
  unfolding Total Ends
  ret-Total a p = omega arith

  pub absent-Total : (v : A) → Total (absent v)
  unfolding Total Ends
  absent-Total v p = omega arith

  pub invalid-Total : (v : A) → Total (invalid v)
  unfolding Total Ends
  invalid-Total v p = omega arith

  pub parsed-Total : (v : A) → Total (parsed v)
  unfolding Total Ends
  parsed-Total v p = omega arith

  -- A branch.
  pub elim-Ends :
      (b : Bool) (o o' : Option (A × Parser)) (Q : A → Parser → Type 0)
      → Ends o Q
      → Ends o' Q
      → Ends (elim b [ true ↦ o | false ↦ o' ]) Q
  elim-Ends true o o' Q t u = t
  elim-Ends false o o' Q t u = u

  pub test-Ends :
      (b : Bool) (o o' : Option (A × Parser)) (Q : A → Parser → Type 0)
      → (b ≡ true → Ends o Q)
      → (b ≡ false → Ends o' Q)
      → Ends (elim b [ true ↦ o | false ↦ o' ]) Q
  test-Ends true o o' Q t u = t refl
  test-Ends false o o' Q t u = u refl

  pub if-Ends :
      (b : Bool) (o o' : Option (A × Parser)) (Q : A → Parser → Type 0)
      → (b ≡ true → Ends o Q)
      → (b ≡ false → Ends o' Q)
      → Ends (if b then o else o') Q
  if-Ends true o o' Q t u = t refl
  if-Ends false o o' Q t u = u refl

  pub if_starts-Total : (s : String) (m k : M A) → Total m → Total k → Total (if_starts s m k)
  unfolding Total
  if_starts-Total s m k t u p = elim-Ends (starts_with p.file (codes s)) _ _ _ (t p) (u p)

  pub if_valid-Total : (m k : M A) → Total m → Total k → Total (if_valid m k)
  unfolding Total
  if_valid-Total m k t u p = elim-Ends p.parsing_valid _ _ _ (t p) (u p)

  pub if_parsed-Total : (m k : M A) → Total m → Total k → Total (if_parsed m k)
  unfolding Total
  if_parsed-Total m k t u p = elim-Ends p.parsed_object _ _ _ (t p) (u p)

pub skip-Total : (n : ℕ) → Total (skip n)
unfolding Total Ends skip
skip-Total n p = omega (arith, length-drop n p.file)

pub ruleset totals = (
  bind-Total, ret-Total, absent-Total, invalid-Total, parsed-Total, if_starts-Total, if_valid-Total,
  if_parsed-Total, skip-Total,
)

-- What takes some of the file is total, and stays so behind a part that takes none.
pub Takes-Total : {A : Type 0} (good : A → Parser → Bool) (m : M A) → Takes good m → Total m
unfolding Takes Total
Takes-Total good m t p = Ends_mono (m p) _ (t p) λ a q h. h.0

pub bind-Takes :
    {A B : Type 0} (good : B → Parser → Bool) (m : M A) (f : A → M B)
    → Total m
    → ((a : A) → Takes good (f a))
    → Takes good (m >>= f)
unfolding Takes Total
bind-Takes good m f t u p =
    Ends-bind (m p) f _ (t p)
      λ a q h. Ends_mono (f a q) _ (u a q) λ b r k. (omega (arith, k.0), λ e. omega (arith, k.1 e))

starts_with_longer : (s k : Bytes) → starts_with s k ≡ true → length k ≤ length s
unfolding starts_with
starts_with_longer s [] h = omega arith
starts_with_longer [] (c ∷ k) h = ground arith
starts_with_longer (d ∷ s) (c ∷ k) h = ground (arith, starts_with_longer s k)

-- A keyword and what follows it. In the other branch the result is not good.
pub keyword-Takes :
    {A : Type 0} (good : A → Parser → Bool) (s : String) (n : ℕ) (m k : M A)
    → (length (codes s) ≡ suc n)
    → Total m
    → Takes good k
    → Takes good (keyword s (suc n) m k)
unfolding Takes Total keyword skip
keyword-Takes good s n m k size t u p =
    test-Ends (starts_with p.file (codes s)) _ _ _
      (λ e.
        Ends_mono (m (record p { file = drop (suc n) p.file })) _
          (t (record p { file = drop (suc n) p.file }))
          λ a q h. (
            omega (arith, length-drop (suc n) p.file),
            λ g. omega (arith, length-drop (suc n) p.file, starts_with_longer p.file (codes s) e),
          ))
      (λ e. u p)

pub if_starts-Takes :
    {A : Type 0} (good : A → Parser → Bool) (s : String) (m k : M A)
    → Takes good m
    → Takes good k
    → Takes good (if_starts s m k)
unfolding Takes
if_starts-Takes good s m k t u p = elim-Ends (starts_with p.file (codes s)) _ _ _ (t p) (u p)

pub absent-Takes : {A : Type 0} (v : A) → Takes by_parsed (absent v)
unfolding Takes Ends
absent-Takes v p = (omega arith, λ e. ground arith)

pub invalid-Takes : {A : Type 0} (v : A) → Takes by_parsed (invalid v)
unfolding Takes Ends
invalid-Takes v p = (omega arith, λ e. ground arith)

pub unlucky-Takes : {A : Type 0} (v : A) → Takes by_valid (invalid v)
unfolding Takes Ends
unlucky-Takes v p = (omega arith, λ e. ground arith)
