-- ===== src/DbcParser/Termination/Tokens.antt =====
-- The functions that read one token are total, and take some of the file when they succeed.
use cancept.Prelude.{
  ℕ, suc, ◌+◌, ◌^◌, ◌≤◌, ◌<◌, ◌≡◌, Bool, true, false, ◌&&◌, [], ◌∷◌, Option, none, some, Bytes,
  codes, length, length-drop, ltb, if◌then◌else◌, arith,
}
use Prim.Native.String.{String}
use cancept.Core.Float.{Float}
use cancept.DbcParser.Monad.{Parser, M, ret, absent}
use cancept.DbcParser.Lexer.{
  after_keyword, split_first, is_nonempty, ends_identifier, matches_identifier, matches_uint,
  matches_double, spaces_erased, erase_spaces, parse_token, parse_c_identifier, digits_value, stoi,
  parse_uint, parse_quoted, parse_string, is_quote, is_semicolon, truncate_to_next_semicolon,
  parse_double, expect,
}
use cancept.DbcParser.Termination.Rules.{
  if-Ends, Ends, Total, Takes, by_valid, by_value, Ends_mono, test-Ends, bind-Takes, keyword-Takes,
  absent-Takes, invalid-Takes, unlucky-Takes, if_starts-Takes, by_parsed, Takes-Total, ret-Total,
  totals,
}

length-spaces_erased : (s : Bytes) → length (spaces_erased s) ≤ length s
unfolding spaces_erased
length-spaces_erased [] = omega arith
length-spaces_erased (c ∷ s) = ground (arith, length-spaces_erased s)

pub erase_spaces-Total : Total erase_spaces
unfolding Total Ends erase_spaces
erase_spaces-Total p = length-spaces_erased p.file

-- The two parts of a text that is split, if it is: the second has the delimiter at least.
Splits : Option (Bytes × Bytes) → Bytes → Type 0
Splits none s = Unit {0}
Splits (some (front, back)) s = (length front + length back ≡ length s) × (0 < length back)

module _ {A : Type 0} where
  split-Ends :
      (o : Option (Bytes × Bytes)) (s : Bytes) (m : Option (A × Parser))
      (f : Bytes → Bytes → Option (A × Parser)) (Q : A → Parser → Type 0)
      → Splits o s
      → Ends m Q
      → ((front back : Bytes)
          → length front + length back ≡ length s
          → 0 < length back
          → Ends (f front back) Q)
      → Ends (elim o [ none ↦ m | some (front, back) ↦ f front back ]) Q
  unfolding Splits
  split-Ends none s m f Q h t u = t
  split-Ends (some (front, back)) s m f Q h t u = u front back h.0 h.1

Splits-cons :
    (c : ℕ) (o : Option (Bytes × Bytes)) (s : Bytes)
    → Splits o s
    → Splits (elim o [ none ↦ none | some (front, back) ↦ some (c ∷ front, back) ]) (c ∷ s)
unfolding Splits
Splits-cons c none s h = tt
Splits-cons c (some (front, back)) s h = (omega (arith, h.0), h.1)

Splits-if :
    (b : Bool) (o o' : Option (Bytes × Bytes)) (s : Bytes)
    → Splits o s
    → Splits o' s
    → Splits (if b then o else o') s
Splits-if true o o' s h k = h
Splits-if false o o' s h k = k

split_first-Splits : (stop : ℕ → Bool) (s : Bytes) → Splits (split_first stop s) s
unfolding split_first Splits
split_first-Splits stop [] = tt
split_first-Splits stop (c ∷ s) =
    Splits-if (stop c) _ _ _ (omega arith, omega arith)
      (Splits-cons c (split_first stop s) s (split_first-Splits stop s))

-- A text that matches is not empty.
abbrev pub RejectsEmpty : (Bytes → Bool) → Type 0
RejectsEmpty good = (s : Bytes) → good s ≡ true → 0 < length s

parse_token-Takes :
    {A : Type 0} (stop : ℕ → Bool) (good : Bytes → Bool) (failure : A) (use_text : Bytes → M A)
    → RejectsEmpty good
    → ((s : Bytes) → Total (use_text s))
    → Takes by_valid (parse_token stop good failure use_text)
unfolding Takes Total Ends parse_token erase_spaces
parse_token-Takes stop good failure use_text nonempty t p =
    split-Ends (split_first stop (spaces_erased p.file)) (spaces_erased p.file) _ _ _
      (split_first-Splits stop (spaces_erased p.file))
      (length-spaces_erased p.file, λ e. ground arith)
      λ front back h h'.
        if-Ends (good front) _ _ _
          (λ e.
            Ends_mono
              (use_text front (record { file = back; parsing_valid = true; parsed_object = true }))
              _ (t front (record { file = back; parsing_valid = true; parsed_object = true }))
              λ a q k. (
                omega (arith, length-spaces_erased p.file),
                λ _. omega (arith, nonempty front e, length-spaces_erased p.file),
              ))
          (λ e. (length-spaces_erased p.file, λ e. ground arith))

nonempty_lem : (s : Bytes) (b : Bool) → is_nonempty s && b ≡ true → 0 < length s
unfolding is_nonempty
nonempty_lem [] b h = ground arith
nonempty_lem (c ∷ s) b h = omega arith

double-RejectsEmpty : RejectsEmpty matches_double
unfolding matches_double
double-RejectsEmpty [] h = ground arith
double-RejectsEmpty (c ∷ s) h = omega arith

pub parse_c_identifier-Takes : Takes by_valid parse_c_identifier
unfolding parse_c_identifier matches_identifier
parse_c_identifier-Takes = parse_token-Takes _ _ [] ret (λ s h. nonempty_lem s _ h) ret-Total

-- The identifier and what is behind it fit into the file, so it can be put back.
pub parse_c_identifier-Ends :
    (p : Parser)
    → Ends (parse_c_identifier p) λ a q.
      (length q.file ≤ length p.file)
      × (q.parsing_valid ≡ true → length a + length q.file ≤ length p.file)
      × (q.parsing_valid ≡ true → length q.file < length p.file)
unfolding parse_c_identifier parse_token erase_spaces matches_identifier Ends
parse_c_identifier-Ends p =
    split-Ends (split_first ends_identifier (spaces_erased p.file)) (spaces_erased p.file) _ _ _
      (split_first-Splits ends_identifier (spaces_erased p.file))
      (length-spaces_erased p.file, (λ e. ground arith), λ e. ground arith)
      λ front back h h'.
        if-Ends (matches_identifier front) _ _ _
          (λ e. (
            omega (arith, length-spaces_erased p.file),
            (λ _. omega (arith, length-spaces_erased p.file)),
            λ _. omega (arith, nonempty_lem front _ e, length-spaces_erased p.file),
          ))
          (λ e. (length-spaces_erased p.file, (λ e'. ground arith), λ e'. ground arith))

pub stoi-Total : (s : Bytes) → Total (stoi s)
unfolding stoi Total Ends
stoi-Total s p =
    if-Ends (ltb (digits_value 0 s) (2 ^ 31)) _ _ _ (λ e. omega arith) (λ e. omega arith)

pub parse_uint-Takes : Takes by_valid parse_uint
unfolding parse_uint matches_uint
parse_uint-Takes = parse_token-Takes _ _ _ _ (λ s h. nonempty_lem s _ h) stoi-Total

parse_quoted-Total : Total parse_quoted
unfolding parse_quoted Total Ends
parse_quoted-Total p =
    split-Ends (split_first is_quote p.file) p.file _ _ _ (split_first-Splits is_quote p.file)
      (omega arith) λ front back h h'. omega (arith, length-drop 1 back)

pub parse_string-Takes : Takes by_valid parse_string
unfolding parse_string
parse_string-Takes =
    search (bind-Takes, keyword-Takes, unlucky-Takes, erase_spaces-Total, parse_quoted-Total)

pub truncate-Takes : Takes by_value truncate_to_next_semicolon
unfolding truncate_to_next_semicolon Takes Ends
truncate-Takes p =
    split-Ends (split_first is_semicolon p.file) p.file _ _ _
      (split_first-Splits is_semicolon p.file) (omega arith, λ e. ground arith)
      λ front back h h'. (omega (arith, length-drop 1 back), λ e. omega (arith, length-drop 1 back))

module _ (F : Float) where
  open F use {strtod}

  pub parse_double-Takes : Takes by_valid (parse_double F)
  unfolding parse_double
  parse_double-Takes =
      parse_token-Takes _ _ _ (λ s. ret (strtod s)) double-RejectsEmpty (λ s. ret-Total (strtod s))

pub expect-Total : {A : Type 0} (s : String) (v : A) (m : M A) → Total m → Total (expect s v m)
unfolding expect
expect-Total s v m t = search (totals, erase_spaces-Total)

pub after_keyword-Takes :
    {A : Type 0} (s : String) (n : ℕ) (v : A) (m : M A)
    → length (codes s) ≡ suc n
    → Total m
    → Takes by_parsed (after_keyword s (suc n) v m)
unfolding after_keyword
after_keyword-Takes s n v m size t =
    bind-Takes by_parsed erase_spaces _ erase_spaces-Total
      λ _. keyword-Takes by_parsed s n m (absent v) size t (absent-Takes v)

-- Each of them is total.
pub parse_c_identifier-Total : Total parse_c_identifier
parse_c_identifier-Total = Takes-Total by_valid parse_c_identifier parse_c_identifier-Takes

pub parse_uint-Total : Total parse_uint
parse_uint-Total = Takes-Total by_valid parse_uint parse_uint-Takes

pub parse_string-Total : Total parse_string
parse_string-Total = Takes-Total by_valid parse_string parse_string-Takes

pub truncate-Total : Total truncate_to_next_semicolon
truncate-Total = Takes-Total by_value truncate_to_next_semicolon truncate-Takes

pub parse_double-Total : (F : Float) → Total (parse_double F)
parse_double-Total F = Takes-Total by_valid (parse_double F) (parse_double-Takes F)

pub ruleset tokens = (
  totals, erase_spaces-Total, parse_c_identifier-Total, parse_uint-Total, parse_string-Total,
  parse_double-Total, truncate-Total, expect-Total,
)

pub ruleset takes =
    (after_keyword-Takes, keyword-Takes, absent-Takes, invalid-Takes, if_starts-Takes, bind-Takes)
