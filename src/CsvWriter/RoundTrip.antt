-- ===== src/CsvWriter/RoundTrip.antt =====
-- A frame that `CsvWriter` has written is the frame that `CsvReader` reads.
use cancept.Prelude.{
  lt→ltb, ℕ, zero, suc, ◌-◌, ◌/◌, ◌%◌, ◌≤◌, ◌<◌, ◌≡◌, ◌≢◌, ◌⊎◌, inl, inr, refl, sym, ap, ◌∙◌, false,
  List, [], ◌∷◌, ◌++◌, append-nil, append_assoc, Bytes, length, replicate, ltb, by_test, arith, All,
  ◌==◌,
}
use cancept.DbcParser.Sections.{digits_before, to_string}
use cancept.CsvReader.Fields.{fields_from, split_line, skip_blanks, data_bytes, from_chars}
use cancept.CsvWriter.{hex_digit, hex_before, hex, more_bytes, data_text, joined}
use cancept.CsvWriter.Hex.{from_chars-hex}

-- No comma and no blank.
unfoldable pub IsPlain : ℕ → Type 0
IsPlain c = (c ≢ b',') × (c ≢ b' ')

unfoldable pub IsText : ℕ → Type 0
IsText c = c ≢ b','

pub append-All :
    {A : Type 0} (P : A → Type 0) (xs ys : List A) → All P xs → All P ys → All P (xs ++ ys)
unfolding All
append-All P [] ys h k = k
append-All P (x ∷ xs) ys h k = (h.0, append-All P xs ys h.1 k)

hex_digit-IsPlain : (d : ℕ) → IsPlain (hex_digit (d % 16))
unfolding IsPlain hex_digit
hex_digit-IsPlain d = (ground arith, ground arith)

hex_before-All :
    (fuel n : ℕ) (rest : Bytes) → All IsPlain rest → All IsPlain (hex_before fuel n rest)
unfolding hex_before All
hex_before-All zero n rest h = h
hex_before-All (suc fuel) n rest h =
    by_test (ltb n 16) _ _ (All IsPlain) (λ e. (hex_digit-IsPlain n, h))
      (λ e. hex_before-All fuel (n / 16) _ (hex_digit-IsPlain n, h))

zeros-All : (k : ℕ) → All IsPlain (replicate k 48)
unfolding All IsPlain
zeros-All zero = tt
zeros-All (suc k) = ((ground arith, ground arith), zeros-All k)

pub hex-All : (width n : ℕ) → All IsPlain (hex width n)
unfolding hex All
hex-All width n =
    append-All IsPlain (replicate (width - length (hex_before (suc n) n [])) 48) _ (zeros-All _)
      (hex_before-All (suc n) n [] tt)

digits_before-All :
    (fuel n : ℕ) (rest : Bytes) → All IsText rest → All IsText (digits_before fuel n rest)
unfolding digits_before All IsText
digits_before-All zero n rest h = h
digits_before-All (suc fuel) n rest h =
    by_test (ltb n 10) _ _ (All IsText) (λ e. ((λ k. omega (arith, k)), h))
      (λ e. digits_before-All fuel (n / 10) _ ((λ k. omega (arith, k)), h))

pub to_string-All : (n : ℕ) → All IsText (to_string n)
unfolding to_string All
to_string-All n = digits_before-All (suc n) n [] tt

no_comma : (c : ℕ) → c ≢ 44 → (c == 44) ≡ false
no_comma c h = ground (arith, h)

fields_from-char :
    (f : Bytes) (c : ℕ) (cs : Bytes)
    → c ≢ 44
    → fields_from f (c ∷ cs) ≡ fields_from (f ++ c ∷ []) cs
unfolding fields_from
fields_from-char [] c cs h = rw (no_comma c h, fields_from) refl
fields_from-char (x ∷ f) c cs h = rw (no_comma c h, fields_from) refl

fields_from-comma : (f cs : Bytes) → fields_from f (44 ∷ cs) ≡ f ∷ fields_from [] cs
unfolding fields_from
fields_from-comma [] cs = refl
fields_from-comma (x ∷ f) cs = refl

-- A field up to its comma, and the last one.
fields_from-field :
    (f s rest : Bytes)
    → All IsText s
    → fields_from f (s ++ 44 ∷ rest) ≡ (f ++ s) ∷ fields_from [] rest
unfolding All IsText
fields_from-field f [] rest h =
    fields_from-comma f rest ∙ ap (λ g. g ∷ fields_from [] rest) (sym (append-nil f))
fields_from-field f (c ∷ s) rest h =
    fields_from-char f c (s ++ 44 ∷ rest) h.0
    ∙ fields_from-field (f ++ c ∷ []) s rest h.1
    ∙ ap (λ g. g ∷ fields_from [] rest) (append_assoc f (c ∷ []) s)

fields_from-last : (x : ℕ) (f s : Bytes) → All IsText s → fields_from (x ∷ f) s ≡ (x ∷ f ++ s) ∷ []
unfolding All IsText fields_from
fields_from-last x f [] h = ap (λ g. (x ∷ g) ∷ []) (sym (append-nil f))
fields_from-last x f (c ∷ s) h =
    fields_from-char (x ∷ f) c s h.0
    ∙ fields_from-last x (f ++ c ∷ []) s h.1
    ∙ ap (λ g. (x ∷ g) ∷ []) (append_assoc f (c ∷ []) s)

-- A text whose last field is not empty.
unfoldable pub EndsFull : List Bytes → Type 0
EndsFull [] = Unit
EndsFull (h ∷ []) = h ≢ []
EndsFull (h ∷ k ∷ hs) = EndsFull (k ∷ hs)

-- Fields without commas that are joined by commas are split again.
pub split_line-joined :
    (fs : List Bytes) → All (All IsText) fs → EndsFull fs → split_line (joined fs) ≡ fs
unfolding split_line joined All EndsFull fields_from IsText
split_line-joined [] h e = refl
split_line-joined ([] ∷ []) h e = absurd (e refl)
split_line-joined ((x ∷ s) ∷ []) h e = fields_from-char [] x s h.0.0 ∙ fields_from-last x [] s h.0.1
split_line-joined (f ∷ g ∷ fs) h e =
    fields_from-field [] f (joined (g ∷ fs)) h.0
    ∙ ap (λ r. f ∷ r) (split_line-joined (g ∷ fs) h.1 e)

-- A last field that is empty is lost.
pub split_line_open :
    (f : Bytes) (fs : List Bytes)
    → All (All IsText) (f ∷ fs)
    → split_line (joined (f ∷ (fs ++ [] ∷ []))) ≡ f ∷ fs
unfolding split_line joined All fields_from
split_line_open f [] h = fields_from-field [] f [] h.0
split_line_open f (g ∷ fs) h =
    fields_from-field [] f (joined (g ∷ (fs ++ [] ∷ []))) h.0
    ∙ ap (λ r. f ∷ r) (split_line_open g fs h.1)

padded : Bytes → Bytes
padded s = replicate (2 - length s) 48 ++ s

split_at : (n k : ℕ) → (n < k) ⊎ (k ≤ n)
split_at n k = omega arith

not_ltb : (n k : ℕ) → k ≤ n → ltb n k ≡ false
not_ltb n k h = ground (arith, h)

pub no_blank : (c : ℕ) → c ≢ 32 → (c == 32) ≡ false
no_blank c h = ground (arith, h)

-- The two digits of a byte.
hex_before-small :
    (fuel n : ℕ) (rest : Bytes) → n < 16 → hex_before (suc fuel) n rest ≡ hex_digit (n % 16) ∷ rest
unfolding hex_before
hex_before-small fuel n rest h = rw (lt→ltb n 16 h, hex_before) refl

hex_before-large :
    (fuel n : ℕ) (rest : Bytes)
    → 16 ≤ n
    → hex_before (suc fuel) n rest ≡ hex_before fuel (n / 16) (hex_digit (n % 16) ∷ rest)
unfolding hex_before
hex_before-large fuel n rest h = rw (not_ltb n 16 h, hex_before) refl

pub hex_two : (b : ℕ) → b < 256 → hex 2 b ≡ hex_digit (b / 16) ∷ hex_digit (b % 16) ∷ []
unfolding hex padded
hex_two b h = elim (split_at b 16) [
  | inl small ↦
      ap padded (hex_before-small b b [] small)
      ∙ ap (λ (q : ℕ). hex_digit q ∷ hex_digit (b % 16) ∷ []) {x = 0} {y = b / 16}
          (omega (arith, small))
  | inr large ↦
      ap padded (
        hex_before-large b b [] large
        ∙ ap (λ (f : ℕ). hex_before f (b / 16) (hex_digit (b % 16) ∷ [])) {x = b} {y = suc (b - 1)}
            (omega (arith, large))
        ∙ hex_before-small (b - 1) (b / 16) (hex_digit (b % 16) ∷ []) (omega (arith, h)))
      ∙ ap (λ (q : ℕ). hex_digit q ∷ hex_digit (b % 16) ∷ []) {x = b / 16 % 16} {y = b / 16}
          (omega (arith, h))
]

pub skip_blanks-plain : (c : ℕ) (cs : Bytes) → c ≢ 32 → skip_blanks (c ∷ cs) ≡ c ∷ cs
unfolding skip_blanks
skip_blanks-plain c cs h = rw (no_blank c h, skip_blanks) refl

data_bytes-two :
    (k c d : ℕ) (s rest : Bytes)
    → skip_blanks s ≡ c ∷ d ∷ rest
    → data_bytes (suc k) s ≡ from_chars 8 16 (c ∷ d ∷ []) ∷ data_bytes k rest
unfolding data_bytes
data_bytes-two k c d s rest e = rw (e, data_bytes) refl

digit_not_blank : (d : ℕ) → hex_digit d ≢ 32
unfolding hex_digit
digit_not_blank d = ground arith

skip_blanks-hex :
    (b : ℕ) (rest : Bytes)
    → b < 256
    → skip_blanks (hex 2 b ++ rest) ≡ hex_digit (b / 16) ∷ hex_digit (b % 16) ∷ rest
skip_blanks-hex b rest h =
    ap (λ t. skip_blanks (t ++ rest)) (hex_two b h)
    ∙ skip_blanks-plain (hex_digit (b / 16)) (hex_digit (b % 16) ∷ rest) (digit_not_blank (b / 16))

data_bytes-hex :
    (k b : ℕ) (s rest : Bytes)
    → b < 256
    → skip_blanks s ≡ skip_blanks (hex 2 b ++ rest)
    → data_bytes (suc k) s ≡ b ∷ data_bytes k rest
data_bytes-hex k b s rest h e =
    data_bytes-two k (hex_digit (b / 16)) (hex_digit (b % 16)) s rest (e ∙ skip_blanks-hex b rest h)
    ∙ ap (λ t. from_chars 8 16 t ∷ data_bytes k rest) (sym (hex_two b h))
    ∙ ap (λ (v : ℕ). v ∷ data_bytes k rest) (from_chars-hex b h)

data_bytes-more :
    (k : ℕ) (bs : List ℕ)
    → length bs ≤ k
    → All (λ b. b < 256) bs
    → data_bytes k (more_bytes bs) ≡ bs
unfolding more_bytes All data_bytes skip_blanks
data_bytes-more zero [] h a = refl
data_bytes-more (suc k) [] h a = refl
data_bytes-more zero (b ∷ bs) h a = absurd (omega arith)
data_bytes-more (suc k) (b ∷ bs) h a =
    data_bytes-hex k b (32 ∷ (hex 2 b ++ more_bytes bs)) (more_bytes bs) a.0 refl
    ∙ ap (λ r. b ∷ r) (data_bytes-more k bs (omega arith) a.1)

pub data_bytes-data_text :
    (k : ℕ) (bs : List ℕ) → length bs ≤ k → All (λ b. b < 256) bs → data_bytes k (data_text bs) ≡ bs
unfolding data_text All data_bytes skip_blanks
data_bytes-data_text zero [] h a = refl
data_bytes-data_text (suc k) [] h a = refl
data_bytes-data_text zero (b ∷ bs) h a = absurd (omega arith)
data_bytes-data_text (suc k) (b ∷ bs) h a =
    data_bytes-hex k b (hex 2 b ++ more_bytes bs) (more_bytes bs) a.0 refl
    ∙ ap (λ r. b ∷ r) (data_bytes-more k bs (omega arith) a.1)
