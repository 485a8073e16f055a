-- ===== src/DbcParser/Lexer.antt =====
-- The functions of `DbcParser` that read one token.
use cancept.Prelude.{
  ℕ, ◌+◌, ◌-◌, ◌*◌, ◌^◌, Bool, true, false, ◌&&◌, ◌||◌, [], ◌∷◌, Option, none, some, ltb, leb, ◌==◌,
  if◌then◌else◌, Bytes, drop,
}
use cancept.Core.Float.{Float}
use Prim.Native.String.{String}
use cancept.Prelude.Int.{pos}
use cancept.DbcParser.Monad.{Parser, M, ◌>>◌, ret, absent, invalid, if_starts, skip}

-- `isspace` in the C locale, the classes `\d` and `\w` of `std::regex`.
unfoldable pub is_space : ℕ → Bool
is_space c = c == b' ' || leb 9 c && leb c 13

unfoldable pub is_digit : ℕ → Bool
is_digit c = leb b'0' c && leb c b'9'

unfoldable pub is_word : ℕ → Bool
unfolding is_digit
is_word c = leb b'a' c && leb c b'z' || leb b'A' c && leb c b'Z' || is_digit c || c == b'_'

-- The sets that `find_first_of` is called with.
unfoldable pub ends_identifier : ℕ → Bool
ends_identifier c = c == b' ' || c == b':' || c == b';' || c == b','

unfoldable pub ends_double : ℕ → Bool
unfolding ends_identifier
ends_double c = ends_identifier c || c == b'|' || c == b']' || c == b'@' || c == b')'

unfoldable pub ends_uint : ℕ → Bool
unfolding ends_double
ends_uint c = ends_double c || c == b'+' || c == b'-'

-- `file.substr(0, pos)` and `file.substr(pos)` for the first position `pos` of such a byte.
unfoldable pub split_first : (ℕ → Bool) → Bytes → Option (Bytes × Bytes)
split_first stop [] = none
split_first stop (c ∷ cs) =
    if stop c
    then some ([], c ∷ cs)
    else elim (split_first stop cs) [ none ↦ none | some (front, back) ↦ some (c ∷ front, back) ]

unfoldable pub every : (ℕ → Bool) → Bytes → Bool
every test [] = true
every test (c ∷ cs) = test c && every test cs

-- The full matches of `\w+` and of `\d+`.
unfoldable pub is_nonempty : Bytes → Bool
is_nonempty [] = false
is_nonempty (c ∷ cs) = true

unfoldable pub matches_identifier : Bytes → Bool
unfolding is_nonempty every is_word
matches_identifier s = is_nonempty s && every is_word s

unfoldable pub matches_uint : Bytes → Bool
unfolding is_nonempty every is_digit
matches_uint s = is_nonempty s && every is_digit s

-- `(\+|-)?\d+(\.\d+)?`: behind the sign, behind the first digit, and the part after the point.
unfoldable pub matches_digits : Bytes → Bool
unfolding matches_uint
matches_digits [] = true
matches_digits (c ∷ cs) = if c == b'.' then matches_uint cs else is_digit c && matches_digits cs

unfoldable pub matches_unsigned : Bytes → Bool
unfolding matches_digits
matches_unsigned [] = false
matches_unsigned (c ∷ cs) = is_digit c && matches_digits cs

unfoldable pub matches_double : Bytes → Bool
unfolding matches_unsigned
matches_double [] = false
matches_double (c ∷ cs) =
    if c == b'+' || c == b'-' then matches_unsigned cs else matches_unsigned (c ∷ cs)

-- The value of a text of digits, behind a value `acc`.
unfoldable pub digits_value : ℕ → Bytes → ℕ
digits_value acc [] = acc
digits_value acc (c ∷ cs) = digits_value (acc * 10 + (c - b'0')) cs

unfoldable pub spaces_erased : Bytes → Bytes
unfolding is_space
spaces_erased [] = []
spaces_erased (c ∷ cs) = if is_space c then spaces_erased cs else c ∷ cs

unfoldable pub erase_spaces : M (Unit {0})
unfolding spaces_erased
erase_spaces p = some (tt, record p { file = spaces_erased p.file })

-- The common part of three functions: the text up to a delimiter, if it has the right form.
unfoldable pub parse_token : {A : Type 0} → (ℕ → Bool) → (Bytes → Bool) → A → (Bytes → M A) → M A
unfolding erase_spaces split_first
parse_token stop good failure use_text p =
    let q : Parser = record p { file = spaces_erased p.file } in
    elim (split_first stop q.file) [
      | none ↦ invalid failure q
      | some (front, back) ↦
          if good front
          then use_text front (record { file = back; parsing_valid = true; parsed_object = true })
          else invalid failure q
    ]

unfoldable pub parse_c_identifier : M Bytes
unfolding parse_token ends_identifier matches_identifier
parse_c_identifier = parse_token ends_identifier matches_identifier [] ret

-- `std::stoi` throws for a value outside `int`; the handler clears `parsingValid`, returns 0, and
-- leaves the text taken.
unfoldable pub stoi : Bytes → M ℕ
unfolding digits_value
stoi s p =
    let value = digits_value 0 s in
    if ltb value (2 ^ 31) then some (value, p) else some (0, record p { parsing_valid = false })

unfoldable pub parse_uint : M ℕ
unfolding parse_token ends_uint matches_uint stoi
parse_uint = parse_token ends_uint matches_uint 0 stoi

unfoldable pub is_quote : ℕ → Bool
is_quote c = c == b'"'

-- Behind the opening quote.
unfoldable pub parse_quoted : M Bytes
unfolding split_first is_quote
parse_quoted p = elim (split_first is_quote p.file) [
  | none ↦ invalid [] p
  | some (front, back) ↦
      some (front, record { file = drop 1 back; parsing_valid = true; parsed_object = true })
]

-- `if (file.starts_with(s)) { file = file.substr(n); … } else …`
unfoldable pub keyword : {A : Type 0} → String → ℕ → M A → M A → M A
unfolding skip
keyword s n rest other = if_starts s (skip n >> rest) other

unfoldable pub parse_string : M Bytes
unfolding erase_spaces keyword parse_quoted
parse_string = erase_spaces >> keyword "\"" 1 parse_quoted (invalid [])

unfoldable pub is_semicolon : ℕ → Bool
is_semicolon c = c == b';'

unfoldable pub truncate_to_next_semicolon : M Bool
unfolding split_first is_semicolon
truncate_to_next_semicolon p = elim (split_first is_semicolon p.file) [
  | none ↦ invalid false p
  | some (front, back) ↦ some (true, record p { file = drop 1 back; parsed_object = true })
]

module _ (F : Float) where
  open F use {Real, of_ℤ, strtod}

  unfoldable pub parse_double : M Real
  unfolding parse_token ends_double matches_double
  parse_double = parse_token ends_double matches_double (of_ℤ (pos 0)) (λ s. ret (strtod s))

-- `eraseSpaces(); if (!file.starts_with(s)) { … return v; } file = file.substr(1);`, and what
-- follows, for a text of one byte.
unfoldable pub expect : {A : Type 0} → String → A → M A → M A
unfolding erase_spaces skip
expect s v rest = do erase_spaces; if_starts s (skip 1 >> rest) (invalid v)

-- `eraseSpaces(); if (!file.starts_with(s)) { parsedObject = false; return v; }
-- file = file.substr(n);`, and what follows.
unfoldable pub after_keyword : {A : Type 0} → String → ℕ → A → M A → M A
unfolding erase_spaces keyword
after_keyword s n v rest = erase_spaces >> keyword s n rest (absent v)
