-- ===== src/SendingModel/Keys.antt =====
-- The keys "messageId:signalName": a digit is no colon, so that the two parts can be told apart.
use cancept.Prelude.{
  ℕ, ◌%◌, ◌^◌, ◌≡◌, sym, ap, ap₂, ◌∙◌, true, ◌&&◌, [], ◌∷◌, ◌++◌, Bytes, arith, ◌==◌, equal,
  equal_iff,
}
use cancept.DbcParser.Lexer.{is_digit, every, digits_value}
use cancept.DbcParser.Sections.{to_string}
use cancept.DbcParser.Numbers.{to_string_digits, digits_value-to_string}
use cancept.SendingModel.State.{make_signal_key}

append_cut :
    (s t a b : Bytes)
    → every is_digit s ≡ true
    → every is_digit t ≡ true
    → s ++ b':' ∷ a ≡ t ++ b':' ∷ b
    → (s ≡ t) × (a ≡ b)
unfolding every is_digit
append_cut [] [] a b h k e = ground arith
append_cut [] (d ∷ t) a b h k e = ground arith
append_cut (c ∷ s) [] a b h k e = ground arith
append_cut (c ∷ s) (d ∷ t) a b h k e = ground (arith, append_cut s t a b)

-- Two signals have the same key only if the identifiers of their messages have the same lower 16
-- bits and their names are the same.
pub make_signal_key-injective :
    (i j : ℕ) (n m : Bytes)
    → make_signal_key i n ≡ make_signal_key j m
    → (i % 2 ^ 16 ≡ j % 2 ^ 16) × (n ≡ m)
unfolding make_signal_key
make_signal_key-injective i j n m e =
    let parts =
      append_cut (to_string (i % 2 ^ 16)) (to_string (j % 2 ^ 16)) n m
        (to_string_digits (i % 2 ^ 16)) (to_string_digits (j % 2 ^ 16)) e in
    (
      sym (digits_value-to_string (i % 2 ^ 16))
          ∙ ap (digits_value 0) parts.0
          ∙ digits_value-to_string (j % 2 ^ 16),
      parts.1,
    )

same_key :
    (i j : ℕ) (n m : Bytes)
    → i % 2 ^ 16 ≡ j % 2 ^ 16
    → n ≡ m
    → make_signal_key i n ≡ make_signal_key j m
unfolding make_signal_key
same_key i j n m e k = ap₂ (λ (a : ℕ) b. to_string a ++ b':' ∷ b) e k

-- The test that finds a key.
pub equal-make_signal_key :
    (i j : ℕ) (n m : Bytes)
    → equal (make_signal_key i n) (make_signal_key j m) ≡ ((i % 2 ^ 16 == j % 2 ^ 16) && equal n m)
equal-make_signal_key i j n m = ground (
  arith,
  equal_iff (make_signal_key i n) (make_signal_key j m),
  equal_iff n m,
  make_signal_key-injective i j n m,
  same_key i j n m,
)
