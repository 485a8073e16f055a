-- ===== src/DbcParser/Values.antt =====
-- `DbcParser::parseSignalValue` and `parseValueDescription`.
use cancept.Prelude.{ℕ, zero, suc, List, [], ◌∷◌, ◌++◌, none}
use cancept.Core.Float.{Float}
use cancept.Core.Dto.{DbcValueDescription, DbcSignalValueDescription}
use cancept.Prelude.Int.{pos}
use cancept.DbcParser.Monad.{
  M, ◌>>=◌, ◌>>◌, ret, parsed, if_starts, if_valid, valid_or, skip, fuelled,
}
use cancept.DbcParser.Lexer.{
  after_keyword, erase_spaces, parse_c_identifier, parse_uint, parse_double, parse_string,
}

module _ (F : Float) where
  open F use {Real, of_ℤ}

  unfoldable pub parse_value_description : M (DbcValueDescription Real)
  unfolding parse_double parse_string
  parse_value_description = do
    value ← parse_double F
    meaning ← parse_string
    valid_or (record { value = of_ℤ (pos 0); meaning = [] })
        (ret (record { value = value; meaning = meaning }))

  -- The loop over the descriptions, up to the semicolon or the first malformed one.
  unfoldable pub parse_value_list :
      ℕ → List (DbcValueDescription Real) → M (List (DbcValueDescription Real))
  unfolding erase_spaces parse_value_description skip
  parse_value_list zero values = λ p. none
  parse_value_list (suc fuel) values = do
    erase_spaces
    if_starts ";" (skip 1 >> ret values) (
        parse_value_description >>= λ value.
        if_valid (parse_value_list fuel (values ++ value ∷ [])) (ret values))

  unfoldable pub empty_signal_value : DbcSignalValueDescription Real
  empty_signal_value = record { message_id = 0; signal_name = []; signal_descriptions = [] }

  unfoldable pub parse_signal_value : M (DbcSignalValueDescription Real)
  unfolding after_keyword parse_uint parse_c_identifier parse_value_list empty_signal_value
  parse_signal_value = after_keyword "VAL_" 4 empty_signal_value do
    message_id ← parse_uint
    signal_name ← parse_c_identifier
    values ← fuelled λ fuel. parse_value_list fuel []
    valid_or empty_signal_value (
        parsed (record {
          message_id = message_id;
          signal_name = signal_name;
          signal_descriptions = values;
        }))
