-- ===== src/DbcParser/File.antt =====
-- `DbcParser::parseDbc` and `provideNewFile`, and `FileParser::parseFile` in
-- `can_handler/dbc_handler/file_parser.cpp`, which makes the text that is parsed.
use cancept.Prelude.{
  ℕ, zero, suc, Bool, true, false, List, [], ◌∷◌, ◌++◌, Option, none, some, ◌==◌, Bytes, codes,
}
use cancept.Core.Float.{Float}
use cancept.Core.Dto.{DbcSignalValueDescription, DbcConfig}
use cancept.DbcParser.Monad.{Parser, M, ◌>>=◌, ◌>>◌, ret, if_parsed, valid_or, fuelled}
use cancept.DbcParser.Lexer.{erase_spaces}
use cancept.DbcParser.Message.{parse_message}
use cancept.DbcParser.Sections.{
  parse_version, parse_new_symbols, parse_bit_timing, parse_nodes, parse_comment, parse_value_table,
  parse_message_transmitter, parse_environment_variable, parse_environment_variable_data,
  parse_signal_type, parse_signal_type_reference, parse_attribute_definition,
  parse_attribute_default, parse_attribute_value, parse_signal_group,
  parse_signal_extended_value_type_list,
}
use cancept.DbcParser.Values.{parse_signal_value}

-- `while (parse()) { IF_PARSING_INVALID_RETURN({nullptr}) }`, and what follows it.
unfoldable pub skip_all : {D : Type 0} → M Bool → ℕ → M (Option D) → M (Option D)
skip_all parse zero rest = λ p. none
skip_all parse (suc fuel) rest = parse >>= λ more.
    λ p. elim more [ true ↦ valid_or none (skip_all parse fuel rest) p | false ↦ rest p ]

-- `while (true) { x = parse(); if (!parsedObject) { IF_PARSING_INVALID_RETURN({nullptr}) break; }
-- xs.push_back(x); }`, and what follows it.
unfoldable pub collect : {A D : Type 0} → M A → ℕ → List A → (List A → M (Option D)) → M (Option D)
collect parse zero xs rest = λ p. none
collect parse (suc fuel) xs rest = do
  x ← parse
  if_parsed (collect parse fuel (xs ++ x ∷ []) rest) (valid_or none (rest xs))

abbrev pub skipping : {D : Type 0} → M Bool → M (Option D) → M (Option D)
skipping parse rest = fuelled λ fuel. skip_all parse fuel rest

abbrev pub collecting : {A D : Type 0} → M A → List A → (List A → M (Option D)) → M (Option D)
collecting parse xs rest = fuelled λ fuel. collect parse fuel xs rest

module _ (F : Float) where
  open F use {Real}

  -- `none` in the value is the null pointer.
  unfoldable pub finish_dbc : DbcConfig Real → M (Option (DbcConfig Real))
  unfolding erase_spaces
  finish_dbc config =
      erase_spaces >> λ p. elim p.file [ [] ↦ ret (some config) p | _ ∷ _ ↦ ret none p ]

  -- From the signal values on.
  unfoldable pub parse_values :
      (List (DbcSignalValueDescription Real) → DbcConfig Real) → M (Option (DbcConfig Real))
  unfolding parse_signal_value skip_all collect finish_dbc parse_signal_type_reference
      parse_signal_group parse_signal_extended_value_type_list
  parse_values config = collecting (parse_signal_value F) [] λ values.
      skipping parse_signal_type_reference (
        parse_signal_group
        >> valid_or none
            (parse_signal_extended_value_type_list >> valid_or none (finish_dbc (config values))))

  -- From the message transmitters to the comments behind the attributes.
  unfoldable pub parse_annotations :
      (List Bytes → M (Option (DbcConfig Real))) → M (Option (DbcConfig Real))
  unfolding skip_all collect parse_message_transmitter parse_environment_variable
      parse_environment_variable_data parse_signal_type parse_comment parse_attribute_definition
      parse_attribute_default parse_attribute_value
  parse_annotations rest = skipping parse_message_transmitter (
      skipping parse_environment_variable (
        parse_environment_variable_data
        >> valid_or none (
            skipping parse_signal_type (
              collecting parse_comment [] λ comments. skipping parse_attribute_definition (
                skipping parse_attribute_default
                  (skipping parse_attribute_value (collecting parse_comment comments rest)))))))

  unfoldable pub parse_dbc_body : M (Option (DbcConfig Real))
  unfolding parse_version parse_new_symbols parse_bit_timing parse_nodes parse_value_table
      parse_message skip_all collect parse_annotations parse_values
  parse_dbc_body = parse_version >>= λ version.
      parse_new_symbols
      >> valid_or none (
          parse_bit_timing
          >> valid_or none (
              parse_nodes >>= λ nodes. valid_or none (
                skipping parse_value_table (
                  collecting (parse_message F) [] λ messages. parse_annotations λ comments.
                    parse_values λ values. record {
                      node_definitions = nodes;
                      message_definitions = messages;
                      signal_value_descriptions = values;
                      comments = comments;
                      meta_data = record { version = version; file_name = [] };
                    }))))

  unfoldable pub parse_dbc : M (Option (DbcConfig Real))
  unfolding parse_dbc_body
  parse_dbc p = parse_dbc_body (record p { parsing_valid = true; parsed_object = true })

unfoldable pub provide_new_file : Bytes → Parser → Parser
provide_new_file new_file p = record p { file = new_file }

-- `line.pop_back()` for a line that ends in a carriage return.
unfoldable pub without_return : Bytes → Bytes
without_return [] = []
without_return (c ∷ []) = elim (c == 13) [ true ↦ [] | false ↦ c ∷ [] ]
without_return (c ∷ d ∷ cs) = c ∷ without_return (d ∷ cs)

-- The lines, as `std::getline` takes them out of the file, become one text.
unfoldable pub parse_file : List Bytes → Bytes
unfolding without_return
parse_file [] = []
parse_file (line ∷ lines) = without_return line ++ codes " " ++ parse_file lines
