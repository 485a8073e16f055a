-- ===== src/DbcParser/Sections.antt =====
-- The functions of `DbcParser` that read one section of a file each, apart from the messages.
use cancept.Prelude.{
  ℕ, zero, suc, Bool, true, false, ◌||◌, List, [], ◌∷◌, ◌++◌, none, some, ◌+◌, ◌/◌, ◌%◌, ltb, Bytes,
  codes, equal,
}
use Prim.Native.String.{String}
use cancept.DbcParser.Monad.{
  M, ◌>>=◌, ◌>>◌, ret, absent, invalid, parsed, if_starts, if_valid, valid_or, skip, put_back,
  fuelled,
}
use cancept.DbcParser.Lexer.{
  after_keyword, erase_spaces, expect, parse_c_identifier, parse_uint, parse_string,
  truncate_to_next_semicolon,
}

-- The sections that are skipped up to their semicolon differ in their keyword only.
unfoldable pub parse_skipped : String → M Bool
unfolding erase_spaces truncate_to_next_semicolon
parse_skipped keyword = do
  erase_spaces
  if_starts keyword (λ p. truncate_to_next_semicolon (record p { parsed_object = true }))
      (absent false)

unfoldable pub parse_value_table : M Bool
unfolding parse_skipped
parse_value_table = parse_skipped "VAL_TABLE_"

unfoldable pub parse_message_transmitter : M Bool
unfolding parse_skipped
parse_message_transmitter = parse_skipped "BO_TX_BU_"

unfoldable pub parse_environment_variable : M Bool
unfolding parse_skipped
parse_environment_variable = parse_skipped "EV_"

unfoldable pub parse_signal_type : M Bool
unfolding parse_skipped
parse_signal_type = parse_skipped "SGTYPE_"

unfoldable pub parse_signal_type_reference : M Bool
unfolding parse_skipped
parse_signal_type_reference = parse_skipped "SGTYPE_"

unfoldable pub parse_attribute_definition : M Bool
unfolding parse_skipped
parse_attribute_definition = parse_skipped "BA_DEF_"

unfoldable pub parse_attribute_default : M Bool
unfolding parse_skipped
parse_attribute_default = parse_skipped "BA_DEF_DEF_"

unfoldable pub parse_attribute_value : M Bool
unfolding parse_skipped
parse_attribute_value = parse_skipped "BA_"

-- The same without a result.
unfoldable pub parse_environment_variable_data : M (Unit {0})
unfolding parse_skipped
parse_environment_variable_data = parse_skipped "ENVVAR_DATA_" >> ret tt

unfoldable pub parse_signal_group : M (Unit {0})
unfolding parse_skipped
parse_signal_group = parse_skipped "SIG_GROUP_" >> ret tt

unfoldable pub parse_signal_extended_value_type_list : M (Unit {0})
unfolding parse_skipped
parse_signal_extended_value_type_list = parse_skipped "SIG_VALTYPE_" >> ret tt

unfoldable pub parse_version : M Bytes
unfolding after_keyword parse_string
parse_version = after_keyword "VERSION" 7 [] parse_string

-- The loop over the symbols stops before a colon and puts the symbol in front of it back.
unfoldable pub parse_symbols : ℕ → M (Unit {0})
unfolding parse_c_identifier put_back
parse_symbols zero = λ p. none
parse_symbols (suc fuel) = do
  symbol ← parse_c_identifier
  valid_or tt (if_starts ":" (put_back symbol) (parse_symbols fuel))

unfoldable pub parse_new_symbols : M (Unit {0})
unfolding after_keyword expect parse_symbols
parse_new_symbols = after_keyword "NS_" 3 tt (expect ":" tt (fuelled parse_symbols))

-- The ending of `parseBitTiming` behind the baud rate.
unfoldable pub parse_bit_registers : M (Unit {0})
unfolding erase_spaces expect parse_uint
parse_bit_registers =
    expect ":" tt (erase_spaces >> parse_uint >> expect "," tt (parse_uint >> ret tt))

unfoldable pub parse_bit_timing : M (Unit {0})
unfolding erase_spaces parse_uint parse_bit_registers skip
parse_bit_timing = do
  erase_spaces
  if_starts "BS_:"
      (skip 4
        >> erase_spaces
        >> if_starts "BU_" (λ p. some (tt, record p { parsing_valid = true; parsed_object = true }))
            (parse_uint
              >> if_valid parse_bit_registers
                  (λ p. some (tt, record p { parsing_valid = true; parsed_object = false }))))
      (invalid tt)

-- The set `symbols` of `dbc_parser.hpp`.
abbrev pub symbols : List String
symbols =
    "CM_" ∷ "BA_DEF_" ∷ "BA_" ∷ "VAL_" ∷ "CAT_DEF_" ∷ "CAT_" ∷ "FILTER" ∷ "BA_DEF_DEF_" ∷ "EV_DATA_"
    ∷ "ENVVAR_DATA_" ∷ "SGTYPE_" ∷ "SGTYPE_VAL_" ∷ "BA_DEF_SGTYPE_" ∷ "BA_SGTYPE_" ∷ "SIG_TYPE_REF_"
    ∷ "VAL_TABLE_" ∷ "SIG_GROUP_" ∷ "SIG_VALTYPE_" ∷ "SIGTYPE_VALTYPE_" ∷ "BO_TX_BU_"
    ∷ "BA_DEF_REL_" ∷ "BA_REL_" ∷ "BA_DEF_DEF_REL_" ∷ "BU_SG_REL_" ∷ "BU_EV_REL_" ∷ "BU_BO_REL_"
    ∷ "BO_" ∷ []

unfoldable pub is_in : Bytes → List String → Bool
unfolding equal
is_in s [] = false
is_in s (k ∷ ks) = equal s (codes k) || is_in s ks

unfoldable pub parse_node_list : ℕ → List Bytes → M (List Bytes)
unfolding parse_c_identifier is_in put_back
parse_node_list zero nodes = λ p. none
parse_node_list (suc fuel) nodes = do
  node ← parse_c_identifier
  valid_or [] λ p. elim (is_in node symbols) [
    | true ↦ (put_back node >> parsed nodes) p
    | false ↦ parse_node_list fuel (nodes ++ node ∷ []) p
  ]

unfoldable pub parse_nodes : M (List Bytes)
unfolding erase_spaces parse_node_list skip
parse_nodes = do
  erase_spaces
  if_starts "BU_:" (skip 4 >> fuelled λ fuel. parse_node_list fuel []) (invalid [])

-- `std::to_string` of an unsigned number: the digits in front of those of `rest`.
unfoldable pub digits_before : ℕ → ℕ → Bytes → Bytes
digits_before zero n rest = rest
digits_before (suc fuel) n rest =
    let next = (b'0' + n % 10) ∷ rest in
    elim (ltb n 10) [ true ↦ next | false ↦ digits_before fuel (n / 10) next ]

unfoldable pub to_string : ℕ → Bytes
unfolding digits_before
to_string n = digits_before (suc n) n []

-- `preComment`: what the comment is on.
unfoldable pub parse_comment_subject : M Bytes
unfolding parse_c_identifier parse_uint to_string skip
parse_comment_subject =
    if_starts "BU_"
      (skip 3 >> parse_c_identifier >>= λ name. ret (codes "Node: " ++ name ++ codes " "))
      (if_starts "BO_"
        (skip 3 >> parse_uint >>= λ id. ret (codes "Message: " ++ to_string id ++ codes " "))
        (if_starts "SG_"
          (skip 3 >> parse_uint >>= λ id. parse_c_identifier >>= λ name.
            ret (codes "Signal: " ++ to_string id ++ codes " " ++ name ++ codes " "))
          (if_starts "EV_"
            (skip 3 >> parse_c_identifier >>= λ name.
              ret (codes "Environment variable: " ++ name ++ codes " "))
            (ret []))))

unfoldable pub parse_comment : M Bytes
unfolding after_keyword erase_spaces expect parse_comment_subject parse_string
parse_comment = after_keyword "CM_" 3 [] do
  erase_spaces
  subject ← parse_comment_subject
  comment ← parse_string
  valid_or [] (expect ";" [] (parsed (subject ++ comment)))
