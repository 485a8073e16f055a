-- ===== src/DbcParser/Tests.antt =====
-- A run of the parser on a small file, and an instance of the theorem on it.
use cancept.Prelude.{
  ℕ, ◌≡◌, refl, false, [], ◌∷◌, Option, none, some, Bytes, codes, length, starts_with, equal, ◌++◌,
  arith, true, Bool,
}
use cancept.Core.Dto.{DbcConfig}
use cancept.Core.Sample.{whole}
use cancept.Prelude.Int.{ℤ}
use cancept.Core.Dto.{DbcSignalDescription}
use cancept.DbcParser.Lexer.{parse_uint, ends_uint, ends_double, ends_identifier}
use cancept.DbcParser.Signal.{parse_signal}
use cancept.DbcParser.Sections.{to_string, parse_comment}
use cancept.DbcParser.Numbers.{parse_uint-to_string}
use cancept.DbcParser.Monad.{Parser}
use cancept.DbcParser.File.{parse_dbc, parse_file}
use cancept.DbcParser.Termination.Whole.{Complete, parse_dbc-returns}

-- The file as `FileParser` joins its lines.
abbrev small_file : Bytes
unfolding parse_file
small_file = parse_file (
    codes "VERSION \"1\""
    ∷ codes "NS_ : CM_"
    ∷ codes "BS_:"
    ∷ codes "BU_: Dash"
    ∷ codes "BO_ 256 Speed: 8 Dash"
    ∷ codes " SG_ Rpm : 0|16@1+ (1,0) [0|0] \"rpm\" Dash, Gate"
    ∷ codes "CM_ BO_ 256 \"speed\";"
    ∷ codes "VAL_ 256 Rpm 1 \"on\" ;"
    ∷ [])

abbrev small_parser : Parser
small_parser = record { file = small_file; parsing_valid = false; parsed_object = false }

parse_dbc-returns_example :
    (result : Option (DbcConfig ℤ)) × (q : Parser) × (parse_dbc whole small_parser
      ≡ some (result, q))
    × Complete result q
parse_dbc-returns_example = parse_dbc-returns whole small_parser

-- The number of messages and of comments of the config.
abbrev sizes : Option (Option (DbcConfig ℤ) × Parser) → ℕ × ℕ
sizes none = (0, 0)
sizes (some (none, q)) = (0, 0)
sizes (some (some config, q)) = (length config.message_definitions, length config.comments)

small_run : sizes (parse_dbc whole small_parser) ≡ (1, 1)
unfolding parse_dbc starts_with equal small_file
small_run = refl

parse_uint-to_string_example :
    parse_uint
      (record { file = to_string 256 ++ codes ": 8"; parsing_valid = false; parsed_object = false })
    ≡ some (256, record { file = codes ": 8"; parsing_valid = true; parsed_object = true })
unfolding ends_uint ends_double ends_identifier
parse_uint-to_string_example =
    parse_uint-to_string 256 b':' (codes " 8") false false (omega arith) refl

-- The start bit 2^32 is out of the range of `int`, and is read as 0.
abbrev first_start_bit : Option (DbcSignalDescription ℤ × Parser) → Option (ℕ × Bool)
first_start_bit none = none
first_start_bit (some (signal, q)) = some (signal.start_bit, q.parsing_valid)

large_start_bit :
    first_start_bit (
      parse_signal whole (record {
        file = codes "SG_ A : 4294967296|8@1+ (1,0) [0|0] \"\" X ";
        parsing_valid = true;
        parsed_object = true;
      }))
    ≡ some (0, true)
unfolding parse_signal starts_with equal
large_start_bit = refl

-- A comment without the name of its node is taken.
nameless_comment :
    parse_comment
      (record { file = codes "CM_ BU_ \"a\";"; parsing_valid = true; parsed_object = true })
    ≡ some (codes "Node:  a", record { file = []; parsing_valid = true; parsed_object = true })
unfolding parse_comment starts_with equal
nameless_comment = refl
