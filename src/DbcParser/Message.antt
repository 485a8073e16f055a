-- ===== src/DbcParser/Message.antt =====
-- `DbcParser::parseMessage`: a `BO_` line with the `SG_` lines below it.
use cancept.Prelude.{ℕ, zero, suc, List, [], ◌∷◌, ◌++◌, none}
use cancept.Core.Float.{Float}
use cancept.Core.Dto.{DbcSignalDescription, DbcMessageDescription}
use cancept.DbcParser.Monad.{
  M, ◌>>=◌, ◌>>◌, absent, parsed, if_starts, if_parsed, valid_or, fuelled,
}
use cancept.DbcParser.Lexer.{keyword, erase_spaces, expect, parse_c_identifier, parse_uint}
use cancept.DbcParser.Signal.{parse_signal}

module _ (F : Float) where
  open F use {Real}

  -- `{}`
  unfoldable pub empty_message : DbcMessageDescription Real
  empty_message = record {
    message_id = 0;
    message_name = [];
    message_size = 0;
    transmitter_name = [];
    signal_descriptions = [];
  }

  -- The loop over the signals, which returns from the function where a signal is malformed.
  unfoldable pub parse_signals :
      ℕ
      → DbcMessageDescription Real
      → List (DbcSignalDescription Real)
      → M (DbcMessageDescription Real)
  unfolding parse_signal empty_message
  parse_signals zero message signals = λ p. none
  parse_signals (suc fuel) message signals = do
    signal ← parse_signal F
    if_parsed (parse_signals fuel message (signals ++ signal ∷ []))
        (valid_or empty_message (parsed (record message { signal_descriptions = signals })))

  unfoldable pub parse_message : M (DbcMessageDescription Real)
  unfolding keyword erase_spaces parse_uint parse_c_identifier expect parse_signals empty_message
  parse_message = do
    erase_spaces
    if_starts "BO_TX_BU_" (absent empty_message) (
        keyword "BO_" 3
          (parse_uint >>= λ message_id. valid_or empty_message (
            parse_c_identifier >>= λ message_name. valid_or empty_message (
              expect ":" empty_message (
                parse_uint >>= λ message_size. valid_or empty_message (
                  parse_c_identifier >>= λ transmitter. valid_or empty_message (
                    fuelled λ fuel.
                      parse_signals fuel
                        (record {
                          message_id = message_id;
                          message_name = message_name;
                          message_size = message_size;
                          transmitter_name = transmitter;
                          signal_descriptions = [];
                        })
                        []))))))
          (absent empty_message))
