-- ===== src/DbcParser/Signal.antt =====
-- `DbcParser::parseSignal`: one `SG_` line of a message.
use cancept.Prelude.{ℕ, zero, suc, Bool, true, false, ◌&&◌, ◌||◌, List, [], ◌∷◌, none, ◌==◌, Bytes}
use cancept.Prelude.Int.{ℤ, pos, negsuc}
use cancept.Core.Float.{Float}
use cancept.Core.Dto.{DbcSignalDescription}
use cancept.DbcParser.Monad.{
  M, ◌>>=◌, ◌>>◌, ret, invalid, parsed, if_starts, if_valid, skip, fuelled,
}
use cancept.DbcParser.Lexer.{
  after_keyword, erase_spaces, expect, parse_c_identifier, parse_uint, parse_double, parse_string,
}
use cancept.DbcParser.Range.{calculate_physical_range}

-- The mark behind the name: `multiplexor` and `multiplexerSwitchValue`.
unfoldable pub parse_multiplexing : M (Bool × ℤ)
unfolding parse_uint skip
parse_multiplexing = if_starts ":" (ret (false, negsuc 0)) (
    if_starts "M" (skip 1 >> ret (true, negsuc 0)) (
      if_starts "m" (skip 1 >> parse_uint >>= λ value. ret (false, pos value))
        (ret (false, negsuc 0))))

-- The loop over the receivers; it ends at the first one that no comma follows.
unfoldable pub parse_receivers : ℕ → M (List Bytes)
unfolding parse_c_identifier erase_spaces skip
parse_receivers zero = λ p. none
parse_receivers (suc fuel) = do
  receiver ← parse_c_identifier
  if_valid
      (erase_spaces
        >> if_starts ","
            (skip 1 >> parse_receivers fuel >>= λ receivers. ret (receiver ∷ receivers))
            (ret (receiver ∷ [])))
      (ret [])

module _ (F : Float) where
  open F use {Real, of_ℤ}

  -- `{}`
  unfoldable pub empty_signal : DbcSignalDescription Real
  empty_signal = record {
    signal_name = [];
    multiplexer = false;
    multiplexed_by = pos 0;
    start_bit = 0;
    signal_size = 0;
    byte_order = false;
    value_type = false;
    factor = of_ℤ (pos 0);
    offset = of_ℤ (pos 0);
    minimum = of_ℤ (pos 0);
    maximum = of_ℤ (pos 0);
    unit = [];
    receivers = [];
  }

  -- `+` and `-`, with what follows them.
  unfoldable pub parse_sign : (Bool → M (DbcSignalDescription Real)) → M (DbcSignalDescription Real)
  unfolding empty_signal skip
  parse_sign rest =
      if_starts "+" (skip 1 >> rest false)
        (if_starts "-" (skip 1 >> rest true) (invalid empty_signal))

  -- The end of the function, for the byte order as it is read.
  unfoldable pub finish_signal : ℕ → DbcSignalDescription Real → M (DbcSignalDescription Real)
  unfolding calculate_physical_range empty_signal
  finish_signal byte_order signal p =
      elim (p.parsing_valid && (byte_order == 0 || byte_order == 1)) [
        | true ↦ parsed (calculate_physical_range F signal) p
        | false ↦ invalid empty_signal p
      ]

  -- From the factor on.
  unfoldable pub parse_scaling : ℕ → DbcSignalDescription Real → M (DbcSignalDescription Real)
  unfolding expect parse_double parse_string parse_receivers finish_signal empty_signal
  parse_scaling byte_order signal = expect "(" empty_signal (
      parse_double F >>= λ factor. expect "," empty_signal (
        parse_double F >>= λ offset. expect ")" empty_signal (
          expect "[" empty_signal (
            parse_double F >>= λ minimum. expect "|" empty_signal (
              parse_double F >>= λ maximum. expect "]" empty_signal (
                parse_string >>= λ unit. fuelled parse_receivers >>= λ receivers.
                finish_signal byte_order (record signal {
                  factor = factor;
                  offset = offset;
                  minimum = minimum;
                  maximum = maximum;
                  unit = unit;
                  receivers = receivers;
                })))))))

  -- From the colon behind the name on.
  unfoldable pub parse_layout : DbcSignalDescription Real → M (DbcSignalDescription Real)
  unfolding expect parse_uint erase_spaces parse_sign parse_scaling empty_signal
  parse_layout signal = expect ":" empty_signal (
      parse_uint >>= λ start_bit. expect "|" empty_signal (
        parse_uint >>= λ signal_size. expect "@" empty_signal (
          parse_uint >>= λ byte_order.
          erase_spaces
          >> parse_sign λ value_type. parse_scaling byte_order (record signal {
            start_bit = start_bit;
            signal_size = signal_size;
            byte_order = byte_order == 0;
            value_type = value_type;
          }))))

  unfoldable pub parse_signal : M (DbcSignalDescription Real)
  unfolding after_keyword parse_c_identifier erase_spaces parse_multiplexing parse_layout
      empty_signal
  parse_signal = after_keyword "SG_" 3 empty_signal do
    name ← parse_c_identifier
    erase_spaces
    marks ← parse_multiplexing
    parse_layout (record empty_signal {
      signal_name = name;
      multiplexer = marks.0;
      multiplexed_by = marks.1;
    })
