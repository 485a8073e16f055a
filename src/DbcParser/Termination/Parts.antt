-- ===== src/DbcParser/Termination/Parts.antt =====
-- The functions that read one part of a file are total, and those called in a loop take some of it.
use cancept.Prelude.{ℕ, zero, suc, Bool, List, [], ◌∷◌, ◌++◌, ◌&&◌, ◌||◌, ◌==◌, Bytes, arith}
use cancept.Core.Float.{Float}
use cancept.Core.Dto.{DbcMessageDescription, DbcSignalDescription}
use cancept.DbcParser.Monad.{M, ◌>>=◌, ◌>>◌, ret, parsed, if_starts, valid_or, skip}
use cancept.DbcParser.Lexer.{parse_c_identifier, erase_spaces}
use cancept.DbcParser.Signal.{
  parse_multiplexing, parse_receivers, parse_sign, finish_signal, parse_scaling, parse_layout,
  parse_signal,
}
use cancept.DbcParser.Message.{empty_message, parse_signals, parse_message}
use cancept.DbcParser.Termination.Rules.{Ends, Total, Takes, by_parsed, elim-Ends, ret-Total}
use cancept.DbcParser.Termination.Tokens.{
  tokens, takes, after_keyword-Takes, parse_c_identifier-Takes,
}
use cancept.DbcParser.Termination.Loops.{
  loops, Below, zero-Below, fuelled-Total, if_valid_round, if_parsed_round,
}

parse_multiplexing-Total : Total parse_multiplexing
unfolding parse_multiplexing
parse_multiplexing-Total = search tokens depth 12

receiver_round :
    (n : ℕ) (loop : M (List Bytes)) (a : Bytes)
    → Below n loop
    → Below n (
        erase_spaces
        >> if_starts "," (skip 1 >> loop >>= λ receivers. ret (a ∷ receivers)) (ret (a ∷ [])))
receiver_round n loop a h = search (loops, tokens) depth 12

parse_receivers-Below : (n : ℕ) → Below n (parse_receivers n)
unfolding parse_receivers
parse_receivers-Below zero = zero-Below _
parse_receivers-Below (suc n) =
    if_valid_round n parse_c_identifier _ _ parse_c_identifier-Takes
      (λ a. receiver_round n (parse_receivers n) a (parse_receivers-Below n)) (λ _. ret-Total [])

module _ (F : Float) where
  open F use {Real}

  finish_signal-Total :
      (b : ℕ) (signal : DbcSignalDescription Real) → Total (finish_signal F b signal)
  unfolding finish_signal Total Ends
  finish_signal-Total b signal p =
      elim-Ends (p.parsing_valid && (b == 0 || b == 1)) _ _ _ (omega arith) (omega arith)

  parse_scaling-Total :
      (b : ℕ) (signal : DbcSignalDescription Real) → Total (parse_scaling F b signal)
  unfolding parse_scaling
  parse_scaling-Total b signal =
      search (tokens, finish_signal-Total, fuelled-Total, parse_receivers-Below) depth 40

  parse_sign-Total :
      (rest : Bool → M (DbcSignalDescription Real))
      → ((b : Bool) → Total (rest b))
      → Total (parse_sign F rest)
  unfolding parse_sign
  parse_sign-Total rest t = search tokens depth 12

  parse_layout-Total : (signal : DbcSignalDescription Real) → Total (parse_layout F signal)
  unfolding parse_layout
  parse_layout-Total signal = search (tokens, parse_scaling-Total, parse_sign-Total) depth 40

  parse_signal-Takes : Takes by_parsed (parse_signal F)
  unfolding parse_signal
  parse_signal-Takes =
      search (tokens, after_keyword-Takes, parse_multiplexing-Total, parse_layout-Total) depth 20

  signals_end :
      (message : DbcMessageDescription Real) → Total (valid_or (empty_message F) (parsed message))
  signals_end message = search tokens

  parse_signals-Below :
      (n : ℕ) (message : DbcMessageDescription Real) (signals : List (DbcSignalDescription Real))
      → Below n (parse_signals F n message signals)
  unfolding parse_signals
  parse_signals-Below zero message signals = zero-Below _
  parse_signals-Below (suc n) message signals =
      if_parsed_round n (parse_signal F) _ _ parse_signal-Takes
        (λ signal. parse_signals-Below n message (signals ++ signal ∷ [])) (λ _. signals_end _)

  pub parse_message-Takes : Takes by_parsed (parse_message F)
  unfolding parse_message
  parse_message-Takes = search (tokens, takes, fuelled-Total, parse_signals-Below) depth 40
