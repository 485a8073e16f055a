-- ===== src/DbcParser/Termination/Sections.antt =====
-- The sections apart from the messages: total, and some of the file taken by those in a loop.
use cancept.Prelude.{
  ℕ, zero, suc, Bool, true, false, List, [], ◌∷◌, ◌++◌, some, Bytes, codes, length-append,
  starts_with, arith,
}
use Prim.Native.String.{String}
use cancept.DbcParser.Monad.{absent, put_back}
use cancept.DbcParser.Lexer.{parse_c_identifier, truncate_to_next_semicolon}
use cancept.DbcParser.Sections.{
  parse_skipped, parse_version, parse_symbols, parse_new_symbols, parse_bit_registers,
  parse_bit_timing, symbols, is_in, parse_node_list, parse_nodes, parse_comment_subject,
  parse_comment,
}
use cancept.DbcParser.Termination.Rules.{
  Ends, Total, Takes, by_parsed, by_value, Ends-bind, Ends_mono, test-Ends, Takes-Total,
}
use cancept.DbcParser.Termination.Tokens.{
  tokens, takes, parse_c_identifier-Ends, erase_spaces-Total, truncate-Takes,
}
use cancept.DbcParser.Termination.Loops.{Below, fuelled-Total}

skipped_rest : Takes by_value λ p. truncate_to_next_semicolon (record p { parsed_object = true })
unfolding Takes
skipped_rest p = truncate-Takes (record p { parsed_object = true })

absent_value : Takes by_value (absent false)
unfolding Takes Ends
absent_value p = (omega arith, λ e. ground arith)

pub parse_skipped-Takes : (s : String) → Takes by_value (parse_skipped s)
unfolding parse_skipped
parse_skipped-Takes s = search (takes, erase_spaces-Total, skipped_rest, absent_value)

pub parse_version-Takes : Takes by_parsed parse_version
unfolding parse_version
parse_version-Takes = search (takes, tokens)

parse_bit_registers-Total : Total parse_bit_registers
unfolding parse_bit_registers
parse_bit_registers-Total = search tokens depth 12

timing_state :
    (b : Bool) → Total λ p. some (tt, record p { parsing_valid = true; parsed_object = b })
unfolding Total Ends
timing_state b p = omega arith

pub parse_bit_timing-Total : Total parse_bit_timing
unfolding parse_bit_timing
parse_bit_timing-Total = search (tokens, parse_bit_registers-Total, timing_state) depth 20

parse_comment_subject-Total : Total parse_comment_subject
unfolding parse_comment_subject
parse_comment_subject-Total = search tokens depth 20

pub parse_comment-Takes : Takes by_parsed parse_comment
unfolding parse_comment
parse_comment-Takes = search (takes, tokens, parse_comment_subject-Total) depth 20

-- The loops that put the last identifier back.
parse_symbols-Below : (n : ℕ) → Below n (parse_symbols n)
unfolding parse_symbols Below Ends put_back
parse_symbols-Below zero p h = absurd (omega arith)
parse_symbols-Below (suc n) p h =
    Ends-bind (parse_c_identifier p) _ _ (parse_c_identifier-Ends p) λ symbol q k.
      test-Ends q.parsing_valid _ _ _
        (λ e.
          test-Ends (starts_with q.file (codes ":")) _ _ _
            (λ _. omega (arith, length-append symbol q.file, k.1 e))
            (λ _.
              Ends_mono (parse_symbols n q) _ (parse_symbols-Below n q (omega (arith, k.2 e)))
                λ a r l. omega (arith, k.0)))
        (λ e. k.0)

pub parse_new_symbols-Total : Total parse_new_symbols
unfolding parse_new_symbols
parse_new_symbols-Total =
    Takes-Total by_parsed _ (search (takes, tokens, fuelled-Total, parse_symbols-Below))

parse_node_list-Below : (n : ℕ) (nodes : List Bytes) → Below n (parse_node_list n nodes)
unfolding parse_node_list Below Ends put_back
parse_node_list-Below zero nodes p h = absurd (omega arith)
parse_node_list-Below (suc n) nodes p h =
    Ends-bind (parse_c_identifier p) _ _ (parse_c_identifier-Ends p) λ node q k.
      test-Ends q.parsing_valid _ _ _
        (λ e.
          test-Ends (is_in node symbols) _ _ _
            (λ _. omega (arith, length-append node q.file, k.1 e))
            (λ _.
              Ends_mono (parse_node_list n (nodes ++ node ∷ []) q) _
                (parse_node_list-Below n (nodes ++ node ∷ []) q (omega (arith, k.2 e)))
                λ a r l. omega (arith, k.0)))
        (λ e. k.0)

pub parse_nodes-Total : Total parse_nodes
unfolding parse_nodes
parse_nodes-Total = search (tokens, fuelled-Total, parse_node_list-Below) depth 12
