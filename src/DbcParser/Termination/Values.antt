-- ===== src/DbcParser/Termination/Values.antt =====
-- The value descriptions: total, and some of the file taken by each.
use cancept.Prelude.{ℕ, zero, suc, List, [], ◌∷◌, ◌++◌}
use cancept.Core.Float.{Float}
use cancept.Core.Dto.{DbcValueDescription}
use cancept.DbcParser.Monad.{M, ◌>>=◌, ◌>>◌, ret, if_valid, valid_or, skip}
use cancept.DbcParser.Lexer.{parse_double, parse_string, erase_spaces}
use cancept.DbcParser.Values.{parse_value_description, parse_value_list, parse_signal_value}
use cancept.DbcParser.Termination.Rules.{
  Ends, Takes, by_valid, by_parsed, bind-Takes, ret-Total, Ends-bind, test-Ends,
}
use cancept.DbcParser.Termination.Tokens.{
  tokens, takes, parse_double-Total, parse_string-Takes, erase_spaces-Total,
}
use cancept.DbcParser.Termination.Loops.{
  bind-Below, if_starts-Below, Below, Total-Below, zero-Below, fuelled-Total, if_valid_round,
}

-- A part that needs what was read before it to be valid.
valid_end :
    {A B : Type 0} (m : M A) (f : A → B) (v : B)
    → Takes by_valid m
    → Takes by_valid (m >>= λ a. valid_or v (ret (f a)))
unfolding Takes Ends
valid_end m f v t p =
    Ends-bind (m p) (λ a. valid_or v (ret (f a))) _ (t p)
      λ a q k. test-Ends q.parsing_valid _ _ _ (λ e. k) (λ e. (k.0, λ e'. k.1 e'))

module _ (F : Float) where
  open F use {Real}

  parse_value_description-Takes : Takes by_valid (parse_value_description F)
  unfolding parse_value_description
  parse_value_description-Takes =
      bind-Takes by_valid (parse_double F) _ (parse_double-Total F)
        λ value. valid_end parse_string _ _ parse_string-Takes

  value_round :
      (n : ℕ) (loop : List (DbcValueDescription Real) → M (List (DbcValueDescription Real)))
      (values : List (DbcValueDescription Real))
      → ((xs : List (DbcValueDescription Real)) → Below n (loop xs))
      → Below (suc n) (
          parse_value_description F >>= λ value.
          if_valid (loop (values ++ value ∷ [])) (ret values))
  value_round n loop values h =
      if_valid_round n (parse_value_description F) _ _ parse_value_description-Takes
        (λ value. h (values ++ value ∷ [])) (λ _. ret-Total values)

  parse_value_list-Below :
      (n : ℕ) (values : List (DbcValueDescription Real)) → Below n (parse_value_list F n values)
  unfolding parse_value_list
  parse_value_list-Below zero values = zero-Below _
  parse_value_list-Below (suc n) values =
      bind-Below (suc n) erase_spaces _ (Total-Below (suc n) erase_spaces erase_spaces-Total) λ _.
        if_starts-Below (suc n) ";" (skip 1 >> ret values) _
          (Total-Below (suc n) (skip 1 >> ret values) (search tokens))
          (value_round n (parse_value_list F n) values (parse_value_list-Below n))

  pub parse_signal_value-Takes : Takes by_parsed (parse_signal_value F)
  unfolding parse_signal_value
  parse_signal_value-Takes = search (takes, tokens, fuelled-Total, parse_value_list-Below) depth 40
