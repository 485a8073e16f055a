-- ===== src/DbcParser/Termination/Whole.antt =====
-- `parseDbc` as a whole: it returns on every file, and a config only if nothing is left of the file.
use cancept.Prelude.{
  ℕ, zero, suc, ◌<◌, ◌≡◌, refl, Bool, true, List, [], ◌∷◌, ◌++◌, Option, none, some, Bytes, length,
  arith,
}
use Prim.Native.String.{String}
use cancept.Core.Float.{Float}
use cancept.Core.Dto.{DbcConfig, DbcSignalValueDescription}
use cancept.DbcParser.Monad.{Parser, M, ◌>>=◌, ◌>>◌, ret, valid_or}
use cancept.DbcParser.Lexer.{spaces_erased, erase_spaces}
use cancept.DbcParser.Sections.{
  parse_skipped, parse_version, parse_value_table, parse_message_transmitter,
  parse_environment_variable, parse_environment_variable_data, parse_signal_type,
  parse_signal_type_reference, parse_attribute_definition, parse_attribute_default,
  parse_attribute_value, parse_signal_group, parse_signal_extended_value_type_list,
}
use cancept.DbcParser.File.{
  skip_all, collect, skipping, collecting, finish_dbc, parse_values, parse_annotations,
  parse_dbc_body, parse_dbc,
}
use cancept.DbcParser.Termination.Rules.{
  Ends, Total, Takes, by_parsed, by_value, Ends-bind, test-Ends, Takes-Total, ret-Total, bind-Total,
}
use cancept.DbcParser.Termination.Parts.{parse_message-Takes}
use cancept.DbcParser.Termination.Sections.{
  parse_skipped-Takes, parse_version-Takes, parse_new_symbols-Total, parse_bit_timing-Total,
  parse_nodes-Total, parse_comment-Takes,
}
use cancept.DbcParser.Termination.Values.{parse_signal_value-Takes}

-- What a result promises of the file behind it.
unfoldable pub Complete : {D : Type 0} → Option D → Parser → Type 0
Complete none q = Unit {0}
Complete (some d) q = (q.file ≡ []) × (q.parsing_valid ≡ true)

-- The function up to its return, in any state and in a state that is valid.
unfoldable Finishes : {D : Type 0} → M (Option D) → Type 0
unfolding Ends
Finishes m = (p : Parser) → Ends (m p) Complete

module _ {D : Type 0} where
  bind-Finishes :
      {A : Type 0} (m : M A) (f : A → M (Option D))
      → Total m
      → ((a : A) → Finishes (f a))
      → Finishes (m >>= f)
  unfolding Finishes Total
  bind-Finishes m f t u p = Ends-bind (m p) f _ (t p) λ a q h. u a q

  -- What follows the macro starts in a valid state.
  unfoldable FinishesValid : M (Option D) → Type 0
  unfolding Ends
  FinishesValid m = (p : Parser) → p.parsing_valid ≡ true → Ends (m p) Complete

  weaken : (m : M (Option D)) → Finishes m → FinishesValid m
  unfolding Finishes FinishesValid
  weaken m t p h = t p

  valid_or-Finishes : (m : M (Option D)) → FinishesValid m → Finishes (valid_or none m)
  unfolding Finishes FinishesValid Ends Complete
  valid_or-Finishes m t p = test-Ends p.parsing_valid _ _ _ (t p) (λ e. tt)

  skip_all-Ends :
      (parse : M Bool) (rest : M (Option D))
      → Takes by_value parse
      → Finishes rest
      → (fuel : ℕ) (p : Parser) → length p.file < fuel
      → Ends (skip_all parse fuel rest p) Complete
  unfolding skip_all Finishes Takes Ends Complete
  skip_all-Ends parse rest t u zero p h = absurd (omega arith)
  skip_all-Ends parse rest t u (suc fuel) p h = Ends-bind (parse p) _ _ (t p) λ more q k.
      test-Ends more _ _ _
        (λ e.
          test-Ends q.parsing_valid _ _ _
            (λ _. skip_all-Ends parse rest t u fuel q (omega (arith, k.1 e))) (λ _. tt))
        (λ _. u q)

  skipping-Finishes :
      (parse : M Bool) (rest : M (Option D))
      → Takes by_value parse
      → Finishes rest
      → Finishes (skipping parse rest)
  unfolding Finishes
  skipping-Finishes parse rest t u p =
      skip_all-Ends parse rest t u (suc (length p.file)) p (omega arith)

  collect-Ends :
      {A : Type 0} (parse : M A) (rest : List A → M (Option D))
      → Takes by_parsed parse
      → ((xs : List A) → Finishes (rest xs))
      → (fuel : ℕ) (xs : List A) (p : Parser) → length p.file < fuel
      → Ends (collect parse fuel xs rest p) Complete
  unfolding collect Finishes Takes Ends Complete
  collect-Ends parse rest t u zero xs p h = absurd (omega arith)
  collect-Ends parse rest t u (suc fuel) xs p h = Ends-bind (parse p) _ _ (t p) λ x q k.
      test-Ends q.parsed_object _ _ _
        (λ e. collect-Ends parse rest t u fuel (xs ++ x ∷ []) q (omega (arith, k.1 e)))
        (λ _. test-Ends q.parsing_valid _ _ _ (λ _. u xs q) (λ _. tt))

  collecting-Finishes :
      {A : Type 0} (parse : M A) (xs : List A) (rest : List A → M (Option D))
      → Takes by_parsed parse
      → ((ys : List A) → Finishes (rest ys))
      → Finishes (collecting parse xs rest)
  unfolding Finishes
  collecting-Finishes parse xs rest t u p =
      collect-Ends parse rest t u (suc (length p.file)) xs p (omega arith)

ruleset finishing =
    (bind-Finishes, weaken, valid_or-Finishes, skipping-Finishes, collecting-Finishes, Takes-Total)

skipped-Total : (s : String) → Total (parse_skipped s >> ret tt)
skipped-Total s =
    bind-Total (parse_skipped s) _ (Takes-Total by_value (parse_skipped s) (parse_skipped-Takes s))
      λ _. ret-Total tt

version-Total : Total parse_version
version-Total = Takes-Total by_parsed parse_version parse_version-Takes

module _ (F : Float) where
  open F use {Real}

  rest_of_file :
      (s : Bytes) (q : Parser) (config : DbcConfig Real)
      → q.file ≡ s
      → q.parsing_valid ≡ true
      → Ends (elim s [ [] ↦ ret (some config) q | _ ∷ _ ↦ ret none q ]) Complete
  unfolding Ends Complete
  rest_of_file [] q config e h = (e, h)
  rest_of_file (c ∷ s) q config e h = tt

  finish_dbc-Finishes : (config : DbcConfig Real) → FinishesValid (finish_dbc F config)
  unfolding finish_dbc erase_spaces FinishesValid
  finish_dbc-Finishes config p h =
      rest_of_file (spaces_erased p.file) (record p { file = spaces_erased p.file }) config refl h

  parse_values-Finishes :
      (config : List (DbcSignalValueDescription Real) → DbcConfig Real)
      → Finishes (parse_values F config)
  unfolding parse_values parse_signal_type_reference parse_signal_group
      parse_signal_extended_value_type_list
  parse_values-Finishes config =
      search
        (
          finishing, parse_signal_value-Takes, parse_skipped-Takes, skipped-Total,
          finish_dbc-Finishes,
        )
        depth 30

  parse_annotations-Finishes :
      (rest : List Bytes → M (Option (DbcConfig Real)))
      → ((xs : List Bytes) → Finishes (rest xs))
      → Finishes (parse_annotations F rest)
  unfolding parse_annotations parse_message_transmitter parse_environment_variable
      parse_environment_variable_data parse_signal_type parse_attribute_definition
      parse_attribute_default parse_attribute_value
  parse_annotations-Finishes rest h =
      search (finishing, parse_comment-Takes, parse_skipped-Takes, skipped-Total) depth 40

  parse_dbc_body-Finishes : Finishes (parse_dbc_body F)
  unfolding parse_dbc_body parse_value_table
  parse_dbc_body-Finishes =
      search
        (
          finishing, version-Total, parse_new_symbols-Total, parse_bit_timing-Total,
          parse_nodes-Total, parse_skipped-Takes, parse_message-Takes, parse_annotations-Finishes,
          parse_values-Finishes,
        )
        depth 40

-- Some result, with a property.
returned :
    {A : Type 0} (o : Option (A × Parser)) {Q : A → Parser → Type 0}
    → Ends o Q
    → (a : A) × (q : Parser) × (o ≡ some (a, q)) × Q a q
unfolding Ends
returned none e = absurd e
returned (some (a, q)) e = (a, q, refl, e)

-- `parseDbc` returns on every file: none of its loops runs out of the fuel that the file's length
-- gives it. If it returns a config and not the null pointer, the parser stands at the end of the
-- file in a valid state.
pub parse_dbc-returns :
    (F : Float) (p : Parser)
    → (result : Option (DbcConfig (F.Real))) × (q : Parser) × (parse_dbc F p ≡ some (result, q))
      × Complete result q
unfolding parse_dbc Finishes
parse_dbc-returns F p =
    returned (parse_dbc F p)
      (parse_dbc_body-Finishes F (record p { parsing_valid = true; parsed_object = true }))
