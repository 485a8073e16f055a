-- ===== src/CanDbc/Loading.antt =====
-- The table after `handleNewDbc`: for each identifier the last message of the config that has it.
use cancept.Prelude.{
  ℕ, zero, suc, ◌<◌, ◌≡◌, refl, ap, ◌∙◌, subst, true, false, List, [], ◌∷◌, Option, none, some, ltb,
  ltb→lt, ◌==◌, ==_iff, length, length-set, set, get_or, get_or-set_self, get_or-set_ne, by_test,
  arith,
}
use cancept.Core.Float.{Float}
use cancept.Core.Dto.{DbcMessageDescription, DbcConfig}
use cancept.CanDbc.Handler.{Table, clear_table, load_messages, handle_new_dbc}

module _ (F : Float) where
  open F use {Real}

  -- The last message with an identifier, or `found`.
  unfoldable pub last_with :
      ℕ
      → Option (DbcMessageDescription Real)
      → List (DbcMessageDescription Real)
      → Option (DbcMessageDescription Real)
  last_with id found [] = found
  last_with id found (m ∷ ms) =
      last_with id (elim (m.message_id == id) [ true ↦ some m | false ↦ found ]) ms

  length-clear_table : (table : Table F) → length (clear_table F table) ≡ length table
  unfolding clear_table
  length-clear_table [] = refl
  length-clear_table (d ∷ ds) = ap suc (length-clear_table ds)

  get_or-clear_table : (table : Table F) (id : ℕ) → get_or (clear_table F table) id none ≡ none
  unfolding clear_table
  get_or-clear_table [] id = refl
  get_or-clear_table (d ∷ ds) zero = refl
  get_or-clear_table (d ∷ ds) (suc id) = get_or-clear_table ds id

  pub length-load_messages :
      (ms : List (DbcMessageDescription Real)) (table : Table F)
      → length (load_messages F ms table) ≡ length table
  unfolding load_messages
  length-load_messages [] table = refl
  length-load_messages (m ∷ ms) table =
      length-load_messages ms _
      ∙ by_test (ltb m.message_id (length table)) _ _ (λ (t : Table F). length t ≡ length table)
          (λ _. length-set table m.message_id (some m)) (λ _. refl)

  -- One message is stored at its identifier only.
  store_lem :
      (m : DbcMessageDescription Real) (table : Table F) (id : ℕ)
      → id < length table
      → get_or
          (elim (ltb m.message_id (length table)) [
            | true ↦ set table m.message_id (some m)
            | false ↦ table
          ])
          id
          none
        ≡ elim (m.message_id == id) [ true ↦ some m | false ↦ get_or table id none ]
  store_lem m table id h =
      by_test (m.message_id == id) _ _
        (λ o.
          get_or
            (elim (ltb m.message_id (length table)) [
              | true ↦ set table m.message_id (some m)
              | false ↦ table
            ])
            id none
          ≡ o)
        (λ e.
          by_test (ltb m.message_id (length table)) _ _ (λ (t : Table F). get_or t id none ≡ some m)
            (λ k.
              subst (λ j. get_or (set table m.message_id (some m)) j none ≡ some m)
                ((==_iff m.message_id id).0 e)
                (get_or-set_self table m.message_id (some m) none
                  (ltb→lt m.message_id (length table) k)))
            (λ k. absurd (ground (arith, (==_iff m.message_id id).0 e))))
        (λ e.
          by_test (ltb m.message_id (length table)) _ _
            (λ (t : Table F). get_or t id none ≡ get_or table id none)
            (λ k.
              get_or-set_ne table m.message_id id (some m) none
                (λ same. ground (arith, (==_iff m.message_id id).1 same)))
            (λ k. refl))

  load_messages_lem :
      (ms : List (DbcMessageDescription Real)) (table : Table F) (id : ℕ)
      → id < length table
      → get_or (load_messages F ms table) id none ≡ last_with id (get_or table id none) ms
  unfolding load_messages last_with
  load_messages_lem [] table id h = refl
  load_messages_lem (m ∷ ms) table id h =
      load_messages_lem ms _ id (
        by_test (ltb m.message_id (length table)) _ _ (λ (t : Table F). id < length t)
          (λ _. omega (arith, length-set table m.message_id (some m))) (λ _. h))
      ∙ ap (λ o. last_with id o ms) (store_lem m table id h)

  -- After a new config the table has the size that it had and, at each identifier below it, the last
  -- message of the config with that identifier, or nothing; whatever it held before is gone.
  pub handle_new_dbc_lem :
      (config : DbcConfig Real) (table : Table F) (id : ℕ)
      → id < length table
      → (length (handle_new_dbc F config table) ≡ length table)
        × (get_or (handle_new_dbc F config table) id none
            ≡ last_with id none config.message_definitions)
  unfolding handle_new_dbc
  handle_new_dbc_lem config table id h =
      let ms = config.message_definitions in
      (
        length-load_messages ms (clear_table F table) ∙ length-clear_table table,
        load_messages_lem ms (clear_table F table) id (omega (arith, length-clear_table table))
            ∙ ap (λ o. last_with id o ms) (get_or-clear_table table id),
      )
