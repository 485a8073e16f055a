-- ===== src/CanDbc/Reading.antt =====
-- What `parseReceivedMessage` reports of a frame, without its two loops: first the signals that are
-- not multiplexed, then those that the value of the multiplexor selects.
use cancept.Prelude.{
  ℕ, ◌≡◌, refl, sym, ap, ◌∙◌, Bool, true, false, List, [], ◌∷◌, ◌++◌, append-nil, append_assoc,
  by_test, by_test₂,
}
use cancept.Prelude.Int.{ℤ, negsuc}
use cancept.Core.Float.{Float}
use cancept.Core.Dto.{DbcCanSignal, DbcSignalDescription, DbcMessageDescription}
use cancept.CanDbc.Words.{little_endian_from, big_endian_from}
use cancept.CanDbc.Signal.{parse_received_signal}
use cancept.CanDbc.Handler.{
  same_int, Reading, add_value, read_signal, read_signals, read_multiplexed, read_frame,
}

module _ (F : Float) where
  open F use {Real, of_ℤ, to_ℤ}

  abbrev pub Signal : Type 0
  Signal = DbcSignalDescription Real

  -- A signal and the value that a frame gives it; of a multiplexor the whole number.
  unfoldable pub entry : ℕ → ℕ → Signal → DbcCanSignal Real
  unfolding parse_received_signal
  entry little big d = record { name = d.signal_name; value = parse_received_signal F d little big }

  unfoldable pub first_entry : ℕ → ℕ → Signal → DbcCanSignal Real
  unfolding entry parse_received_signal
  first_entry little big d = elim d.multiplexer [
    | true ↦ record {
      name = d.signal_name;
      value = of_ℤ (to_ℤ (parse_received_signal F d little big));
    }
    | false ↦ entry little big d
  ]

  unfoldable pub always_sent : Signal → Bool
  unfolding same_int
  always_sent d = same_int d.multiplexed_by (negsuc 0)

  -- The entries of the signals that are always sent, and the signals that are not.
  unfoldable pub first_values : ℕ → ℕ → List Signal → List (DbcCanSignal Real)
  unfolding always_sent first_entry
  first_values little big [] = []
  first_values little big (d ∷ ds) = elim (always_sent d) [
    | true ↦ first_entry little big d ∷ first_values little big ds
    | false ↦ first_values little big ds
  ]

  unfoldable pub put_off : List Signal → List Signal
  unfolding always_sent
  put_off [] = []
  put_off (d ∷ ds) = elim (always_sent d) [ true ↦ put_off ds | false ↦ d ∷ put_off ds ]

  -- The value of the last multiplexor.
  unfoldable pub multiplexor : ℕ → ℕ → ℤ → List Signal → ℤ
  unfolding always_sent parse_received_signal
  multiplexor little big z [] = z
  multiplexor little big z (d ∷ ds) = elim (always_sent d) [
    | true ↦ elim d.multiplexer [
      | true ↦ multiplexor little big (to_ℤ (parse_received_signal F d little big)) ds
      | false ↦ multiplexor little big z ds
    ]
    | false ↦ multiplexor little big z ds
  ]

  -- The entries of the signals that a value of the multiplexor selects.
  unfoldable pub selected_values : ℕ → ℕ → ℤ → List Signal → List (DbcCanSignal Real)
  unfolding same_int entry
  selected_values little big z [] = []
  selected_values little big z (d ∷ ds) = elim (same_int d.multiplexed_by z) [
    | true ↦ entry little big d ∷ selected_values little big z ds
    | false ↦ selected_values little big z ds
  ]

  -- The outcome of the first loop.
  unfoldable pub first_reading : ℕ → ℕ → List Signal → Reading F → Reading F
  unfolding first_values put_off multiplexor
  first_reading little big ds r = record {
    signal_values = r.signal_values ++ first_values little big ds;
    multiplexed_signals = r.multiplexed_signals ++ put_off ds;
    multiplexor_value = multiplexor little big r.multiplexor_value ds;
  }

  same_reading :
      (q r : Reading F)
      → q.signal_values ≡ r.signal_values
      → q.multiplexed_signals ≡ r.multiplexed_signals
      → q.multiplexor_value ≡ r.multiplexor_value
      → q ≡ r
  same_reading q r e e' e'' =
      λ i. record { signal_values = e i; multiplexed_signals = e' i; multiplexor_value = e'' i }

  -- One round, seen by each of the three parts of the outcome.
  module _ (little big : ℕ) (d : Signal) (ds : List Signal) (r : Reading F) where
    round_values :
        (read_signal F little big d r).signal_values ++ first_values little big ds
        ≡ r.signal_values ++ first_values little big (d ∷ ds)
    unfolding read_signal first_values always_sent first_entry entry add_value
    round_values =
        by_test₂ (always_sent d) _ _ _ _
          (λ (q : Reading F) vs.
            q.signal_values ++ first_values little big ds ≡ r.signal_values ++ vs)
          (by_test₂ d.multiplexer _ _ _ _
            (λ (q : Reading F) v.
              q.signal_values ++ first_values little big ds
              ≡ r.signal_values ++ v ∷ first_values little big ds)
            (append_assoc r.signal_values _ _) (append_assoc r.signal_values _ _))
          refl

    round_put_off :
        (read_signal F little big d r).multiplexed_signals ++ put_off ds
        ≡ r.multiplexed_signals ++ put_off (d ∷ ds)
    unfolding read_signal put_off always_sent add_value
    round_put_off =
        by_test₂ (always_sent d) _ _ _ _
          (λ (q : Reading F) os. q.multiplexed_signals ++ put_off ds ≡ r.multiplexed_signals ++ os)
          (by_test d.multiplexer _ _
            (λ (q : Reading F).
              q.multiplexed_signals ++ put_off ds ≡ r.multiplexed_signals ++ put_off ds)
            (λ _. refl) (λ _. refl))
          (append_assoc r.multiplexed_signals _ _)

    round_multiplexor :
        multiplexor little big (read_signal F little big d r).multiplexor_value ds
        ≡ multiplexor little big r.multiplexor_value (d ∷ ds)
    unfolding read_signal multiplexor always_sent add_value
    round_multiplexor =
        by_test₂ (always_sent d) _ _ _ _
          (λ (q : Reading F) z. multiplexor little big q.multiplexor_value ds ≡ z)
          (by_test₂ d.multiplexer _ _ _ _
            (λ (q : Reading F) z. multiplexor little big q.multiplexor_value ds ≡ z) refl refl)
          refl

  read_signals_lem :
      (little big : ℕ) (ds : List Signal) (r : Reading F)
      → read_signals F little big ds r ≡ first_reading little big ds r
  unfolding read_signals first_reading first_values put_off multiplexor
  read_signals_lem little big [] r =
      same_reading _ _ (sym (append-nil r.signal_values)) (sym (append-nil r.multiplexed_signals))
        refl
  read_signals_lem little big (d ∷ ds) r =
      read_signals_lem little big ds (read_signal F little big d r)
      ∙ same_reading _ _ (round_values little big d ds r) (round_put_off little big d ds r)
          (round_multiplexor little big d ds r)

  read_multiplexed_lem :
      (little big : ℕ) (ds : List Signal) (r : Reading F)
      → ((read_multiplexed F little big ds r).signal_values
          ≡ r.signal_values ++ selected_values little big r.multiplexor_value ds)
  unfolding read_multiplexed selected_values add_value entry
  read_multiplexed_lem little big [] r = sym (append-nil r.signal_values)
  read_multiplexed_lem little big (d ∷ ds) r =
      read_multiplexed_lem little big ds _
      ∙ by_test₂ (same_int d.multiplexed_by r.multiplexor_value) _ _ _ _
          (λ (q : Reading F) vs.
            q.signal_values ++ selected_values little big q.multiplexor_value ds
            ≡ r.signal_values ++ vs)
          (append_assoc r.signal_values _ _) refl

  -- What is reported of a frame: the signals that are not multiplexed in the order of the
  -- description, a multiplexor as a whole number, then the multiplexed signals whose value is the
  -- one of the last multiplexor of the description, or -1 if there is none.
  pub read_frame_lem :
      (description : DbcMessageDescription Real) (payload : List ℕ)
      → let little = little_endian_from 0 0 payload in
        let big = big_endian_from 0 payload in
        let ds = description.signal_descriptions in
        (read_frame F description payload).signal_values
        ≡ first_values little big ds
          ++ selected_values little big (multiplexor little big (negsuc 0) ds) (put_off ds)
  unfolding read_frame first_reading
  read_frame_lem description payload =
      let little = little_endian_from 0 0 payload in
      let big = big_endian_from 0 payload in
      let ds = description.signal_descriptions in
      let start : Reading F = record {
        signal_values = [];
        multiplexed_signals = [];
        multiplexor_value = negsuc 0;
      } in
      ap (λ (q : Reading F). (read_multiplexed F little big q.multiplexed_signals q).signal_values)
        (read_signals_lem little big ds start)
      ∙ read_multiplexed_lem little big (put_off ds) (first_reading little big ds start)
