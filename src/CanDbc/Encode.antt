-- ===== src/CanDbc/Encode.antt =====
-- The loops of `handleEncodeMessage`: each value is written into the field of its signal and leaves
-- the fields apart from it as they are.
use cancept.Prelude.{
  ℕ, ◌+◌, ◌%◌, ◌^◌, ◌≤◌, ◌≡◌, ◌≢◌, ◌⊎◌, inl, inr, refl, sym, ap, ◌∙◌, subst, true, false, List, [],
  ◌∷◌, ◌++◌, Option, none, some, All, Bytes, equal, equal_iff, bit_or, zero-bit_or, by_test, arith,
}
use cancept.Prelude.Pow.{two-pow-pos}
use native.Mathlib.Nat.{mod-lt}
use cancept.Core.Float.{Float}
use cancept.Core.Dto.{DbcCanSignal, DbcSignalDescription}
use cancept.CanDbc.Words.{of_int64}
use cancept.CanDbc.Signal.{raw_of, put_bits, parse_send_signal}
use cancept.CanDbc.Handler.{encode_signal, encode_signals}
use cancept.CanDbc.Fields.{field, field_zero}
use cancept.CanDbc.Placement.{
  place, Fits, word_of, word_of_zero, put_bits-field, put_bits-apart, Fits-size, size_mask_lem,
}

module _ (F : Float) where
  open F use {Real}

  abbrev pub Signal : Type 0
  Signal = DbcSignalDescription Real

  -- The bits that are sent for a value.
  unfoldable pub sent_bits : Signal → Real → ℕ
  unfolding of_int64 raw_of
  sent_bits d value = of_int64 (raw_of F d value) % 2 ^ d.signal_size

  unfoldable pub field_of : Signal → ℕ × ℕ → ℕ
  unfolding field place word_of
  field_of d words =
      field (place d.byte_order d.start_bit d.signal_size) d.signal_size
        (word_of d.byte_order words)

  abbrev pub IsFit : Signal → Type 0
  IsFit d = Fits d.byte_order d.start_bit d.signal_size

  -- Two signals have no bit in common.
  abbrev pub Disjoint : Signal → Signal → Type 0
  Disjoint d e =
      (place d.byte_order d.start_bit d.signal_size + d.signal_size
        ≤ place e.byte_order e.start_bit e.signal_size)
      ⊎ (place e.byte_order e.start_bit e.signal_size + e.signal_size
          ≤ place d.byte_order d.start_bit d.signal_size)

  -- A signal of the message that `d` belongs to: it fits, has the byte order of `d`, and has no bit
  -- of `d` unless it has its name.
  unfoldable pub Alongside : Signal → Signal → Type 0
  unfolding place Fits
  Alongside d e =
      IsFit e × (e.byte_order ≡ d.byte_order) × ((e.signal_name ≡ d.signal_name) ⊎ Disjoint d e)

  parse_send_signal-own :
      (d : Signal) (value : Real) (words : ℕ × ℕ)
      → IsFit d
      → field_of d (parse_send_signal F d value words)
        ≡ bit_or (field_of d words) (sent_bits d value)
  unfolding field_of sent_bits parse_send_signal
  parse_send_signal-own d value words h =
      let n = d.signal_size in
      let raw = of_int64 (raw_of F d value) in
      ap
        (λ (v : ℕ).
          field (place d.byte_order d.start_bit n) n
            (word_of d.byte_order (put_bits d.byte_order d.start_bit n v words)))
        (size_mask_lem n raw (Fits-size d.byte_order d.start_bit n h))
      ∙ put_bits-field d.byte_order d.start_bit n (raw % 2 ^ n) words h (mod-lt raw (two-pow-pos n))

  parse_send_signal-apart :
      (d e : Signal) (value : Real) (words : ℕ × ℕ)
      → IsFit e
      → e.byte_order ≡ d.byte_order
      → Disjoint d e
      → field_of d (parse_send_signal F e value words) ≡ field_of d words
  unfolding field_of parse_send_signal
  parse_send_signal-apart d e value words fit same h =
      let n = e.signal_size in
      let t = place d.byte_order d.start_bit d.signal_size in
      let raw = of_int64 (raw_of F e value) in
      ap
        (λ (v : ℕ).
          field t d.signal_size
            (word_of d.byte_order (put_bits e.byte_order e.start_bit n v words)))
        (size_mask_lem n raw (Fits-size e.byte_order e.start_bit n fit))
      ∙ subst
          (λ b.
            field t d.signal_size
              (word_of b (put_bits e.byte_order e.start_bit n (raw % 2 ^ n) words))
            ≡ field t d.signal_size (word_of b words))
          same
          (put_bits-apart t d.signal_size e.byte_order e.start_bit n (raw % 2 ^ n) words fit
            (mod-lt raw (two-pow-pos n)) h)

  -- The signal that a name stands for: the first with the name.
  unfoldable pub find_signal : List Signal → Bytes → Option Signal
  unfolding equal
  find_signal [] name = none
  find_signal (d ∷ ds) name = elim (equal d.signal_name name) [
    | true ↦ some d
    | false ↦ find_signal ds name
  ]

  encode_signal-own :
      (ds : List Signal) (d : Signal) (name : Bytes) (value : Real) (words : ℕ × ℕ)
      → find_signal ds name ≡ some d
      → encode_signal F ds name value words ≡ parse_send_signal F d value words
  unfolding find_signal encode_signal
  encode_signal-own [] d name value words h = ground arith
  encode_signal-own (e ∷ ds) d name value words h =
      ground (arith, encode_signal-own ds d name value words)

  other_name :
      (d e : Signal)
      → (e.signal_name ≡ d.signal_name) ⊎ Disjoint d e
      → e.signal_name ≢ d.signal_name
      → Disjoint d e
  other_name d e (inl same) ne = absurd (ne same)
  other_name d e (inr apart) ne = apart

  field_of_zero : (d : Signal) → field_of d (0, 0) ≡ 0
  unfolding field_of word_of
  field_of_zero d =
      ap (λ (w : ℕ). field (place d.byte_order d.start_bit d.signal_size) d.signal_size w)
        (word_of_zero d.byte_order)
      ∙ field_zero (place d.byte_order d.start_bit d.signal_size) d.signal_size

  encode_signal-other :
      (d : Signal) (ds : List Signal) (name : Bytes) (value : Real) (words : ℕ × ℕ)
      → All (Alongside d) ds
      → name ≢ d.signal_name
      → field_of d (encode_signal F ds name value words) ≡ field_of d words
  unfolding encode_signal All Alongside
  encode_signal-other d [] name value words h ne = refl
  encode_signal-other d (e ∷ ds) name value words h ne =
      by_test (equal e.signal_name name) _ _ (λ w. field_of d w ≡ field_of d words)
        (λ t.
          parse_send_signal-apart d e value words h.0.0 h.0.1
            (other_name d e h.0.2 (λ same. ne (sym ((equal_iff e.signal_name name).0 t) ∙ same))))
        (λ _. encode_signal-other d ds name value words h.1 ne)

  -- The values in front of a value and behind it leave its field alone.
  encode_signals-others :
      (d : Signal) (ds : List Signal) (vs : List (DbcCanSignal Real)) (words : ℕ × ℕ)
      → All (Alongside d) ds
      → All (λ v. v.name ≢ d.signal_name) vs
      → field_of d (encode_signals F ds vs words) ≡ field_of d words
  unfolding encode_signals All
  encode_signals-others d ds [] words h k = refl
  encode_signals-others d ds (v ∷ vs) words h k =
      encode_signals-others d ds vs (encode_signal F ds v.name v.value words) h k.1
      ∙ encode_signal-other d ds v.name v.value words h k.0

  encode_signals-append :
      (ds : List Signal) (us vs : List (DbcCanSignal Real)) (words : ℕ × ℕ)
      → encode_signals F ds (us ++ vs) words ≡ encode_signals F ds vs (encode_signals F ds us words)
  unfolding encode_signals
  encode_signals-append ds [] vs words = refl
  encode_signals-append ds (u ∷ us) vs words =
      encode_signals-append ds us vs (encode_signal F ds u.name u.value words)

  -- The field of a signal after all values are written, of which one has its name.
  pub encode_signals-field :
      (d : Signal) (ds : List Signal) (before : List (DbcCanSignal Real)) (v : DbcCanSignal Real)
      (after : List (DbcCanSignal Real))
      → IsFit d
      → find_signal ds v.name ≡ some d
      → All (Alongside d) ds
      → All (λ u. u.name ≢ d.signal_name) before
      → All (λ u. u.name ≢ d.signal_name) after
      → field_of d (encode_signals F ds (before ++ v ∷ after) (0, 0)) ≡ sent_bits d v.value
  unfolding encode_signals
  encode_signals-field d ds before v after fit found h front back =
      let words = encode_signals F ds before (0, 0) in
      ap (field_of d) (encode_signals-append ds before (v ∷ after) (0, 0))
      ∙ encode_signals-others d ds after (encode_signal F ds v.name v.value words) h back
      ∙ ap (field_of d) (encode_signal-own ds d v.name v.value words found)
      ∙ parse_send_signal-own d v.value words fit
      ∙ ap (λ (t : ℕ). bit_or t (sent_bits d v.value))
          (encode_signals-others d ds before (0, 0) h front ∙ field_of_zero d)
      ∙ zero-bit_or (sent_bits d v.value)
