-- ===== src/CanDbc/RoundTrip.antt =====
-- A message that `handleEncodeMessage` encodes and `parseReceivedMessage` reads again.
use cancept.Prelude.{
  ℕ, ◌%◌, ◌^◌, ◌<◌, ◌≡◌, ◌≢◌, refl, sym, ap, ◌∙◌, subst, Bool, true, false, not, List, [], ◌∷◌,
  ◌++◌, none, some, All, Bytes, equal, lt→ltb, length, get_or, by_test, arith,
}
use cancept.Prelude.Int.{ℤ}
use cancept.Prelude.Pow.{two-pow-pos}
use native.Mathlib.Nat.{mod-lt, mod-one, div-eq_of_lt}
use cancept.Core.Float.{Float}
use cancept.Core.Dto.{
  RawCanMessage, DbcCanSignal, DbcCanMessage, DbcSignalDescription, DbcMessageDescription,
}
use cancept.CanDbc.Words.{of_int64, to_int64, little_endian_from, big_endian_from, bytes_from}
use cancept.CanDbc.Signal.{raw_of, with_sign, put_bits, parse_send_signal, parse_received_signal}
use cancept.CanDbc.Handler.{Table, encode_signal, encode_signals, handle_encode_message}
use cancept.CanDbc.Placement.{
  Fits, place, word_of, put_bits-bound, put_bits-other, Fits-size, size_mask_lem, raw_bits-field,
  word_of_zero,
}
use cancept.CanDbc.Fields.{field}
use cancept.CanDbc.Bytes.{big_endian-bytes, little_endian-bytes}
use cancept.CanDbc.Sign.{InRange, with_sign-bits}
use cancept.CanDbc.Encode.{IsFit, Alongside, sent_bits, field_of, find_signal, encode_signals-field}

module _ (F : Float) where
  open F use {Real, add, mul, of_ℤ}

  -- Only the word of the message's byte order is written, and stays a word.
  unfoldable pub OneWord : Bool → ℕ × ℕ → Type 0
  unfolding word_of
  OneWord b words = (word_of b words < 2 ^ 64) × (word_of (not b) words ≡ 0)

  parse_send_signal-OneWord :
      (d e : DbcSignalDescription Real) (value : Real) (words : ℕ × ℕ)
      → IsFit F e
      → e.byte_order ≡ d.byte_order
      → OneWord d.byte_order words
      → OneWord d.byte_order (parse_send_signal F e value words)
  unfolding parse_send_signal OneWord
  parse_send_signal-OneWord d e value words fit same w =
      let n = e.signal_size in
      let raw = of_int64 (raw_of F e value) in
      subst (λ v. OneWord d.byte_order (put_bits e.byte_order e.start_bit n v words))
        (sym (size_mask_lem n raw (Fits-size e.byte_order e.start_bit n fit)))
        (subst
          (λ b.
            OneWord b words → OneWord b (put_bits e.byte_order e.start_bit n (raw % 2 ^ n) words))
          same
          (λ h. (
            put_bits-bound e.byte_order e.start_bit n (raw % 2 ^ n) words fit
                (mod-lt raw (two-pow-pos n)) h.0,
            put_bits-other e.byte_order e.start_bit n (raw % 2 ^ n) words ∙ h.1,
          ))
          w)

  encode_signal-OneWord :
      (d : DbcSignalDescription Real) (ds : List (DbcSignalDescription Real)) (name : Bytes)
      (value : Real) (words : ℕ × ℕ)
      → All (Alongside F d) ds
      → OneWord d.byte_order words
      → OneWord d.byte_order (encode_signal F ds name value words)
  unfolding encode_signal All Alongside
  encode_signal-OneWord d [] name value words h w = w
  encode_signal-OneWord d (e ∷ ds) name value words h w =
      by_test (equal e.signal_name name) _ _ (OneWord d.byte_order)
        (λ _. parse_send_signal-OneWord d e value words h.0.0 h.0.1 w)
        (λ _. encode_signal-OneWord d ds name value words h.1 w)

  pub encode_signals-OneWord :
      (d : DbcSignalDescription Real) (ds : List (DbcSignalDescription Real))
      (vs : List (DbcCanSignal Real)) (words : ℕ × ℕ)
      → All (Alongside F d) ds
      → OneWord d.byte_order words
      → OneWord d.byte_order (encode_signals F ds vs words)
  unfolding encode_signals
  encode_signals-OneWord d ds [] words h w = w
  encode_signals-OneWord d ds (v ∷ vs) words h w =
      encode_signals-OneWord d ds vs (encode_signal F ds v.name v.value words) h
        (encode_signal-OneWord d ds v.name v.value words h w)

  -- The words that are read are the words that were written.
  read_words :
      (b : Bool) (words : ℕ × ℕ)
      → OneWord b words
      → word_of b (
        little_endian_from 0 0 (bytes_from 8 words.0 words.1),
        big_endian_from 0 (bytes_from 8 words.0 words.1),
      )
        ≡ word_of b words
  unfolding OneWord word_of
  read_words false words h =
      ap (λ (t : ℕ). little_endian_from 0 0 (bytes_from 8 words.0 t)) h.1
      ∙ ap (λ (t : ℕ). little_endian_from 0 t (bytes_from 8 words.0 0)) (sym (mod-one words.0))
      ∙ little_endian-bytes words.0 8 0 h.0 refl
  read_words true words h =
      ap (λ (t : ℕ). big_endian_from 0 (bytes_from 8 t words.1)) h.1
      ∙ ap (λ (t : ℕ). big_endian_from t (bytes_from 8 0 words.1)) (sym (div-eq_of_lt h.0))
      ∙ big_endian-bytes words.1 8 h.0 (omega arith)

  -- The payload on the branch that a known message takes.
  payload_lem :
      (table : Table F) (description : DbcMessageDescription Real) (message : DbcCanMessage Real)
      (old : RawCanMessage)
      → message.message_id < length table
      → get_or table message.message_id none ≡ some description
      → let words = encode_signals F description.signal_descriptions message.signal_values (0, 0) in
        (handle_encode_message F table message old).payload ≡ bytes_from 8 words.0 words.1
  unfolding handle_encode_message
  payload_lem table description message old h k =
      rw (lt→ltb message.message_id (length table) h, k, handle_encode_message) refl

  fit_pos : (d : DbcSignalDescription Real) → IsFit F d → 0 < d.signal_size
  unfolding Fits
  fit_pos d h = h.0

  empty_words : (b : Bool) → OneWord b (0, 0)
  unfolding OneWord
  empty_words b =
      (subst (λ w. w < 2 ^ 64) (sym (word_of_zero b)) (omega arith), word_of_zero (not b))

  field_of_words :
      (d : DbcSignalDescription Real) (words words' : ℕ × ℕ)
      → word_of d.byte_order words ≡ word_of d.byte_order words'
      → field_of F d words ≡ field_of F d words'
  unfolding field_of
  field_of_words d words words' e =
      ap (field (place d.byte_order d.start_bit d.signal_size) d.signal_size) e

  -- The raw value that is read, from the field that is read.
  received_lem :
      (d : DbcSignalDescription Real) (little big : ℕ) (value : Real)
      → IsFit F d
      → field_of F d (little, big) ≡ sent_bits F d value
      → InRange d.value_type d.signal_size (raw_of F d value)
      → parse_received_signal F d little big ≡ add (mul (of_ℤ (raw_of F d value)) d.factor) d.offset
  unfolding parse_received_signal field_of sent_bits
  received_lem d little big value fit same range =
      ap (λ z. add (mul (of_ℤ z) d.factor) d.offset)
        (ap (λ (t : ℕ). to_int64 (with_sign d.value_type d.signal_size t))
            (raw_bits-field d.byte_order d.start_bit d.signal_size little big fit ∙ same)
          ∙ with_sign-bits d.value_type d.signal_size (raw_of F d value) (fit_pos d fit)
              (Fits-size d.byte_order d.start_bit d.signal_size fit) range)

  -- Encode a message, then read a signal from the payload: for an identifier that the table has a
  -- description of, the value that is the only one with the signal's name comes back as
  -- raw * factor + offset, where raw is the clamped, scaled and rounded value that was encoded. The
  -- signal is the first of the description with the name; its raw value is in the range of its
  -- size; each signal of the description fits into the frame, has the same byte order, and has the
  -- same name or no bit in common with it.
  pub parse_received_signal-handle_encode_message :
      (table : Table F) (description : DbcMessageDescription Real) (d : DbcSignalDescription Real)
      (time : ℤ) (id : ℕ) (before : List (DbcCanSignal Real)) (v : DbcCanSignal Real)
      (after : List (DbcCanSignal Real)) (old : RawCanMessage)
      → id < length table
      → get_or table id none ≡ some description
      → find_signal F description.signal_descriptions v.name ≡ some d
      → IsFit F d
      → All (Alongside F d) description.signal_descriptions
      → All (λ u. u.name ≢ d.signal_name) before
      → All (λ u. u.name ≢ d.signal_name) after
      → InRange d.value_type d.signal_size (raw_of F d v.value)
      → let message : DbcCanMessage Real = record {
        receive_time = time;
        signal_values = before ++ v ∷ after;
        message_id = id;
      } in
        let payload = (handle_encode_message F table message old).payload in
        parse_received_signal F d (little_endian_from 0 0 payload) (big_endian_from 0 payload)
        ≡ add (mul (of_ℤ (raw_of F d v.value)) d.factor) d.offset
  parse_received_signal-handle_encode_message table description d time id before v after old known
        found named fit beside front back range =
      let values = before ++ v ∷ after in
      let words = encode_signals F description.signal_descriptions values (0, 0) in
      let one =
        encode_signals-OneWord d description.signal_descriptions values (0, 0) beside
          (empty_words d.byte_order) in
      let message : DbcCanMessage Real = record {
        receive_time = time;
        signal_values = values;
        message_id = id;
      } in
      ap
        (λ (bytes : List ℕ).
          parse_received_signal F d (little_endian_from 0 0 bytes) (big_endian_from 0 bytes))
        (payload_lem table description message old known found)
      ∙ received_lem d (little_endian_from 0 0 (bytes_from 8 words.0 words.1))
          (big_endian_from 0 (bytes_from 8 words.0 words.1)) v.value fit
          (field_of_words d _ _ (read_words d.byte_order words one)
            ∙ encode_signals-field F d description.signal_descriptions before v after fit named
                beside front back)
          range
