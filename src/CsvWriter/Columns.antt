-- ===== src/CsvWriter/Columns.antt =====
-- The columns of a frame of physical values that `CsvWriter` has written.
use cancept.Prelude.{
  ℕ, ◌≤◌, ◌≡◌, ◌≢◌, refl, sym, ap, ◌∙◌, subst, Bool, true, false, List, [], ◌∷◌, ◌++◌, append-nil,
  map, Option, none, some, Bytes, codes, equal, starts_with, if◌then◌else◌, All, arith,
}
use cancept.Core.Float.{Float}
use cancept.Core.Dto.{DbcCanSignal, DbcCanMessage}
use cancept.CsvReader.Fields.{split_line}
use cancept.CsvWriter.{hex, joined, time_text, value_of, columns, dbc_line}
use cancept.CsvWriter.RoundTrip.{IsText, EndsFull, hex-All, split_line-joined}
use cancept.CsvWriter.Fields.{IsPlain-IsText, not_nil}
use cancept.CsvWriter.Reading.{IsFilled, IsFilled-comma}

-- The value that is found under a name.
unfoldable pub held : {D : Type 0} → Bytes → List (DbcCanSignal D) → Option D
held name [] = none
held name (s ∷ ss) = let rest = held name ss in if equal s.name name then some s.value else rest

-- A column of values, whose header has no comma.
unfoldable pub IsColumn : Bytes → Type 0
IsColumn h =
    All IsText h × (h ≢ []) × (equal h (codes "ID") ≡ false) × (equal h (codes "MsgID") ≡ false)

-- All the columns, of which the second one is the identifier.
abbrev pub columns_of : List Bytes → List Bytes
columns_of hs = codes "Time (s)" ∷ codes "MsgID" ∷ hs

module _ (F : Float) (format : ℕ → Float.Real F → Bytes) where
  open F use {Real}

  -- A frame that survives the file: an identifier of at most eleven bits and a text of its time
  -- without a comma.
  unfoldable pub IsWritableDbc : DbcCanMessage Real → Type 0
  IsWritableDbc m = All IsText (time_text F format m.receive_time) × (m.message_id ≤ 2047)

  pub dbc_line-IsFilled :
      (hs : List Bytes) (m : DbcCanMessage Real) → IsFilled (dbc_line F format (columns_of hs) m)
  unfolding dbc_line columns
  dbc_line-IsFilled hs m = IsFilled-comma (time_text F format m.receive_time) _

  unfoldable pub column : DbcCanMessage Real → Bytes → Bytes
  column m h =
      if equal h (codes "MsgID")
      then codes "0x" ++ hex 3 m.message_id
      else value_of F format h m.signal_values

  joined-columns :
      (m : DbcCanMessage Real) (t : Bytes) (hs : List Bytes)
      → joined (t ∷ map (column m) hs) ≡ t ++ columns F format m hs
  unfolding joined columns column
  joined-columns m t [] = sym (append-nil t)
  joined-columns m t (h ∷ hs) = ap (λ s. t ++ 44 ∷ s) (joined-columns m (column m h) hs)

  pub column_MsgID :
      (m : DbcCanMessage Real) → column m (codes "MsgID") ≡ codes "0x" ++ hex 3 m.message_id
  unfolding column equal starts_with
  column_MsgID m = refl

  dbc_line-joined :
      (m : DbcCanMessage Real) (hs : List Bytes)
      → dbc_line F format (columns_of hs) m
        ≡ joined (time_text F format m.receive_time ∷ map (column m) (codes "MsgID" ∷ hs))
  unfolding dbc_line
  dbc_line-joined m hs =
      sym (joined-columns m (time_text F format m.receive_time) (codes "MsgID" ∷ hs))

  unfoldable pub text_of : Option Real → Bytes
  text_of none = codes "-"
  text_of (some v) = format 3 v

  value_of-held :
      (h : Bytes) (ss : List (DbcCanSignal Real)) → value_of F format h ss ≡ text_of (held h ss)
  unfolding value_of held text_of
  value_of-held h [] = refl
  value_of-held h (s ∷ ss) = chosen (equal s.name h) (value_of-held h ss)
    where
      chosen :
          (b : Bool)
          → value_of F format h ss ≡ text_of (held h ss)
          → (if b then format 3 s.value else value_of F format h ss)
            ≡ text_of (if b then some s.value else held h ss)
      chosen true e = refl
      chosen false e = e

  pub column-text_of :
      (m : DbcCanMessage Real) (h : Bytes)
      → IsColumn h
      → column m h ≡ text_of (held h m.signal_values)
  unfolding column IsColumn
  column-text_of m h (t, n, i, e) =
      ap (λ b. if b then codes "0x" ++ hex 3 m.message_id else value_of F format h m.signal_values)
        e
      ∙ value_of-held h m.signal_values

  id-All : (m : DbcCanMessage Real) → All IsText (column m (codes "MsgID"))
  unfolding column equal starts_with All IsText
  id-All m =
      (ground arith, (ground arith, IsPlain-IsText (hex 3 m.message_id) (hex-All 3 m.message_id)))

  -- The text of a value is a field of a line.
  unfoldable pub IsField : Real → Type 0
  IsField v = All IsText (format 3 v) × (format 3 v ≢ [])

  module _ (plain : (v : Real) → IsField v) where
    text_of-All : (o : Option Real) → All IsText (text_of o)
    unfolding text_of All IsText IsField
    text_of-All none = (ground arith, tt)
    text_of-All (some v) = (plain v).0

    text_of_nonempty : (o : Option Real) → text_of o ≢ []
    unfolding text_of IsField
    text_of_nonempty none = not_nil _ _ _ refl
    text_of_nonempty (some v) = (plain v).1

    fields-All :
        (m : DbcCanMessage Real) (hs : List Bytes)
        → All IsColumn hs
        → All (All IsText) (map (column m) hs)
    unfolding All
    fields-All m [] a = tt
    fields-All m (h ∷ hs) a = (
      subst (All IsText) (sym (column-text_of m h a.0)) (text_of-All (held h m.signal_values)),
      fields-All m hs a.1,
    )

    fields-EndsFull :
        (m : DbcCanMessage Real) (field : Bytes) (hs : List Bytes)
        → field ≢ []
        → All IsColumn hs
        → EndsFull (field ∷ map (column m) hs)
    unfolding EndsFull All
    fields-EndsFull m field [] n a = n
    fields-EndsFull m field (h ∷ hs) n a =
        fields-EndsFull m (column m h) hs
          (λ e. text_of_nonempty (held h m.signal_values) (sym (column-text_of m h a.0) ∙ e)) a.1

    pub split_line-dbc_line :
        (m : DbcCanMessage Real) (hs : List Bytes)
        → All IsColumn hs
        → All IsText (time_text F format m.receive_time)
        → split_line (dbc_line F format (columns_of hs) m)
          ≡ time_text F format m.receive_time ∷ map (column m) (codes "MsgID" ∷ hs)
    unfolding All EndsFull
    split_line-dbc_line m hs a t =
        ap split_line (dbc_line-joined m hs)
        ∙ split_line-joined
            (time_text F format m.receive_time ∷ map (column m) (codes "MsgID" ∷ hs))
            (t, (id-All m, fields-All m hs a))
            (fields-EndsFull m (column m (codes "MsgID")) hs (not_nil _ _ _ (column_MsgID m)) a)
