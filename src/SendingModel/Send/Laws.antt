-- ===== src/SendingModel/Send/Laws.antt =====
-- The raw frame: the bytes that were set are those that are sent.
use cancept.Prelude.{
  ℕ, zero, suc, ◌%◌, ◌^◌, ◌≤◌, ◌≡◌, refl, sym, ap, ◌∙◌, List, [], ◌∷◌, Option, some, min, length,
  take, length-take, arith, bit_and, bit_and-ones,
}
use native.Mathlib.Nat.{mod-mod}
use cancept.Core.Float.{Float}
use cancept.Core.Dto.{RawCanMessage, DbcCanMessage}
use cancept.SendingModel.State.{
  Mode, SendingModel, fill, max_can_id, max_can_dlc, set_raw_can_id, set_raw_data,
}
use cancept.SendingModel.Send.{raw_message, for_each_pending_message, for_each_cached_message}

fill-fill : (n : ℕ) (bytes : List ℕ) → fill n (fill n bytes) ≡ fill n bytes
unfolding fill
fill-fill zero bytes = refl
fill-fill (suc n) [] = ap (λ bs. 0 ∷ bs) (fill-fill n [])
fill-fill (suc n) (b ∷ bytes) = ap (λ bs. b ∷ bs) (fill-fill n bytes)

take-fill : (n : ℕ) (bytes : List ℕ) → length bytes ≤ n → take (length bytes) (fill n bytes) ≡ bytes
unfolding fill
take-fill n [] h = refl
take-fill zero (b ∷ bytes) h = absurd (omega arith)
take-fill (suc n) (b ∷ bytes) h = ap (λ bs. b ∷ bs) (take-fill n bytes (omega arith))

take-enough : (k n : ℕ) (xs : List ℕ) → k ≡ min (length xs) n → take k xs ≡ take n xs
take-enough zero zero xs h = refl
take-enough zero (suc n) [] h = refl
take-enough zero (suc n) (x ∷ xs) h = absurd (omega (arith, h))
take-enough (suc k) zero xs h = absurd (omega (arith, h))
take-enough (suc k) (suc n) [] h = absurd (omega (arith, h))
take-enough (suc k) (suc n) (x ∷ xs) h = ap (λ bs. x ∷ bs) (take-enough k n xs (omega (arith, h)))

pub length-fill : (n : ℕ) (bytes : List ℕ) → length (fill n bytes) ≡ n
unfolding fill
length-fill zero bytes = refl
length-fill (suc n) [] = ap suc (length-fill n [])
length-fill (suc n) (b ∷ bytes) = ap suc (length-fill n bytes)

take-filled :
    (k n : ℕ) (bytes : List ℕ)
    → k ≡ min (length bytes) n
    → take k (fill n (fill n (take k bytes))) ≡ take n bytes
take-filled k n bytes h =
    let short : length (take k bytes) ≡ k = omega (arith, length-take k bytes, h) in
    ap (take k) (fill-fill n (take k bytes))
    ∙ ap (λ j. take j (fill n (take k bytes))) (sym short)
    ∙ take-fill n (take k bytes) (omega (arith, short, h))
    ∙ take-enough k n bytes h

-- A frame of an identifier and of bytes, of which at most 8 are sent.
unfoldable pub Carries : ℕ → List ℕ → RawCanMessage → Type 0
Carries can_id bytes m =
    (m.message_id ≡ can_id % 2 ^ 11)
    × (m.dlc ≡ min (length bytes) max_can_dlc)
    × (length m.payload ≡ max_can_dlc)
    × (take m.dlc m.payload ≡ take max_can_dlc bytes)

module _ {F : Float} {E : Type 0} where
  open F use {Real}

  raw_message-Carries :
      (can_id : ℕ) (bytes : List ℕ) (s : SendingModel F E)
      → Carries can_id bytes (raw_message (set_raw_data bytes (set_raw_can_id can_id s)).raw_state)
  unfolding Carries raw_message set_raw_data set_raw_can_id
  raw_message-Carries can_id bytes s = (
    bit_and-ones 11 (bit_and can_id max_can_id)
        ∙ ap (λ (t : ℕ). t % 2048) (bit_and-ones 11 can_id)
        ∙ mod-mod can_id 2048,
    refl,
    length-fill max_can_dlc (fill max_can_dlc (take (min (length bytes) max_can_dlc) bytes)),
    take-filled (min (length bytes) max_can_dlc) max_can_dlc bytes refl,
  )

  -- In raw mode, after an identifier and bytes are set, one frame is sent, whether it is a single
  -- transmission or a repeated one: the lower 11 bits of the identifier, 8 bytes of which the first
  -- ones, as many as the length says, are the bytes that were set; of more than 8 bytes, the first 8.
  pub raw_sent :
      {A : Type 0} (raw_handler : RawCanMessage → A) (dbc_handler : Option (DbcCanMessage Real → A))
      (eval : E → Real) (can_id : ℕ) (bytes : List ℕ) (s : SendingModel F E)
      → s.current_mode ≡ Mode.raw
      → (m : RawCanMessage) × Carries can_id bytes m
        × (for_each_pending_message
              (some raw_handler)
              dbc_handler
              eval
              (set_raw_data bytes (set_raw_can_id can_id s))
            ≡ raw_handler m ∷ [])
        × (for_each_cached_message
              (some raw_handler)
              dbc_handler
              Mode.raw
              eval
              (set_raw_data bytes (set_raw_can_id can_id s))
            ≡ raw_handler m ∷ [])
  unfolding for_each_pending_message for_each_cached_message set_raw_data set_raw_can_id
  raw_sent raw_handler dbc_handler eval can_id bytes s mode = (
    raw_message (set_raw_data bytes (set_raw_can_id can_id s)).raw_state,
    raw_message-Carries can_id bytes s,
    rw mode refl,
    refl,
  )
