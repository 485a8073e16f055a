-- ===== src/Replay/Spread.antt =====
-- Frames with one time are moved apart.
use cancept.Prelude.{
  ◌≡◌, ◌≢◌, ◌⊎◌, refl, sym, ap, ◌∙◌, subst, Bool, true, false, List, [], ◌∷◌, Option, some, arith,
  Bool-cases, inl, inr, if◌then◌else◌,
}
use cancept.Prelude.Int.{ℤ, pos, ◌+ℤ◌, ◌≤ℤ◌, int_laws}
use cancept.Core.Dto.{RawCanMessage}
use cancept.Queue.{ScheduledItem}
use cancept.Replay.{Entry, raw, same_time, moved}

-- The frames with their times moved.
unfoldable pub spread : ℤ → List RawCanMessage → List RawCanMessage
unfolding moved
spread prev [] = []
spread prev (m ∷ ms) = moved prev m ∷ spread (moved prev m).receive_time ms

abbrev pub recorded : {D : Type 0} → List RawCanMessage → List (Option (Entry D))
recorded [] = []
recorded (m ∷ ms) = some (raw m) ∷ recorded ms

-- The times of the records do not go back, and those of every other record are at least two
-- nanoseconds apart.
unfoldable pub IsSpaced : ℤ → List RawCanMessage → Type 0
IsSpaced prev [] = Unit
IsSpaced prev (m ∷ []) = prev ≤ℤ m.receive_time
IsSpaced prev (m ∷ n ∷ ms) =
    (prev ≤ℤ m.receive_time) × (prev +ℤ pos 2 ≤ℤ n.receive_time) × IsSpaced m.receive_time (n ∷ ms)

unfoldable pub IsAscending : ℤ → List RawCanMessage → Type 0
IsAscending prev [] = Unit
IsAscending prev (m ∷ ms) = (prev +ℤ pos 1 ≤ℤ m.receive_time) × IsAscending m.receive_time ms

-- No item is before the one in front of it.
unfoldable pub IsInOrder : {J : Type 0} → ℤ → List (ScheduledItem J) → Type 0
IsInOrder at [] = Unit
IsInOrder at (x ∷ xs) = (at ≤ℤ x.scheduled_at) × IsInOrder x.scheduled_at xs

later : (a b : ℤ) → b ≤ℤ a → same_time a b ≡ false → b +ℤ pos 1 ≤ℤ a
unfolding same_time ◌+ℤ◌
later a b h e = ground (arith, h, e)

same : (a b : ℤ) → same_time a b ≡ true → a ≡ b
unfolding same_time
same a b e = ground (arith, e)

moved_time :
    (prev : ℤ) (m : RawCanMessage) (b : Bool)
    → same_time m.receive_time prev ≡ b
    → (moved prev m).receive_time ≡ (if b then m.receive_time +ℤ pos 1 else m.receive_time)
unfolding moved
moved_time prev m true e = rw e refl
moved_time prev m false e = rw e refl

differ : (a b : ℤ) → same_time a b ≡ false → a ≢ b
unfolding same_time
differ a b e k = ground (arith, e, k)

-- The frames that are sent for the recorded ones, behind one with a time: each has the identifier,
-- the length and the payload that were recorded, and the time that was recorded, or a nanosecond
-- more if the frame that is sent before it has the recorded one.
unfoldable pub AreSentFor : ℤ → List RawCanMessage → List RawCanMessage → Type 0
AreSentFor prev [] [] = Unit
AreSentFor prev (m ∷ ms) [] = ⊥
AreSentFor prev [] (j ∷ js) = ⊥
AreSentFor prev (m ∷ ms) (j ∷ js) =
    (j.message_id ≡ m.message_id)
    × (j.dlc ≡ m.dlc)
    × (j.payload ≡ m.payload)
    × (((m.receive_time ≢ prev) × (j.receive_time ≡ m.receive_time))
        ⊎ ((m.receive_time ≡ prev) × (j.receive_time ≡ m.receive_time +ℤ pos 1)))
    × AreSentFor j.receive_time ms js

moved_fields :
    (prev : ℤ) (m : RawCanMessage)
    → ((moved prev m).message_id ≡ m.message_id)
      × ((moved prev m).dlc ≡ m.dlc)
      × ((moved prev m).payload ≡ m.payload)
unfolding moved
moved_fields prev m = ground arith

pub spread-AreSentFor : (prev : ℤ) (ms : List RawCanMessage) → AreSentFor prev ms (spread prev ms)
unfolding spread AreSentFor
spread-AreSentFor prev [] = tt
spread-AreSentFor prev (m ∷ ms) =
    let (id, dlc, payload) = moved_fields prev m in
    (
      id,
      dlc,
      payload,
      elim (Bool-cases (same_time m.receive_time prev)) [
        | inl e ↦ inr (same m.receive_time prev e, moved_time prev m true e)
        | inr e ↦ inl (differ m.receive_time prev e, moved_time prev m false e)
      ],
      spread-AreSentFor (moved prev m).receive_time ms,
    )

-- The next frame is not before a time.
unfoldable pub NextFrom : ℤ → List RawCanMessage → Type 0
NextFrom out [] = Unit
NextFrom out (m ∷ ms) = out ≤ℤ m.receive_time

moved_after :
    (out : ℤ) (m : RawCanMessage)
    → out ≤ℤ m.receive_time
    → out +ℤ pos 1 ≤ℤ (moved out m).receive_time
moved_after out m h = elim (Bool-cases (same_time m.receive_time out)) [
  | inl e ↦ subst (λ t. out +ℤ pos 1 ≤ℤ t) (sym (moved_time out m true e)) (omega (int_laws, h))
  | inr e ↦
      subst (λ t. out +ℤ pos 1 ≤ℤ t) (sym (moved_time out m false e)) (later m.receive_time out h e)
]

moved_near : (out : ℤ) (m : RawCanMessage) → (moved out m).receive_time ≤ℤ m.receive_time +ℤ pos 1
moved_near out m = elim (Bool-cases (same_time m.receive_time out)) [
  | inl e ↦
      subst (λ t. t ≤ℤ m.receive_time +ℤ pos 1) (sym (moved_time out m true e)) (omega int_laws)
  | inr e ↦
      subst (λ t. t ≤ℤ m.receive_time +ℤ pos 1) (sym (moved_time out m false e)) (omega int_laws)
]

moved_next :
    (out prev time : ℤ) (m : RawCanMessage)
    → out ≤ℤ prev +ℤ pos 1
    → prev +ℤ pos 2 ≤ℤ time
    → m.receive_time ≤ℤ time
    → (moved out m).receive_time ≤ℤ time
moved_next out prev time m near apart after = elim (Bool-cases (same_time m.receive_time out)) [
  | inl e ↦
      subst (λ t. t ≤ℤ time)
        (sym (moved_time out m true e ∙ ap (λ t. t +ℤ pos 1) (same m.receive_time out e)))
        (omega (int_laws, near, apart))
  | inr e ↦ subst (λ t. t ≤ℤ time) (sym (moved_time out m false e)) after
]

pub head_spaced :
    (prev : ℤ) (m : RawCanMessage) (ms : List RawCanMessage)
    → IsSpaced prev (m ∷ ms)
    → prev ≤ℤ m.receive_time
unfolding IsSpaced
head_spaced prev m [] h = h
head_spaced prev m (n ∷ ms) h = h.0

pub spread-IsAscending :
    (out prev : ℤ) (ms : List RawCanMessage)
    → out ≤ℤ prev +ℤ pos 1
    → NextFrom out ms
    → IsSpaced prev ms
    → IsAscending out (spread out ms)
unfolding spread IsAscending NextFrom IsSpaced
spread-IsAscending out prev [] near next spaced = tt
spread-IsAscending out prev (m ∷ []) near next spaced = (moved_after out m next, tt)
spread-IsAscending out prev (m ∷ n ∷ ms) near next spaced = (
  moved_after out m next,
  spread-IsAscending (moved out m).receive_time m.receive_time (n ∷ ms) (moved_near out m)
      (moved_next out prev n.receive_time m near spaced.1
        (head_spaced m.receive_time n ms spaced.2))
      spaced.2,
)
