-- ===== src/CanDbc/Forward.antt =====
-- A frame that `CanRawHandler` receives and sends on.
use cancept.Prelude.{
  ℕ, zero, suc, ◌+◌, ◌-◌, ◌%◌, ◌^◌, ◌≤◌, ◌<◌, ◌≡◌, refl, ap, ap₂, ◌∙◌, false, List, [], ◌∷◌, ◌++◌,
  length, take, set, get_or, replicate, ltb, ltb→lt, by_test, arith,
}
use cancept.Prelude.Int.{ℤ}
use cancept.CanDbc.Raw.{copy_from, parse_received_message, handle_send_message}

-- One more byte is copied.
set-take :
    (frame : List ℕ) (i : ℕ) (zeros : List ℕ)
    → i < length frame
    → set (take i frame ++ 0 ∷ zeros) i (get_or frame i 0) ≡ take (suc i) frame ++ zeros
set-take [] i zeros h = absurd (omega arith)
set-take (x ∷ frame) zero zeros h = refl
set-take (x ∷ frame) (suc i) zeros h = ap (λ ys. x ∷ ys) (set-take frame i zeros (omega arith))

take_all : (n : ℕ) (frame : List ℕ) → length frame ≤ n → take n frame ≡ frame
take_all zero [] h = refl
take_all zero (x ∷ frame) h = absurd (omega arith)
take_all (suc n) [] h = refl
take_all (suc n) (x ∷ frame) h = ap (λ ys. x ∷ ys) (take_all n frame (omega arith))

take-append : (xs ys : List ℕ) → take (length xs) (xs ++ ys) ≡ xs
take-append [] ys = refl
take-append (x ∷ xs) ys = ap (λ zs. x ∷ zs) (take-append xs ys)

not_less : (i n : ℕ) → ltb i n ≡ false → n ≤ i
not_less i n h = ground arith

copy_from_lem :
    (left i : ℕ) (frame : List ℕ)
    → i + left ≡ 8
    → i ≤ length frame
    → length frame ≤ 8
    → copy_from left i frame (take i frame ++ replicate left 0)
      ≡ frame ++ replicate (8 - length frame) 0
unfolding copy_from
copy_from_lem zero i frame h k small =
    let none_left : 0 ≡ 8 - length frame = omega arith in
    ap₂ (λ xs (n : ℕ). xs ++ replicate n 0) (take_all i frame (omega arith)) none_left
copy_from_lem (suc left) i frame h k small =
    by_test (ltb i (length frame)) _ _ (λ bytes. bytes ≡ frame ++ replicate (8 - length frame) 0)
      (λ e.
        ap (copy_from left (suc i) frame)
          (set-take frame i (replicate left 0) (ltb→lt i (length frame) e))
        ∙ copy_from_lem left (suc i) frame (omega arith) (omega (arith, ltb→lt i (length frame) e))
            small)
      (λ e.
        let past = not_less i (length frame) e in
        let zeros : suc left ≡ 8 - length frame = omega (arith, past) in
        ap₂ (λ xs (n : ℕ). xs ++ replicate n 0) (take_all i frame past) zeros)

-- A frame of at most 8 bytes that is received and then sent as it was reported has the bytes that it
-- came with, no more and no less, under the lowest 16 bits of its identifier.
pub handle_send_message-parse_received_message :
    (can_id : ℕ) (frame : List ℕ) (time : ℤ)
    → length frame ≤ 8
    → handle_send_message (parse_received_message can_id frame time) ≡ (can_id % 2 ^ 16, frame)
unfolding handle_send_message parse_received_message
handle_send_message-parse_received_message can_id frame time h =
    let dlc : length frame % 256 ≡ length frame = omega arith in
    ap (λ (bytes : List ℕ). (can_id % 2 ^ 16, bytes))
      (ap₂ (λ (n : ℕ) (bytes : List ℕ). take n bytes) dlc
          (copy_from_lem 8 0 frame refl (omega arith) h)
        ∙ take-append frame (replicate (8 - length frame) 0))
