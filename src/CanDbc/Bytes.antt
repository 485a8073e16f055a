-- ===== src/CanDbc/Bytes.antt =====
-- The bytes of a frame give the words back that they were made of.
use cancept.Prelude.{
  ℕ, zero, suc, ◌+◌, ◌-◌, ◌*◌, ◌/◌, ◌%◌, ◌^◌, ◌≤◌, ◌<◌, ◌≡◌, refl, ap, ap₂, ◌∙◌, length, lt→ltb,
  bit_or, bit_and, bit_and-ones, zero-bit_or, bit_or-zero, arith,
}
use cancept.Prelude.Pow.{two-pow-add}
use native.Mathlib.Nat.{
  div-add-mod', mod-eq_of_lt, div-div-eq-div-mul, zero-div, div-one, div-le_self, mod-le,
}
use cancept.CanDbc.Fields.{mod_two_digits}
use cancept.CanDbc.Words.{shift_left, shift_right, little_endian_from, big_endian_from, bytes_from}

pub shift_left_lem : (x k : ℕ) → k < 64 → shift_left x k ≡ x * 2 ^ k % 2 ^ 64
unfolding shift_left
shift_left_lem x k h = rw (lt→ltb k 64 h, shift_left) refl

pub shift_right_lem : (x k : ℕ) → k < 64 → shift_right x k ≡ x / 2 ^ k
unfolding shift_right
shift_right_lem x k h = rw (lt→ltb k 64 h, shift_right) refl

pub length-bytes_from : (left little big : ℕ) → length (bytes_from left little big) ≡ left
unfolding bytes_from
length-bytes_from zero little big = refl
length-bytes_from (suc left) little big = ap suc (length-bytes_from left little big)

-- The part of a word above a byte, and the byte.
next_byte : (w k : ℕ) → w / 2 ^ k ≡ w / 2 ^ (k + 8) * 256 + w / 2 ^ k % 256
next_byte w k = omega (
  arith,
  div-add-mod' (w / 2 ^ k) 256,
  div-div-eq-div-mul w (2 ^ k) 256,
  ap (λ (t : ℕ). w / t) (two-pow-add k 8),
)

-- One of the two words is empty.
byte_of : (x k : ℕ) → k < 64 → bit_and (shift_right x k) 255 ≡ x / 2 ^ k % 256
byte_of x k h = ap (λ (t : ℕ). bit_and t 255) (shift_right_lem x k h) ∙ bit_and-ones 8 (x / 2 ^ k)

no_byte : (k : ℕ) → k < 64 → bit_and (shift_right 0 k) 255 ≡ 0
no_byte k h = byte_of 0 k h ∙ ap (λ (t : ℕ). t % 256) (zero-div (2 ^ k))

big_byte :
    (w k l : ℕ)
    → k < 64
    → l < 64
    → bit_or (bit_and (shift_right 0 k) 255) (bit_and (shift_right w l) 255) ≡ w / 2 ^ l % 256
big_byte w k l h h' = ap₂ bit_or (no_byte k h) (byte_of w l h') ∙ zero-bit_or _

little_byte :
    (w k l : ℕ)
    → k < 64
    → l < 64
    → bit_or (bit_and (shift_right w k) 255) (bit_and (shift_right 0 l) 255) ≡ w / 2 ^ k % 256
little_byte w k l h h' = ap₂ bit_or (byte_of w k h) (no_byte l h') ∙ bit_or-zero _

big_endian-step :
    (w left : ℕ)
    → w < 2 ^ 64
    → left < 8
    → (shift_left (w / 2 ^ (suc left * 8)) 8 + w / 2 ^ (left * 8) % 256) % 2 ^ 64
      ≡ w / 2 ^ (left * 8)
big_endian-step w left small h = omega (
  arith,
  shift_left_lem (w / 2 ^ (suc left * 8)) 8 (omega arith),
  next_byte w (left * 8),
  ap (λ (t : ℕ). w / 2 ^ t) {x = suc left * 8} {y = left * 8 + 8} (omega arith),
  div-le_self w (2 ^ (left * 8)),
)

pub big_endian-bytes :
    (w left : ℕ)
    → w < 2 ^ 64
    → left ≤ 8
    → big_endian_from (w / 2 ^ (left * 8)) (bytes_from left 0 w) ≡ w
unfolding big_endian_from bytes_from
big_endian-bytes w zero small h = div-one w
big_endian-bytes w (suc left) small h =
    ap
      (λ (t : ℕ).
        big_endian_from ((shift_left (w / 2 ^ (suc left * 8)) 8 + t) % 2 ^ 64)
          (bytes_from left 0 w))
      (big_byte w ((7 - left) * 8) (left * 8) (omega arith) (omega arith))
    ∙ ap (λ (t : ℕ). big_endian_from t (bytes_from left 0 w))
        (big_endian-step w left small (omega arith))
    ∙ big_endian-bytes w left small (omega arith)

little_endian-step :
    (w i : ℕ)
    → w < 2 ^ 64
    → i < 8
    → (w % 2 ^ (i * 8) + shift_left (w / 2 ^ (i * 8) % 256) (i * 8)) % 2 ^ 64 ≡ w % 2 ^ (suc i * 8)
little_endian-step w i small h = omega (
  arith,
  shift_left_lem (w / 2 ^ (i * 8) % 256) (i * 8) (omega arith),
  mod_two_digits (i * 8) 8 w,
  mod-le w (2 ^ (i * 8 + 8)),
  ap (λ (t : ℕ). w % 2 ^ t) {x = suc i * 8} {y = i * 8 + 8} (omega arith),
)

pub little_endian-bytes :
    (w left i : ℕ)
    → w < 2 ^ 64
    → i + left ≡ 8
    → little_endian_from i (w % 2 ^ (i * 8)) (bytes_from left w 0) ≡ w
unfolding little_endian_from bytes_from
little_endian-bytes w zero i small h =
    ap (λ (t : ℕ). w % 2 ^ (t * 8)) {x = i} {y = 8} (omega arith) ∙ mod-eq_of_lt small
little_endian-bytes w (suc left) i small h =
    ap
      (λ (t : ℕ).
        little_endian_from (suc i) ((w % 2 ^ (i * 8) + shift_left t (i * 8)) % 2 ^ 64)
          (bytes_from left w 0))
      (little_byte w ((7 - left) * 8) (left * 8) (omega arith) (omega arith)
        ∙ ap (λ (t : ℕ). w / 2 ^ (t * 8) % 256) {x = 7 - left} {y = i} (omega arith))
    ∙ ap (λ (t : ℕ). little_endian_from (suc i) t (bytes_from left w 0))
        (little_endian-step w i small (omega arith))
    ∙ little_endian-bytes w left (suc i) small (omega arith)
