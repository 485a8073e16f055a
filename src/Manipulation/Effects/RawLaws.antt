-- ===== src/Manipulation/Effects/RawLaws.antt =====
-- What a bit flip of `manipulation_effect_handler.hpp` does to the payload.
use cancept.Prelude.{
  ℕ, zero, suc, ◌/◌, ◌%◌, ◌^◌, ◌<◌, ◌≡◌, ◌≢◌, refl, ap, ◌∙◌, Bool, true, false, not, ◌&&◌, List,
  ◌==◌, ==_iff, if◌then◌else◌, length, get_or, bit_xor, arith, Bool-cases, inl, inr, length-set,
  get_or-set_self, get_or-set_ne,
}
use cancept.Manipulation.Effects.{flip}

-- Bit `j` of byte `b`.
abbrev pub bit_at : List ℕ → ℕ → ℕ → Bool
bit_at payload b j = get_or payload b 0 / 2 ^ j % 2 == 1

-- A Boolean statement for each number below a bound.
every : (ℕ → Bool) → ℕ → Bool
every holds zero = true
every holds (suc limit) = every holds limit && holds limit

every_at : (holds : ℕ → Bool) (limit x : ℕ) → x < limit → every holds limit ≡ true → holds x ≡ true
unfolding every
every_at holds zero x below all = absurd (omega arith)
every_at holds (suc limit) x below all = ground (arith, every_at holds limit x)

abbrev same : Bool → Bool → Bool
same true b = b
same false b = not b

same-eq : (a b : Bool) → same a b ≡ true → a ≡ b
same-eq true b h = ground arith
same-eq false b h = ground arith

-- One byte, one bit to flip and one bit to look at.
abbrev agrees : ℕ → ℕ → ℕ → Bool
agrees x i j =
    same (bit_xor x (2 ^ i) % 256 / 2 ^ j % 2 == 1)
      (if i == j then not (x / 2 ^ j % 2 == 1) else x / 2 ^ j % 2 == 1)

bits_of_byte : ℕ → Bool
bits_of_byte x = every (λ i. every (agrees x i) 8) 8

table : every bits_of_byte 256 ≡ true
unfolding every bits_of_byte
table = refl

flip_bit :
    (x i j : ℕ)
    → x < 256
    → i < 8
    → j < 8
    → (bit_xor x (2 ^ i) % 256 / 2 ^ j % 2 == 1)
      ≡ (if i == j then not (x / 2 ^ j % 2 == 1) else x / 2 ^ j % 2 == 1)
unfolding bits_of_byte
flip_bit x i j hx hi hj =
    let row = every_at bits_of_byte 256 x hx table in
    let cell = every_at (λ i. every (agrees x i) 8) 8 i hi row in
    same-eq _ _ (every_at (agrees x i) 8 j hj cell)

flip_here :
    (byte bit j : ℕ) (payload : List ℕ)
    → byte < length payload
    → get_or payload byte 0 < 256
    → bit < 8
    → j < 8
    → bit_at (flip byte bit payload) byte j
      ≡ (if bit == j then not (bit_at payload byte j) else bit_at payload byte j)
unfolding flip
flip_here byte bit j payload inside small hbit hj =
    ap (λ (v : ℕ). v / 2 ^ j % 2 == 1) (get_or-set_self payload byte _ 0 inside)
    ∙ flip_bit (get_or payload byte 0) bit j small hbit hj

flip_there :
    (byte bit b j : ℕ) (payload : List ℕ)
    → byte ≢ b
    → bit_at (flip byte bit payload) b j ≡ bit_at payload b j
unfolding flip
flip_there byte bit b j payload ne =
    ap (λ (v : ℕ). v / 2 ^ j % 2 == 1) (get_or-set_ne payload byte b _ 0 ne)

-- A `BitFlipEffect` inside the frame inverts the bit that it names and no other bit of the eight
-- of any byte, and keeps the size of the payload.
pub flip_exactly :
    (byte bit b j : ℕ) (payload : List ℕ)
    → byte < length payload
    → get_or payload byte 0 < 256
    → bit < 8
    → j < 8
    → (length (flip byte bit payload) ≡ length payload)
      × (bit_at (flip byte bit payload) b j
          ≡ (if byte == b && bit == j then not (bit_at payload b j) else bit_at payload b j))
unfolding flip
flip_exactly byte bit b j payload inside small hbit hj = (
  length-set payload byte _,
  elim (Bool-cases (byte == b)) [
    | inl here ↦
        rw here (rw (← (==_iff byte b).0 here) (flip_here byte bit j payload inside small hbit hj))
    | inr there ↦ rw there (flip_there byte bit b j payload (ground arith))
  ],
)
