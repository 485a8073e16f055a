-- ===== src/CanDbc/Words.antt =====
-- The 64-bit words of a frame's data and the shifts of `CanDbcHandler` on them. A word is a number
-- below 2^64; an `int64_t` is kept as the word of its two's complement where it is shifted.
use cancept.Prelude.{
  ℕ, zero, suc, ◌+◌, ◌-◌, ◌*◌, ◌/◌, ◌%◌, ◌^◌, true, false, List, [], ◌∷◌, ltb, bit_or, bit_and,
}
use cancept.Prelude.Int.{ℤ, pos, negsuc}

-- `unsigned int` subtraction.
unfoldable pub sub_uint : ℕ → ℕ → ℕ
sub_uint a b = (a + 2 ^ 32 - b) % 2 ^ 32

-- `x << k` and `x >> k` of `uint64_t`. C++ leaves a shift by 64 or more undefined; it is 0 here.
unfoldable pub shift_left : ℕ → ℕ → ℕ
shift_left x k = elim (ltb k 64) [ true ↦ x * 2 ^ k % 2 ^ 64 | false ↦ 0 ]

unfoldable pub shift_right : ℕ → ℕ → ℕ
shift_right x k = elim (ltb k 64) [ true ↦ x / 2 ^ k | false ↦ 0 ]

-- `x >> k` of `int64_t`, which repeats the sign.
unfoldable pub shift_signed : ℕ → ℕ → ℕ
unfolding shift_right
shift_signed x k = elim (ltb x (2 ^ 63)) [
  | true ↦ shift_right x k
  | false ↦ 2 ^ 64 - 1 - shift_right (2 ^ 64 - 1 - x) k
]

-- The conversions between `uint64_t` and `int64_t`.
unfoldable pub to_int64 : ℕ → ℤ
to_int64 x = elim (ltb x (2 ^ 63)) [ true ↦ pos x | false ↦ negsuc (2 ^ 64 - 1 - x) ]

unfoldable pub of_int64 : ℤ → ℕ
of_int64 (pos n) = n % 2 ^ 64
of_int64 (negsuc n) = 2 ^ 64 - 1 - n % 2 ^ 64

-- `dataLittleEndian += data[i] << (i * 8)` over the bytes from the place `i` on.
unfoldable pub little_endian_from : ℕ → ℕ → List ℕ → ℕ
unfolding shift_left
little_endian_from i acc [] = acc
little_endian_from i acc (d ∷ ds) =
    little_endian_from (suc i) ((acc + shift_left d (i * 8)) % 2 ^ 64) ds

-- `dataBigEndian = (dataBigEndian << 8) + data[i]`
unfoldable pub big_endian_from : ℕ → List ℕ → ℕ
unfolding shift_left
big_endian_from acc [] = acc
big_endian_from acc (d ∷ ds) = big_endian_from ((shift_left acc 8 + d) % 2 ^ 64) ds

-- The bytes from the place 8 - `left` on that the two words make together.
unfoldable pub bytes_from : ℕ → ℕ → ℕ → List ℕ
unfolding shift_right
bytes_from zero little big = []
bytes_from (suc left) little big =
    bit_or (bit_and (shift_right little ((7 - left) * 8)) 255)
      (bit_and (shift_right big (left * 8)) 255)
    ∷ bytes_from left little big
