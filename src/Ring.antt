-- ===== src/Ring.antt =====
-- `core/util/spsc_ring.hpp`: the bounded ring of one producer thread and one consumer thread.
pub mod Window
pub mod Interleave
pub mod Refine
mod Tests
use cancept.Prelude.{
  ℕ, ◌+◌, ◌-◌, ◌*◌, ◌%◌, ◌^◌, ◌≤◌, ◌<◌, Bool, true, false, List, ◌==◌, if◌then◌else◌, get_or, set,
  bit_and,
}

-- `SpscRing<T, N>`: the array and the two indices.
pub record SpscRing {ℓ} (A : Type ℓ) : Type ℓ where
  pub ring : List A
  pub head : ℕ
  pub tail : ℕ

-- `kMask`, in `std::size_t` arithmetic.
unfoldable pub k_mask : ℕ → ℕ
k_mask n = (n + 2 ^ 64 - 1) % 2 ^ 64

-- `(i + 1) & kMask`
unfoldable pub advance : ℕ → ℕ → ℕ
unfolding k_mask
advance n i = bit_and ((i + 1) % 2 ^ 64) (k_mask n)

module _ {ℓ} {A : Type ℓ} (n : ℕ) where
  unfoldable pub push : SpscRing A → A → Bool × SpscRing A
  push r val =
      let next = advance n r.head in
      if next == r.tail
      then (false, r)
      else (true, record r { ring = set r.ring r.head val; head = next })

  -- `val` is what the caller's variable holds before; it is returned as it is after the call.
  -- The slot keeps its old value here, where the source leaves it moved from: nothing reads a
  -- slot outside the window from `tail` to `head` before it is written again.
  unfoldable pub pop : SpscRing A → A → Bool × A × SpscRing A
  pop r val =
      if r.tail == r.head
      then (false, val, r)
      else (true, get_or r.ring r.tail val, record r { tail = advance n r.tail })

unfoldable pub empty {ℓ} : {A : Type ℓ} → SpscRing A → Bool
empty r = r.tail == r.head
