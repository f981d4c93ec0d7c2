-- ===== src/Collection/Buffer/Pow2.antt =====
-- The capacities that cx_buffer_add_capacity rounds to.
use cextras.Base.{
  ℕ, ◌-◌, ◌%◌, ◌^◌, ◌≤◌, ◌<◌, ◌≡◌, inl, inr, Option, none, some, arith, word, leb, ◌==◌, Bool-cases,
  ==→eq,
}
use native.Mathlib.Nat.{pow-le-pow_right}
use cextras.Collection.Buffer.{Machine, round_to_next_pow2}

-- `__builtin_clzll` counts the zero bits above the highest 1 of a word that is not 0.
pub record CountsZeros (m : Machine) : Type 0 where
  pub below : (x : ℕ) → 0 < x → x < word → m.clz x < 64
  pub high : (x : ℕ) → 0 < x → x < word → x < 2 ^ (64 - m.clz x)
  pub low : (x : ℕ) → 0 < x → x < word → 2 ^ (63 - m.clz x) ≤ x

-- What rounding gives: the least power of two from `n` on, which is there up to 2^63.
pub data Rounded (n : ℕ) : Option ℕ → Type 0 where
  power : (k : ℕ) → k < 64 → n ≤ 2 ^ k → ((j : ℕ) → n ≤ 2 ^ j → k ≤ j) → Rounded n (some (2 ^ k))
  too_large : 2 ^ 63 < n → Rounded n none

pub two_mono : (a b : ℕ) → a ≤ b → 2 ^ a ≤ 2 ^ b
two_mono a b h = pow-le-pow_right (omega arith) h

-- Rounding up to the width of a number gives the least power of two.
width-Rounded : (n k : ℕ) → k < 64 → n ≤ 2 ^ k → 2 ^ (k - 1) < n → Rounded n (some (2 ^ k % word))
width-Rounded n k small high low =
    let fits : 2 ^ k % word ≡ 2 ^ k = omega (arith, two_mono k 63 (omega arith)) in
    rw fits (
      power k small high (λ j h. elim (Bool-cases (leb k j)) [
        | inl le ↦ ground arith
        | inr gt ↦
            let below : j ≤ k - 1 = ground arith in absurd (omega (arith, two_mono j (k - 1) below))
      ]))

-- For a `size_t`, and with `__builtin_clzll` as documented, round_to_next_pow2 gives the least power
-- of two that is not below the value, or reports an overflow if the value is above 2^63.
pub round_to_next_pow2-Rounded :
    {m : Machine} (n : ℕ) → CountsZeros m → n < word → Rounded n (round_to_next_pow2 m n)
unfolding round_to_next_pow2
round_to_next_pow2-Rounded {m} n c h = elim (Bool-cases (leb n 1)) [
  | inl small ↦ rw small (power 0 (omega arith) (ground arith) (λ j e. omega arith))
  | inr large ↦
      let pos : 0 < n - 1 = ground arith in
      let fits : n - 1 < word = omega arith in
      elim (Bool-cases (m.clz (n - 1) == 0)) [
        | inl full ↦
            let low = rw (==→eq (m.clz (n - 1)) 0 full) at (c.low (n - 1) pos fits) in
            rw (large, full) (too_large (omega arith))
        | inr room ↦
            let some_left : 0 < m.clz (n - 1) = ground arith in
            let less : 64 - m.clz (n - 1) - 1 ≡ 63 - m.clz (n - 1) = omega arith in
            let low : 2 ^ (64 - m.clz (n - 1) - 1) < n =
              rw less (omega (arith, c.low (n - 1) pos fits)) in
            rw (large, room)
              (width-Rounded n (64 - m.clz (n - 1)) (omega arith)
                (omega (arith, c.high (n - 1) pos fits)) low)
      ]
]
