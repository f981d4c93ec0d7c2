-- ===== src/Collection/RadixTree/Keys.antt =====
-- prepare_key: with the capacity of a tree of depth `d` it reverses the `d` bytes of a key, so that
-- a descent meets the highest byte first. It merges no two keys that the capacity allows.
use cextras.Base.{
  false, ℕ, zero, suc, ◌+◌, ◌-◌, ◌*◌, ◌/◌, ◌%◌, ◌≤◌, ◌<◌, ◌≡◌, refl, ap, arith, word, max_word,
  ◌==◌,
}
use cextras.Collection.RadixTree.{prepare, prepare_key, widen}

-- The capacity of a tree of depth `d`: its highest key, 256 ^ d - 1.
abbrev pub cap_of : ℕ → ℕ
cap_of zero = 0
cap_of (suc d) = cap_of d * 256 + 255

-- The bytes of `key` from the lowest on, put behind those of `acc`.
abbrev pub reversed : ℕ → ℕ → ℕ → ℕ
reversed zero key acc = acc
reversed (suc d) key acc = reversed d (key / 256) (acc * 256 + key % 256)

-- The byte of `key` at place `d`.
abbrev pub byte_at : ℕ → ℕ → ℕ
byte_at zero key = key % 256
byte_at (suc d) key = byte_at d (key / 256)

-- A capacity of depth `j` leaves room for `d` more bytes in 64 bits when `j + d` is 8.
cap_of-room : (d j : ℕ) → j + d ≡ 8 → cap_of j ≤ max_word
cap_of-room zero j e = omega (arith, ap cap_of (let q : j ≡ 8 = omega arith in q))
cap_of-room (suc d) j e = omega (arith, cap_of-room d (suc j) (omega arith))

pub cap_of-le : (d : ℕ) → d ≤ 8 → cap_of d ≤ max_word
cap_of-le d h = cap_of-room (8 - d) d (omega arith)

pub widen-cap_of : (d : ℕ) → d < 8 → widen (cap_of d) ≡ cap_of (suc d)
widen-cap_of d h = omega (arith, cap_of-le (suc d) h)

pub cap_of_ne_zero : (d : ℕ) → (cap_of (suc d) == 0) ≡ false
cap_of_ne_zero d = ground arith

pub cap_of_shift : (d : ℕ) → cap_of (suc d) / 256 ≡ cap_of d
cap_of_shift d = omega arith

prepare-reversed :
    (f d j key acc : ℕ)
    → d ≤ f
    → j + d ≤ 8
    → acc ≤ cap_of j
    → prepare f (cap_of d) key acc ≡ reversed d key acc
unfolding prepare
prepare-reversed zero zero j key acc h r b = refl
prepare-reversed zero (suc d) j key acc h r b = absurd (omega arith)
prepare-reversed (suc f) zero j key acc h r b = refl
prepare-reversed (suc f) (suc d) j key acc h r b =
    let fits : (acc * 256) % word ≡ acc * 256 = omega (arith, cap_of-le (suc j) (omega arith)) in
    rw (cap_of_ne_zero d, cap_of_shift d, fits)
      (prepare-reversed f d (suc j) (key / 256) (acc * 256 + key % 256) (omega arith) (omega arith)
        (omega arith))

pub reversed-top :
    (d key acc : ℕ) → reversed (suc d) key acc ≡ reversed d key acc * 256 + byte_at d key
reversed-top zero key acc = refl
reversed-top (suc d) key acc = reversed-top d (key / 256) (acc * 256 + key % 256)

pub byte_at-of_le : (d key : ℕ) → key ≤ cap_of d → byte_at d key ≡ 0
byte_at-of_le zero key h = omega arith
byte_at-of_le (suc d) key h = byte_at-of_le d (key / 256) (omega arith)

pub byte_at-lt : (d key : ℕ) → byte_at d key < 256
byte_at-lt zero key = omega arith
byte_at-lt (suc d) key = byte_at-lt d (key / 256)

reversed-le : (d key : ℕ) → reversed d key 0 ≤ cap_of d
reversed-le zero key = omega arith
reversed-le (suc d) key = omega (arith, reversed-top d key 0, reversed-le d key, byte_at-lt d key)

reversed-injective :
    (d k l a b : ℕ)
    → k ≤ cap_of d
    → l ≤ cap_of d
    → reversed d k a ≡ reversed d l b
    → (k ≡ l) × (a ≡ b)
reversed-injective zero k l a b hk hl e = (omega arith, e)
reversed-injective (suc d) k l a b hk hl e =
    let r =
      reversed-injective d (k / 256) (l / 256) (a * 256 + k % 256) (b * 256 + l % 256) (omega arith)
        (omega arith) e in
    omega (arith, r)

-- prepare_key at the capacity of depth `d`, through the four facts that the tree's proofs use.
module _ (d : ℕ) (h : d ≤ 8) where
  pub prepare_key-reversed : (key : ℕ) → prepare_key (cap_of d) key ≡ reversed d key 0
  unfolding prepare_key
  prepare_key-reversed key = prepare-reversed 8 d 0 key 0 h (omega arith) (omega arith)

  pub prepare_key-le : (key : ℕ) → prepare_key (cap_of d) key ≤ cap_of d
  prepare_key-le key = omega (arith, prepare_key-reversed key, reversed-le d key)

  -- No two keys that fit the capacity are prepared to the same number.
  pub prepare_key-injective :
      (k l : ℕ)
      → k ≤ cap_of d
      → l ≤ cap_of d
      → prepare_key (cap_of d) k ≡ prepare_key (cap_of d) l
      → k ≡ l
  prepare_key-injective k l hk hl e =
      (reversed-injective d k l 0 0 hk hl
        (omega (arith, prepare_key-reversed k, prepare_key-reversed l))).0

-- One level more puts the byte at that level behind what the key was prepared to.
pub prepare_key-top :
    (d key : ℕ)
    → suc d ≤ 8
    → prepare_key (cap_of (suc d)) key ≡ prepare_key (cap_of d) key * 256 + byte_at d key
prepare_key-top d key h = omega (
  arith,
  prepare_key-reversed d (omega arith) key,
  prepare_key-reversed (suc d) h key,
  reversed-top d key 0,
)

-- A key whose highest byte is zero fits the capacity of one level less.
pub le-of_byte_at : (d key : ℕ) → key ≤ cap_of (suc d) → byte_at d key ≡ 0 → key ≤ cap_of d
le-of_byte_at zero key h e = omega arith
le-of_byte_at (suc d) key h e = omega (arith, le-of_byte_at d (key / 256) (omega arith) e)
