-- ===== src/Base/Bits.antt =====
-- `&` with a mask of low ones, at every width, and the values `2 ^ k - 1` that a mask takes.
use Prim.Native.Nat.{
  ℕ, zero, suc, ◌+◌, ◌-◌, ◌*◌, ◌/◌, ◌%◌, ◌^◌, ◌≤◌, ◌<◌, min, max, bit_and, bit_or,
}
use Prim.Native.Nat.{digits, bitwise, bit_and-bitwise, bit_or-bitwise}
use mathlib.Core.Path.{◌≡◌, refl, ap, sym, ◌∙◌}
use native.Mathlib.Nat.{le_refl, pow-suc, one-le-pow}
use mathlib.Core.Logic.{◌⊎◌, inl, inr}
use native.Mathlib.Omega.{arith}

le_cases : (m n : ℕ) → m ≤ suc n → (m ≤ n) ⊎ (suc n ≡ m)
le_cases m n h = ground (arith, h)

-- Fuel beyond the number makes no difference.
one_more :
    (rest : ℕ → ℕ) (pair : ℕ → ℕ → ℕ) (fuel a b : ℕ)
    → a ≤ fuel
    → digits rest pair (suc fuel) a b ≡ digits rest pair fuel a b
one_more rest pair zero zero b h = refl
one_more rest pair (suc fuel) zero b h = refl
one_more rest pair zero (suc a) b h = absurd (omega arith)
one_more rest pair (suc fuel) (suc a) b h =
    ap (λ d. d * 2 + pair (suc a % 2) (b % 2))
      (one_more rest pair fuel (suc a / 2) (b / 2) (omega arith))

less_fuel :
    (rest : ℕ → ℕ) (pair : ℕ → ℕ → ℕ) (much little a b : ℕ)
    → little ≤ much
    → a ≤ little
    → digits rest pair much a b ≡ digits rest pair little a b
less_fuel rest pair zero zero a b h k = refl
less_fuel rest pair zero (suc little) a b h k = absurd (omega arith)
less_fuel rest pair (suc much) little a b h k = elim (le_cases little much h) [
  | inl le ↦ one_more rest pair much a b (omega arith) ∙ less_fuel rest pair much little a b le k
  | inr e ↦ ap (λ fuel. digits rest pair fuel a b) e
]

half_of :
    (rest : ℕ → ℕ) (pair : ℕ → ℕ → ℕ) (a b : ℕ)
    → digits rest pair a (suc a / 2) (b / 2) ≡ bitwise rest pair (suc a / 2) (b / 2)
half_of rest pair a b =
    less_fuel rest pair a (suc a / 2) (suc a / 2) (b / 2) (omega arith) (omega arith)

-- the lowest bit of `&` and of `|`
bit_and_step : (a b : ℕ) → bit_and a b ≡ min (a % 2) (b % 2) + bit_and (a / 2) (b / 2) * 2
bit_and_step zero b = simp bit_and-bitwise (omega arith)
bit_and_step (suc a) b = let d = half_of (λ y. 0) min a b in simp bit_and-bitwise (omega (arith, d))

bit_or_step : (a b : ℕ) → bit_or a b ≡ max (a % 2) (b % 2) + bit_or (a / 2) (b / 2) * 2
bit_or_step zero b = simp bit_or-bitwise (omega arith)
bit_or_step (suc a) b = let d = half_of (λ y. y) max a b in simp bit_or-bitwise (omega (arith, d))

bit_and-zero_below : (n a : ℕ) → a ≤ n → bit_and a 0 ≡ 0
bit_and-zero_below n zero h = refl
bit_and-zero_below zero (suc a) h = absurd (omega arith)
bit_and-zero_below (suc n) (suc a) h =
    omega (arith, bit_and_step (suc a) 0, bit_and-zero_below n (suc a / 2) (omega arith))

pub bit_and-zero : (a : ℕ) → bit_and a 0 ≡ 0
bit_and-zero a = bit_and-zero_below a a (le_refl a)

-- `2 ^ k`, as the tactics want it.
pub pow_two_suc : (k : ℕ) → 2 ^ suc k ≡ 2 ^ k * 2
pow_two_suc k = pow-suc 2 k

pub pow_two_pos : (k : ℕ) → 1 ≤ 2 ^ k
pow_two_pos k = one-le-pow k 2 (omega arith)

pub pow_two_add : (j k : ℕ) → 2 ^ j * 2 ^ k ≡ 2 ^ (j + k)
pow_two_add zero k = grind arith
pow_two_add (suc j) k =
    let e : 2 ^ suc j * 2 ^ k ≡ 2 ^ j * 2 ^ k * 2 = grind (arith, pow_two_suc j) in
    e
    ∙ ap (λ x. x * 2) (pow_two_add j k)
    ∙ sym (pow_two_suc (j + k))
    ∙ ap (λ x. 2 ^ x) {x = suc (j + k)} {y = suc j + k} (omega arith)

pub mod_of_parts : (q p r : ℕ) → r < p → (q * p + r) % p ≡ r
mod_of_parts q p r h = grind arith

pub mod_small : (a p : ℕ) → a < p → a % p ≡ a
mod_small a p h = ap (λ x. x % p) {x = a} {y = 0 * p + a} (omega arith) ∙ mod_of_parts 0 p a h

pub mod_once : (a p : ℕ) → p ≤ a → a < p + p → a % p ≡ a - p
mod_once a p h g =
    ap (λ x. x % p) {x = a} {y = 1 * p + (a - p)} (omega arith)
    ∙ mod_of_parts 1 p (a - p) (omega arith)

mod_double : (a p : ℕ) → 0 < p → a % (p * 2) ≡ a / 2 % p * 2 + a % 2
mod_double a p h = grind (arith, mod_of_parts (a / 2 / p) (p * 2) (a / 2 % p * 2 + a % 2))

-- A mask of `k` low bits is the remainder by `2 ^ k`.
pub bit_and_mask : (k a : ℕ) → bit_and a (2 ^ k - 1) ≡ a % 2 ^ k
bit_and_mask zero a = ground (arith, bit_and-zero a)
bit_and_mask (suc k) a = ground (
  arith,
  pow_two_suc k,
  pow_two_pos k,
  bit_and_step a (2 ^ suc k - 1),
  bit_and_mask k (a / 2),
  mod_double a (2 ^ k),
)

-- A bit above all those of a number is added to it.
pub bit_or_high : (k a : ℕ) → a < 2 ^ k → bit_or a (2 ^ k) ≡ a + 2 ^ k
bit_or_high zero zero h = refl
bit_or_high zero (suc a) h = absurd (omega arith)
bit_or_high (suc k) a h =
    ground (arith, pow_two_suc k, pow_two_pos k, bit_or_step a (2 ^ suc k), bit_or_high k (a / 2))

-- A bit above all those of a number is not one of them.
pub bit_and_high : (k a : ℕ) → a < 2 ^ k → bit_and a (2 ^ k) ≡ 0
bit_and_high zero zero h = refl
bit_and_high zero (suc a) h = absurd (omega arith)
bit_and_high (suc k) a h =
    ground (arith, pow_two_suc k, pow_two_pos k, bit_and_step a (2 ^ suc k), bit_and_high k (a / 2))

bit_or-zero_below : (n a : ℕ) → a ≤ n → bit_or a 0 ≡ a
bit_or-zero_below n zero h = refl
bit_or-zero_below zero (suc a) h = absurd (omega arith)
bit_or-zero_below (suc n) (suc a) h =
    omega (arith, bit_or_step (suc a) 0, bit_or-zero_below n (suc a / 2) (omega arith))

pub bit_or-zero : (a : ℕ) → bit_or a 0 ≡ a
bit_or-zero a = bit_or-zero_below a a (le_refl a)

pub bit_or-zero_left : (a : ℕ) → bit_or 0 a ≡ a
bit_or-zero_left a = simp bit_or-bitwise refl
