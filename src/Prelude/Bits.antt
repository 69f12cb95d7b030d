-- ===== src/Prelude/Bits.antt =====
-- `^` and `|` on machine words, at variables: the equation of the lowest digit, and laws from it.
use Prim.Native.Nat.{
  max, digits, bitwise, bit_or-bitwise, bit_xor-bitwise, bit_and-bitwise, differ, min,
}
use mathlib.Core.Path.{◌≡◌, refl, sym, ap, ◌∙◌}
use mathlib.Core.WellFounded.{Acc, WellFounded, induction}
use Prim.Native.Nat.{ℕ, zero, suc, ◌+◌, ◌*◌, ◌/◌, ◌%◌, ◌^◌, ◌≤◌, ◌<◌, bit_or, bit_xor, bit_and}
use native.Mathlib.Nat.{pow-suc}
use native.Mathlib.Omega.{arith}
use native.Mathlib.Decide.{ℕ_discrete}

Acc-below : (k n : ℕ) → n < k → Acc ◌<◌ n
Acc-below zero n h = elim h [ ]
Acc-below (suc k) n h = Acc.intro n (λ m hm. Acc-below k m (omega arith))

lt_wf : WellFounded ◌<◌
lt_wf = record { apply = λ n. Acc-below (suc n) n (omega arith) }

-- `bitwise` runs on fuel: rounds beyond its first number change nothing.
module _ (z : ℕ → ℕ) (f : ℕ → ℕ → ℕ) where
  one_more : (n x y : ℕ) → x ≤ n → digits z f (suc n) x y ≡ digits z f n x y
  one_more zero zero y h = refl
  one_more (suc n) zero y h = refl
  one_more zero (suc x) y h = absurd (omega arith)
  one_more (suc n) (suc x) y h =
      ap (λ (t : ℕ). t * 2 + f (suc x % 2) (y % 2)) (one_more n (suc x / 2) (y / 2) (omega arith))

  settled : (n x y : ℕ) → x ≤ n → digits z f n x y ≡ bitwise z f x y
  settled zero zero y h = refl
  settled zero (suc x) y h = absurd (omega arith)
  settled (suc n) x y h = elim (ℕ_discrete x (suc n)) [
    | yes e ↦ rw e refl
    | no ne ↦ one_more n x y (omega arith) ∙ settled n x y (omega arith)
  ]

  -- The lowest digit comes from the lowest digits.
  low_digit :
      (x y : ℕ) → 0 < x → bitwise z f x y ≡ f (x % 2) (y % 2) + 2 * bitwise z f (x / 2) (y / 2)
  low_digit zero y h = absurd (omega arith)
  low_digit (suc x) y h = omega (arith, settled x (suc x / 2) (y / 2) (omega arith))

-- Two binary digits differ.
differ_mod : (x y : ℕ) → x < 2 → y < 2 → differ x y ≡ (x + y) % 2
differ_mod zero zero p q = refl
differ_mod zero (suc zero) p q = refl
differ_mod (suc zero) zero p q = refl
differ_mod (suc zero) (suc zero) p q = refl
differ_mod zero (suc (suc y)) p q = absurd (omega arith)
differ_mod (suc zero) (suc (suc y)) p q = absurd (omega arith)
differ_mod (suc (suc x)) y p q = absurd (omega arith)

pub bit_xor_step : (a b : ℕ) → bit_xor a b ≡ bit_xor (a / 2) (b / 2) * 2 + (a % 2 + b % 2) % 2
bit_xor_step zero b = simp bit_xor-bitwise (omega arith)
bit_xor_step (suc a) b = simp bit_xor-bitwise (
    omega (
      arith,
      low_digit (λ t. t) differ (suc a) b (omega arith),
      differ_mod (suc a % 2) (b % 2) (omega arith) (omega arith),
    ))

pub bit_or_step : (x y : ℕ) → bit_or x y ≡ max (x % 2) (y % 2) + 2 * bit_or (x / 2) (y / 2)
bit_or_step (suc x) y = simp bit_or-bitwise (low_digit (λ t. t) max (suc x) y (omega arith))
bit_or_step zero y = simp bit_or-bitwise (omega arith)

zero-bit_xor : (b : ℕ) → bit_xor 0 b ≡ b
zero-bit_xor b = bit_xor-bitwise 0 b

-- A law for all numbers follows from the step from the halves.
by_halves {ℓ} : (P : ℕ → Type ℓ) → P 0 → ((n : ℕ) → P (suc n / 2) → P (suc n)) → (n : ℕ) → P n
by_halves P base step n = induction lt_wf {C = P} n go
  where
    go : (k : ℕ) → ((m : ℕ) → m < k → P m) → P k
    go zero ih = base
    go (suc k) ih = step k (ih (suc k / 2) (omega arith))

-- The lowest digit and the rest of an exclusive or.
bit_xor_parts :
    (a b : ℕ)
    → (bit_xor a b / 2 ≡ bit_xor (a / 2) (b / 2)) × (bit_xor a b % 2 ≡ (a % 2 + b % 2) % 2)
bit_xor_parts a b = omega (arith, bit_xor_step a b)

zero-bit_xor_comm : (b : ℕ) → bit_xor 0 b ≡ bit_xor b 0
zero-bit_xor_comm =
    by_halves (λ b. bit_xor 0 b ≡ bit_xor b 0) refl
      λ n ih.
        omega (arith, bit_xor_step (suc n) 0, zero-bit_xor (suc n), zero-bit_xor (suc n / 2), ih)

pub bit_xor_comm : (a b : ℕ) → bit_xor a b ≡ bit_xor b a
bit_xor_comm =
    by_halves (λ a. (b : ℕ) → bit_xor a b ≡ bit_xor b a) zero-bit_xor_comm
      λ n ih b. omega (arith, bit_xor_step (suc n) b, bit_xor_step b (suc n), ih (b / 2))

pub bit_xor-zero : (a : ℕ) → bit_xor a 0 ≡ a
bit_xor-zero a = omega (arith, bit_xor_comm a 0, zero-bit_xor a)

bit_xor_assoc_step :
    (a b c : ℕ)
    → bit_xor (bit_xor (a / 2) (b / 2)) (c / 2) ≡ bit_xor (a / 2) (bit_xor (b / 2) (c / 2))
    → bit_xor (bit_xor a b) c ≡ bit_xor a (bit_xor b c)
bit_xor_assoc_step a b c ih =
    rw (bit_xor_step (bit_xor a b) c, bit_xor_step a (bit_xor b c))
      (rw ((bit_xor_parts a b).0, (bit_xor_parts b c).0)
        (omega (arith, ih, (bit_xor_parts a b).1, (bit_xor_parts b c).1)))

pub bit_xor_assoc : (a b c : ℕ) → bit_xor (bit_xor a b) c ≡ bit_xor a (bit_xor b c)
bit_xor_assoc =
    by_halves (λ a. (b c : ℕ) → bit_xor (bit_xor a b) c ≡ bit_xor a (bit_xor b c))
      (λ b c. rw (zero-bit_xor b, zero-bit_xor (bit_xor b c)))
      (λ n ih b c. bit_xor_assoc_step (suc n) b c (ih (b / 2) (c / 2)))

pub bit_xor_self : (a : ℕ) → bit_xor a a ≡ 0
bit_xor_self =
    by_halves (λ a. bit_xor a a ≡ 0) refl λ n ih. omega (arith, bit_xor_step (suc n) (suc n), ih)

-- Mixing in the same number twice changes nothing.
pub bit_xor_twice : (a b : ℕ) → bit_xor (bit_xor a b) b ≡ a
bit_xor_twice a b = rw (bit_xor_assoc a b b, bit_xor_self b) (bit_xor-zero a)

-- Two numbers whose exclusive or is zero are one.
pub bit_xor_eq_zero : (a b : ℕ) → bit_xor a b ≡ 0 → a ≡ b
bit_xor_eq_zero a b h = sym (bit_xor_twice a b) ∙ ap (λ (t : ℕ). bit_xor t b) h ∙ zero-bit_xor b

pub bit_or_eq_zero : (a b : ℕ) → bit_or a b ≡ 0 → (a ≡ 0) × (b ≡ 0)
bit_or_eq_zero =
    by_halves (λ a. (b : ℕ) → bit_or a b ≡ 0 → (a ≡ 0) × (b ≡ 0))
      (λ b h. (refl, sym (bit_or-bitwise 0 b) ∙ h))
      (λ n ih b h.
        let halves : bit_or (suc n / 2) (b / 2) ≡ 0 = omega (arith, bit_or_step (suc n) b) in
        omega (arith, ih (b / 2) halves, bit_or_step (suc n) b))

pub bit_or-zero : (a : ℕ) → bit_or a 0 ≡ a
bit_or-zero = by_halves (λ a. bit_or a 0 ≡ a) refl λ n ih. omega (arith, bit_or_step (suc n) 0, ih)

-- An exclusive or of k-bit numbers has k bits.
pub bit_xor-lt : (k a b : ℕ) → a < 2 ^ k → b < 2 ^ k → bit_xor a b < 2 ^ k
bit_xor-lt zero zero b p q = rw (zero-bit_xor b) q
bit_xor-lt zero (suc a) b p q = absurd (omega arith)
bit_xor-lt (suc k) a b p q = omega (
  arith,
  pow-suc 2 k,
  bit_xor_step a b,
  bit_xor-lt k (a / 2) (b / 2) (omega (arith, pow-suc 2 k)) (omega (arith, pow-suc 2 k)),
)

bit_and_step : (x y : ℕ) → bit_and x y ≡ min (x % 2) (y % 2) + 2 * bit_and (x / 2) (y / 2)
bit_and_step (suc x) y = simp bit_and-bitwise (low_digit (λ t. 0) min (suc x) y (omega arith))
bit_and_step zero y = simp bit_and-bitwise (omega arith)

bit_and-zero : (a : ℕ) → bit_and a 0 ≡ 0
bit_and-zero =
    by_halves (λ a. bit_and a 0 ≡ 0) refl λ n ih. omega (arith, bit_and_step (suc n) 0, ih)

double_mod : (a p m : ℕ) → m + 1 ≡ p * 2 → a / 2 % p * 2 + min (a % 2) (m % 2) ≡ a % (p * 2)
double_mod a p m h = grind arith

-- The lowest k digits, picked out by a mask.
pub bit_and_mask : (k a m : ℕ) → m + 1 ≡ 2 ^ k → bit_and a m ≡ a % 2 ^ k
bit_and_mask zero a zero h = rw (bit_and-zero a) (omega arith)
bit_and_mask zero a (suc m) h = absurd (omega arith)
bit_and_mask (suc k) a m h =
    let half : bit_and (a / 2) (m / 2) ≡ a / 2 % 2 ^ k =
      bit_and_mask k (a / 2) (m / 2) (omega (arith, pow-suc 2 k)) in
    let whole = double_mod a (2 ^ k) m (omega (arith, pow-suc 2 k)) in
    rw (bit_and_step a m, half, pow-suc 2 k) (omega (arith, whole))
