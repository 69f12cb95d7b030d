-- ===== src/Identity/Bounds.antt =====
-- How many desk ids there are.
use remote_access_platform.Prelude.{
  ℕ, zero, suc, ◌+◌, ◌*◌, ◌/◌, ◌%◌, ◌^◌, ◌≤◌, ◌<◌, ◌≡◌, bit_or, ap, ◌∙◌, arith,
}
use remote_access_platform.Prelude.Bits.{bit_or_step, bit_or-zero}
use native.Mathlib.Nat.{pow-suc}
use remote_access_platform.Identity.{hash_number, desk_number}

double_pow : (a k : ℕ) → a * 2 ^ suc k ≡ a * 2 ^ k * 2
double_pow a k = rw (pow-suc 2 k) (grind arith)

bit_or_double : (x b r : ℕ) → bit_or x (b / 2) ≡ r → bit_or (x * 2) b ≡ b % 2 + 2 * r
bit_or_double x b r h =
    let back : x * 2 / 2 ≡ x = omega arith in
    let top : bit_or (x * 2 / 2) (b / 2) ≡ r = ap (λ (t : ℕ). bit_or t (b / 2)) back ∙ h in
    omega (arith, bit_or_step (x * 2) b, top)

-- An `|` of bits that do not meet is a sum.
bit_or_add : (k a b : ℕ) → b < 2 ^ k → bit_or (a * 2 ^ k) b ≡ a * 2 ^ k + b
bit_or_add zero a zero h = bit_or-zero (a * 1) ∙ omega arith
bit_or_add zero a (suc b) h = absurd (omega arith)
bit_or_add (suc k) a b h =
    let half = bit_or_add k a (b / 2) (omega (arith, pow-suc 2 k)) in
    rw (double_pow a k) (bit_or_double (a * 2 ^ k) b (a * 2 ^ k + b / 2) half ∙ omega arith)

hash_number_lem :
    (b0 b1 b2 : ℕ) → b1 < 256 → b2 < 256 → hash_number b0 b1 b2 ≡ (b0 * 256 + b1) * 256 + b2
unfolding hash_number
hash_number_lem b0 b1 b2 h1 h2 =
    let high : bit_or (b0 * 2 ^ 16) (b1 * 2 ^ 8) ≡ (b0 * 256 + b1) * 2 ^ 8 =
      bit_or_add 16 b0 (b1 * 2 ^ 8) (omega arith) ∙ omega arith in
    ap (λ (t : ℕ). bit_or t b2) high ∙ bit_or_add 8 (b0 * 256 + b1) b2 (omega arith)

-- From any three bytes of the hash, the desk number is 100000000 and the number that they spell,
-- at most 116777215.
desk_number_lem :
    (b0 b1 b2 : ℕ)
    → b0 < 256
    → b1 < 256
    → b2 < 256
    → (desk_number b0 b1 b2 ≡ 100000000 + ((b0 * 256 + b1) * 256 + b2))
      × (desk_number b0 b1 b2 ≤ 116777215)
unfolding desk_number
desk_number_lem b0 b1 b2 h0 h1 h2 =
    let n = hash_number_lem b0 b1 b2 h1 h2 in (omega (arith, n), omega (arith, n))
