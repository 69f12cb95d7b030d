-- ===== src/FileTransfer/Sha256/Injective.antt =====
-- The padding of `computeSha256` loses nothing of the message.
use remote_access_platform.Prelude.{
  ℕ, zero, suc, ◌+◌, ◌*◌, ◌/◌, ◌%◌, ◌^◌, ◌≤◌, ◌<◌, ◌≡◌, refl, sym, ap, ◌∙◌, List, [], ◌∷◌, ◌++◌,
  length, take, drop, length-append, arith, replicate, take-append, drop-append, bit_and,
}
use remote_access_platform.Prelude.Bits.{bit_and_mask}
use native.Mathlib.Nat.{
  pow-suc, one-le-pow, div-add-mod, mod-lt, mod-eq_of_lt, add-mul-mod_self_left,
}
use native.Mathlib.Numerals.{towards_suc}
use mathlib.Core.List.{append_assoc}
use remote_access_platform.FileTransfer.Sha256.{length_bytes, padded_message}
use remote_access_platform.FileTransfer.Sha256.Padding.{
  zeros_needed, padded_message_lem, length-length_bytes,
}

-- The number that big-endian bytes stand for.
pub from_big_endian : ℕ → List ℕ → ℕ
from_big_endian acc [] = acc
from_big_endian acc (b ∷ bs) = from_big_endian (acc * 256 + b) bs

power_of_byte : (n : ℕ) → 2 ^ (n * 8) ≡ 256 ^ n
power_of_byte zero = refl
power_of_byte (suc n) =
    ap (λ (t : ℕ). 2 ^ t) (next n) ∙ eight (n * 8) ∙ omega (arith, power_of_byte n, pow-suc 256 n)
  where
    next : (k : ℕ) → suc k * 8 ≡ k * 8 + 8
    next k = omega arith

    eight : (k : ℕ) → 2 ^ (k + 8) ≡ 256 * 2 ^ k
    eight k = simp towards_suc (omega arith)

under : (p x : ℕ) → x ≤ 255 → p * x ≤ p * 255
under p x h = grind arith

-- The remainder by `p * 256`, from those by `p` and by 256.
mod-byte : (v p : ℕ) → 0 < p → v % (p * 256) ≡ v / p % 256 * p + v % p
mod-byte v p h =
    let q = v / p in
    let low = v % p + p * (q % 256) in
    let whole : v ≡ low + p * 256 * (q / 256) =
      omega (arith, div-add-mod v p, ap (λ (t : ℕ). p * t) (div-add-mod q 256)) in
    let small : low < p * 256 = omega (arith, mod-lt v h, under p (q % 256) (omega arith)) in
    ap (λ (t : ℕ). t % (p * 256)) whole
    ∙ add-mul-mod_self_left low (p * 256) (q / 256)
    ∙ mod-eq_of_lt small
    ∙ omega arith

join_byte :
    (acc v p : ℕ) → 0 < p → (acc * 256 + v / p % 256) * p + v % p ≡ acc * (p * 256) + v % (p * 256)
join_byte acc v p h = omega (arith, mod-byte v p h)

from_big_endian-length_bytes :
    (n acc v : ℕ) → from_big_endian acc (length_bytes n v) ≡ acc * 256 ^ n + v % 256 ^ n
unfolding from_big_endian length_bytes
from_big_endian-length_bytes zero acc v = omega arith
from_big_endian-length_bytes (suc n) acc v =
    from_big_endian-length_bytes n (acc * 256 + bit_and (v / 2 ^ (n * 8)) 0xFF) v
    ∙ rw (power_of_byte n, bit_and_mask 8 (v / 256 ^ n) 255 refl, pow-suc 256 n)
        (join_byte acc v (256 ^ n) (one-le-pow n 256 (omega arith)))

-- The part of a padded message before its length.
before_length : List ℕ → List ℕ
before_length m = m ++ (0x80 ∷ []) ++ replicate (zeros_needed (length m + 1)) 0

length_field : List ℕ → List ℕ
length_field m = length_bytes 8 (length m * 8 % 2 ^ 64)

padded_parts : (m : List ℕ) → padded_message m ≡ before_length m ++ length_field m
unfolding before_length length_field
padded_parts m = (padded_message_lem m).0

length_field-injective :
    (m n : List ℕ)
    → length m < 2 ^ 61
    → length n < 2 ^ 61
    → length_field m ≡ length_field n
    → length m ≡ length n
unfolding length_field
length_field-injective m n hm hn e =
    let same = ap (from_big_endian 0) e in
    omega (
      arith,
      same,
      from_big_endian-length_bytes 8 0 (length m * 8 % 2 ^ 64),
      from_big_endian-length_bytes 8 0 (length n * 8 % 2 ^ 64),
    )

same_lengths :
    (m n : List ℕ)
    → padded_message m ≡ padded_message n
    → length (before_length m) ≡ length (before_length n)
same_lengths m n e =
    let parts = ap length (sym (padded_parts m) ∙ e ∙ padded_parts n) in
    omega (
      arith,
      parts,
      length-append (before_length m) (length_field m),
      length-append (before_length n) (length_field n),
      lf m,
      lf n,
    )
  where
    lf : (k : List ℕ) → length (length_field k) ≡ 8
    lf k = unfold length_field in length-length_bytes 8 (length k * 8 % 2 ^ 64)

message_back : (m : List ℕ) → take (length m) (padded_message m) ≡ m
unfolding before_length
message_back m =
    rw (padded_parts m, before_length, append_assoc, append_assoc) (take-append (length m) m _ refl)

-- Two messages below 2 ^ 61 bytes that are padded to the same bytes are the same.
pub padded_message-injective :
    (m n : List ℕ)
    → length m < 2 ^ 61
    → length n < 2 ^ 61
    → padded_message m ≡ padded_message n
    → m ≡ n
padded_message-injective m n hm hn e =
    let k = same_lengths m n e in
    let fields : length_field m ≡ length_field n =
      sym (drop-append (length (before_length m)) (before_length m) (length_field m) refl)
      ∙ ap (drop (length (before_length m))) (sym (padded_parts m) ∙ e ∙ padded_parts n)
      ∙ drop-append (length (before_length m)) (before_length n) (length_field n) k in
    let l = length_field-injective m n hm hn fields in
    sym (message_back m)
    ∙ ap (take (length m)) e
    ∙ ap (λ (t : ℕ). take t (padded_message n)) l
    ∙ message_back n
