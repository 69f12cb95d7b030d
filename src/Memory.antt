-- ===== src/Memory.antt =====
-- Integers in byte buffers: `std::memcpy` between an unsigned integer and `uint8_t` memory, as
-- libs/protocol/src/ProtocolCodec.cpp, apps/agent/src/AgentPacketHandler.h and
-- apps/client/src/SessionClient.cpp use it. The host is little-endian, as are the platforms the
-- program is built for. A pointer into a buffer is the list of the bytes from there on.
use remote_access_platform.Prelude.{
  ℕ, zero, suc, ◌+◌, ◌*◌, ◌/◌, ◌%◌, ◌^◌, ◌≤◌, ◌<◌, ◌≡◌, refl, ap, List, [], ◌∷◌, ◌++◌, arith,
  length, drop, All,
}
use native.Mathlib.Nat.{pow-suc}

abbrev pub IsByte : ℕ → Type 0
IsByte b = b < 256

-- The `n` bytes of an integer, lowest first.
unfoldable pub store : ℕ → ℕ → List ℕ
store zero v = []
store (suc n) v = (v % 256) ∷ store n (v / 256)

-- The integer in the first `n` bytes at a pointer.
unfoldable pub load : ℕ → List ℕ → ℕ
load zero ptr = 0
load (suc n) [] = 0
load (suc n) (b ∷ ptr) = b + 256 * load n ptr

pub length-store : (n v : ℕ) → length (store n v) ≡ n
unfolding store
length-store zero v = refl
length-store (suc n) v = ap suc (length-store n (v / 256))

pub store-IsByte : (n v : ℕ) → All IsByte (store n v)
unfolding store
store-IsByte zero v = tt
store-IsByte (suc n) v = (omega arith, store-IsByte n (v / 256))

-- A stored integer is read back, if it fits.
pub load-store : (n v : ℕ) (rest : List ℕ) → v < 256 ^ n → load n (store n v ++ rest) ≡ v
unfolding load store
load-store zero v rest h = omega arith
load-store (suc n) v rest h =
    omega (arith, pow-suc 256 n, load-store n (v / 256) rest (omega (arith, pow-suc 256 n)))

pub drop-store : (n v : ℕ) (rest : List ℕ) → drop n (store n v ++ rest) ≡ rest
unfolding store
drop-store zero v rest = refl
drop-store (suc n) v rest = drop-store n (v / 256) rest

-- Reading and storing again gives the bytes that were there.
pub store-load :
    (n : ℕ) (ptr : List ℕ)
    → n ≤ length ptr
    → All IsByte ptr
    → store n (load n ptr) ++ drop n ptr ≡ ptr
unfolding load store
store-load zero ptr h b = refl
store-load (suc n) [] h b = absurd (omega arith)
store-load (suc n) (b ∷ ptr) h (hb, hs) =
    rw (low, high) (ap (◌∷◌ b) (store-load n ptr (omega arith) hs))
  where
    low : (b + 256 * load n ptr) % 256 ≡ b
    low = omega arith

    high : (b + 256 * load n ptr) / 256 ≡ load n ptr
    high = omega arith

-- What is read fits `n` bytes.
pub load-lt : (n : ℕ) (ptr : List ℕ) → All IsByte ptr → load n ptr < 256 ^ n
unfolding load
load-lt zero ptr h = omega arith
load-lt (suc n) [] h = omega (arith, pow-suc 256 n, load-lt n [] tt)
load-lt (suc n) (b ∷ ptr) h = omega (arith, pow-suc 256 n, load-lt n ptr h.1)

-- Bytes behind the integer do not change it.
pub load-append : (n : ℕ) (ptr rest : List ℕ) → n ≤ length ptr → load n (ptr ++ rest) ≡ load n ptr
unfolding load
load-append zero ptr rest h = refl
load-append (suc n) [] rest h = absurd (omega arith)
load-append (suc n) (b ∷ ptr) rest h =
    ap (λ (t : ℕ). b + 256 * t) (load-append n ptr rest (omega arith))
