-- ===== src/FileTransfer/Sha256.antt =====
-- `computeSha256` of libs/file_transfer/src/FileTransferEngine.cpp. A `uint32_t` is a number below
-- 2 ^ 32, an array is a list, and a text is the list of its character codes.
pub mod Padding
pub mod Injective
pub mod Shape
use remote_access_platform.Prelude.{
  ℕ, zero, suc, ◌+◌, ◌-◌, ◌*◌, ◌/◌, ◌%◌, ◌^◌, ◌≤◌, ◌≡◌, refl, bit_and, bit_or, bit_xor, List, [],
  ◌∷◌, ◌++◌, length, take, drop, get_or, arith, ltb, ◌==◌, if◌then◌else◌,
}

abbrev pub u32 : ℕ → ℕ
u32 x = x % 2 ^ 32

abbrev pub initial_hash : List ℕ
initial_hash =
    0x6a09e667 ∷ 0xbb67ae85 ∷ 0x3c6ef372 ∷ 0xa54ff53a ∷ 0x510e527f ∷ 0x9b05688c ∷ 0x1f83d9ab
    ∷ 0x5be0cd19 ∷ []

abbrev pub round_constants : List ℕ
round_constants =
    0x428a2f98 ∷ 0x71374491 ∷ 0xb5c0fbcf ∷ 0xe9b5dba5 ∷ 0x3956c25b ∷ 0x59f111f1 ∷ 0x923f82a4
    ∷ 0xab1c5ed5 ∷ 0xd807aa98 ∷ 0x12835b01 ∷ 0x243185be ∷ 0x550c7dc3 ∷ 0x72be5d74 ∷ 0x80deb1fe
    ∷ 0x9bdc06a7 ∷ 0xc19bf174 ∷ 0xe49b69c1 ∷ 0xefbe4786 ∷ 0x0fc19dc6 ∷ 0x240ca1cc ∷ 0x2de92c6f
    ∷ 0x4a7484aa ∷ 0x5cb0a9dc ∷ 0x76f988da ∷ 0x983e5152 ∷ 0xa831c66d ∷ 0xb00327c8 ∷ 0xbf597fc7
    ∷ 0xc6e00bf3 ∷ 0xd5a79147 ∷ 0x06ca6351 ∷ 0x14292967 ∷ 0x27b70a85 ∷ 0x2e1b2138 ∷ 0x4d2c6dfc
    ∷ 0x53380d13 ∷ 0x650a7354 ∷ 0x766a0abb ∷ 0x81c2c92e ∷ 0x92722c85 ∷ 0xa2bfe8a1 ∷ 0xa81a664b
    ∷ 0xc24b8b70 ∷ 0xc76c51a3 ∷ 0xd192e819 ∷ 0xd6990624 ∷ 0xf40e3585 ∷ 0x106aa070 ∷ 0x19a4c116
    ∷ 0x1e376c08 ∷ 0x2748774c ∷ 0x34b0bcb5 ∷ 0x391c0cb3 ∷ 0x4ed8aa4a ∷ 0x5b9cca4f ∷ 0x682e6ff3
    ∷ 0x748f82ee ∷ 0x78a5636f ∷ 0x84c87814 ∷ 0x8cc70208 ∷ 0x90befffa ∷ 0xa4506ceb ∷ 0xbef9a3f7
    ∷ 0xc67178f2 ∷ []

-- `(x >> n) | (x << (32 - n))`
unfoldable pub right_rotate : ℕ → ℕ → ℕ
right_rotate x n = bit_or (x / 2 ^ n) (u32 (x * 2 ^ (32 - n)))

-- `~x` on 32 bits
unfoldable pub complement : ℕ → ℕ
complement x = 2 ^ 32 - 1 - u32 x

-- `while ((padded.size() % 64) != 56) padded.push_back(0x00)`; the first argument bounds the rounds.
unfoldable pub pad_loop : ℕ → List ℕ → List ℕ
pad_loop zero padded = padded
pad_loop (suc fuel) padded =
    let longer = pad_loop fuel (padded ++ (0x00 ∷ [])) in
    if length padded % 64 == 56 then padded else longer

-- `padded.push_back((bitLength >> (i * 8)) & 0xFF)` for i from n - 1 down to 0.
unfoldable pub length_bytes : ℕ → ℕ → List ℕ
length_bytes zero bit_length = []
length_bytes (suc i) bit_length =
    bit_and (bit_length / 2 ^ (i * 8)) 0xFF ∷ length_bytes i bit_length

-- The length modulo 64 runs through every remainder in 64 rounds.
unfoldable pub padded_message : List ℕ → List ℕ
padded_message message =
    pad_loop 64 (message ++ (0x80 ∷ [])) ++ length_bytes 8 (length message * 8 % 2 ^ 64)

-- The first n words of the schedule, each from four bytes.
unfoldable pub block_words : ℕ → List ℕ → List ℕ
block_words zero chunk = []
block_words (suc n) chunk =
    bit_or
      (bit_or (bit_or (get_or chunk 0 0 * 2 ^ 24) (get_or chunk 1 0 * 2 ^ 16))
        (get_or chunk 2 0 * 2 ^ 8))
      (get_or chunk 3 0)
    ∷ block_words n (drop 4 chunk)

-- `w[i]` from the words before it.
unfoldable pub next_word : ℕ → List ℕ → ℕ
next_word i w =
    let w15 = get_or w (i - 15) 0 in
    let w2 = get_or w (i - 2) 0 in
    let s0 = bit_xor (bit_xor (right_rotate w15 7) (right_rotate w15 18)) (w15 / 2 ^ 3) in
    let s1 = bit_xor (bit_xor (right_rotate w2 17) (right_rotate w2 19)) (w2 / 2 ^ 10) in
    u32 (get_or w (i - 16) 0 + s0 + get_or w (i - 7) 0 + s1)

-- `for (i = 16; i < 64; ++i)`: n rounds are left.
unfoldable pub extend_words : ℕ → ℕ → List ℕ → List ℕ
extend_words zero i w = w
extend_words (suc n) i w = extend_words n (i + 1) (w ++ (next_word i w ∷ []))

pub record Registers : Type 0 where
  pub a : ℕ
  pub b : ℕ
  pub c : ℕ
  pub d : ℕ
  pub e : ℕ
  pub f : ℕ
  pub g : ℕ
  pub h : ℕ

unfoldable pub round : ℕ → ℕ → Registers → Registers
round k w r =
    let s1 = bit_xor (bit_xor (right_rotate r.e 6) (right_rotate r.e 11)) (right_rotate r.e 25) in
    let ch = bit_xor (bit_and r.e r.f) (bit_and (complement r.e) r.g) in
    let temp1 = u32 (r.h + s1 + ch + k + w) in
    let s0 = bit_xor (bit_xor (right_rotate r.a 2) (right_rotate r.a 13)) (right_rotate r.a 22) in
    let maj = bit_xor (bit_xor (bit_and r.a r.b) (bit_and r.a r.c)) (bit_and r.b r.c) in
    let temp2 = u32 (s0 + maj) in
    record {
      a = u32 (temp1 + temp2);
      b = r.a;
      c = r.b;
      d = r.c;
      e = u32 (r.d + temp1);
      f = r.e;
      g = r.f;
      h = r.g;
    }

-- One round for each constant and its word.
unfoldable pub compress : List ℕ → List ℕ → Registers → Registers
compress [] ws r = r
compress (k ∷ ks) [] r = r
compress (k ∷ ks) (w ∷ ws) r = compress ks ws (round k w r)

-- One chunk of 64 bytes.
unfoldable pub hash_chunk : List ℕ → List ℕ → List ℕ
hash_chunk hash chunk =
    let w = extend_words 48 16 (block_words 16 chunk) in
    let r = compress round_constants w (record {
      a = get_or hash 0 0;
      b = get_or hash 1 0;
      c = get_or hash 2 0;
      d = get_or hash 3 0;
      e = get_or hash 4 0;
      f = get_or hash 5 0;
      g = get_or hash 6 0;
      h = get_or hash 7 0;
    }) in
    u32 (get_or hash 0 0 + r.a)
    ∷ u32 (get_or hash 1 0 + r.b)
    ∷ u32 (get_or hash 2 0 + r.c)
    ∷ u32 (get_or hash 3 0 + r.d)
    ∷ u32 (get_or hash 4 0 + r.e)
    ∷ u32 (get_or hash 5 0 + r.f)
    ∷ u32 (get_or hash 6 0 + r.g)
    ∷ u32 (get_or hash 7 0 + r.h)
    ∷ []

-- The loop over the chunks of what is left; the first argument bounds the rounds.
unfoldable pub hash_chunks : ℕ → List ℕ → List ℕ → List ℕ
hash_chunks fuel hash [] = hash
hash_chunks zero hash (x ∷ xs) = hash
hash_chunks (suc fuel) hash (x ∷ xs) =
    hash_chunks fuel (hash_chunk hash (take 64 (x ∷ xs))) (drop 64 (x ∷ xs))

unfoldable pub hex_digit : ℕ → ℕ
hex_digit n = if ltb n 10 then b'0' + n else b'a' + (n - 10)

-- The n lowest hexadecimal digits of a word, highest first, with leading zeros.
unfoldable pub hex : ℕ → ℕ → List ℕ
hex zero x = []
hex (suc n) x = hex_digit (x / 16 ^ n % 16) ∷ hex n x

unfoldable pub hex_words : List ℕ → List ℕ
hex_words [] = []
hex_words (x ∷ xs) = hex 8 x ++ hex_words xs

unfoldable pub compute_sha256 : List ℕ → List ℕ
compute_sha256 message =
    let padded = padded_message message in
    hex_words (hash_chunks (length padded) initial_hash padded)
