-- ===== src/Security/Chacha20.antt =====
-- The stream cipher of libs/security/src/CryptoEngine.cpp. A `uint32_t` is a number below 2 ^ 32,
-- and an array is a list.
pub mod Stream
use remote_access_platform.Prelude.{
  ℕ, zero, suc, ◌+◌, ◌-◌, ◌*◌, ◌/◌, ◌%◌, ◌^◌, min, bit_or, bit_xor, List, [], ◌∷◌, ◌++◌, length,
  take, drop, set, get_or, arith, ltb, if◌then◌else◌,
}
use remote_access_platform.Memory.{store, load}

abbrev pub u32 : ℕ → ℕ
u32 x = x % 2 ^ 32

-- `(x << n) | (x >> (32 - n))`
unfoldable pub rotate_left : ℕ → ℕ → ℕ
rotate_left x n = bit_or (u32 (x * 2 ^ n)) (x / 2 ^ (32 - n))

unfoldable pub quarter_round : ℕ → ℕ → ℕ → ℕ → ℕ × ℕ × ℕ × ℕ
quarter_round a b c d =
    let a1 = u32 (a + b) in
    let d1 = rotate_left (bit_xor d a1) 16 in
    let c1 = u32 (c + d1) in
    let b1 = rotate_left (bit_xor b c1) 12 in
    let a2 = u32 (a1 + b1) in
    let d2 = rotate_left (bit_xor d1 a2) 8 in
    let c2 = u32 (c1 + d2) in let b2 = rotate_left (bit_xor b1 c2) 7 in (a2, b2, c2, d2)

-- `quarterRound(out[i], out[j], out[k], out[l])`: the four words are passed by reference.
unfoldable pub quarter_round_at : ℕ → ℕ → ℕ → ℕ → List ℕ → List ℕ
quarter_round_at i j k l out =
    let (a, b, c, d) =
      quarter_round (get_or out i 0) (get_or out j 0) (get_or out k 0) (get_or out l 0) in
    set (set (set (set out i a) j b) k c) l d

-- Four column rounds, then four diagonal rounds.
unfoldable pub double_round : List ℕ → List ℕ
double_round out =
    let s1 = quarter_round_at 0 4 8 12 out in
    let s2 = quarter_round_at 1 5 9 13 s1 in
    let s3 = quarter_round_at 2 6 10 14 s2 in
    let s4 = quarter_round_at 3 7 11 15 s3 in
    let s5 = quarter_round_at 0 5 10 15 s4 in
    let s6 = quarter_round_at 1 6 11 12 s5 in
    let s7 = quarter_round_at 2 7 8 13 s6 in quarter_round_at 3 4 9 14 s7

unfoldable pub rounds : ℕ → List ℕ → List ℕ
rounds zero out = out
rounds (suc r) out = rounds r (double_round out)

-- `out[i] += state[i]`
unfoldable pub add_words : List ℕ → List ℕ → List ℕ
add_words [] ys = []
add_words (x ∷ xs) [] = x ∷ xs
add_words (x ∷ xs) (y ∷ ys) = u32 (x + y) ∷ add_words xs ys

abbrev pub constants : List ℕ
constants = 0x61707865 ∷ 0x33303232 ∷ 0x7962326d ∷ 0x6b206574 ∷ []

unfoldable pub chacha20_block : List ℕ → ℕ → List ℕ → List ℕ
chacha20_block key counter nonce =
    let state = constants ++ (key ++ (counter ∷ nonce)) in add_words (rounds 10 state) state

-- `reinterpret_cast<const uint32_t*>(p)[i]` for i below n.
unfoldable pub words : ℕ → List ℕ → List ℕ
words zero p = []
words (suc n) p = load 4 p ∷ words n (drop 4 p)

-- A block read as bytes.
unfoldable pub block_bytes : List ℕ → List ℕ
block_bytes [] = []
block_bytes (w ∷ ws) = store 4 w ++ block_bytes ws

-- `data[i] ^= blockBytes[i]` for each byte of the data.
unfoldable pub xor_bytes : List ℕ → List ℕ → List ℕ
xor_bytes [] ys = []
xor_bytes (x ∷ xs) [] = x ∷ xs
xor_bytes (x ∷ xs) (y ∷ ys) = bit_xor x y ∷ xor_bytes xs ys

-- The loop over the data that is left. The first argument bounds its rounds.
unfoldable pub chacha20_loop : ℕ → List ℕ → List ℕ → List ℕ → ℕ → List ℕ
chacha20_loop fuel [] key32 nonce32 counter = []
chacha20_loop zero (x ∷ xs) key32 nonce32 counter = x ∷ xs
chacha20_loop (suc fuel) (x ∷ xs) key32 nonce32 counter =
    let data_left = x ∷ xs in
    let bytes_to_xor = min (length data_left) 64 in
    let block = block_bytes (chacha20_block key32 counter nonce32) in
    xor_bytes (take bytes_to_xor data_left) block
    ++ chacha20_loop fuel (drop bytes_to_xor data_left) key32 nonce32 (u32 (counter + 1))

-- Every round takes a byte at least, so that as many rounds as bytes are enough.
unfoldable pub chacha20_xor : List ℕ → List ℕ → List ℕ → ℕ → List ℕ
chacha20_xor bytes key nonce counter =
    chacha20_loop (length bytes) bytes (words 8 key) (words 3 nonce) counter
