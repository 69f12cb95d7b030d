-- ===== src/Security/Chacha20/Stream.antt =====
-- `chacha20Xor` mixes the data with a stream of bytes that does not depend on the data.
use remote_access_platform.Prelude.{
  ℕ, zero, suc, ◌+◌, ◌*◌, min, bit_xor, ◌≡◌, refl, ap, ap₂, ◌∙◌, List, [], ◌∷◌, ◌++◌, length, take,
  drop, arith, length-append, length-set, All, All-append,
}
use remote_access_platform.Prelude.Bits.{bit_xor_twice, bit_xor-lt}
use remote_access_platform.Memory.{store, length-store, IsByte, store-IsByte}
use remote_access_platform.Security.Chacha20.{
  u32, quarter_round_at, double_round, rounds, add_words, constants, chacha20_block, words,
  block_bytes, xor_bytes, chacha20_loop, chacha20_xor,
}

length-quarter_round_at :
    (i j k l : ℕ) (out : List ℕ) → length (quarter_round_at i j k l out) ≡ length out
unfolding quarter_round_at
length-quarter_round_at i j k l out = simp length-set

length-double_round : (out : List ℕ) → length (double_round out) ≡ length out
unfolding double_round
length-double_round out = simp length-quarter_round_at

length-rounds : (r : ℕ) (out : List ℕ) → length (rounds r out) ≡ length out
unfolding rounds
length-rounds zero out = refl
length-rounds (suc r) out = length-rounds r (double_round out) ∙ length-double_round out

length-add_words : (xs ys : List ℕ) → length (add_words xs ys) ≡ length xs
unfolding add_words
length-add_words [] ys = refl
length-add_words (x ∷ xs) [] = refl
length-add_words (x ∷ xs) (y ∷ ys) = ap suc (length-add_words xs ys)

length-words : (n : ℕ) (p : List ℕ) → length (words n p) ≡ n
unfolding words
length-words zero p = refl
length-words (suc n) p = ap suc (length-words n (drop 4 p))

length-block_bytes : (ws : List ℕ) → length (block_bytes ws) ≡ 4 * length ws
unfolding block_bytes
length-block_bytes [] = refl
length-block_bytes (w ∷ ws) =
    omega
      (arith, length-append (store 4 w) (block_bytes ws), length-store 4 w, length-block_bytes ws)

length-chacha20_block :
    (key nonce : List ℕ) (counter : ℕ)
    → length (chacha20_block key counter nonce) ≡ 5 + (length key + length nonce)
unfolding chacha20_block
length-chacha20_block key nonce counter =
    let state = constants ++ (key ++ (counter ∷ nonce)) in
    length-add_words (rounds 10 state) state
    ∙ length-rounds 10 state
    ∙ omega (arith, length-append key (counter ∷ nonce))

-- The bytes that `n` rounds of the loop mix in.
pub keystream : ℕ → List ℕ → List ℕ → ℕ → List ℕ
keystream zero key32 nonce32 counter = []
keystream (suc n) key32 nonce32 counter =
    block_bytes (chacha20_block key32 counter nonce32)
    ++ keystream n key32 nonce32 (u32 (counter + 1))

length-keystream :
    (n : ℕ) (key32 nonce32 : List ℕ) (counter : ℕ)
    → length key32 ≡ 8
    → length nonce32 ≡ 3
    → length (keystream n key32 nonce32 counter) ≡ 64 * n
unfolding keystream
length-keystream zero key32 nonce32 counter hk hn = refl
length-keystream (suc n) key32 nonce32 counter hk hn = omega (
  arith,
  length-append (block_bytes (chacha20_block key32 counter nonce32))
      (keystream n key32 nonce32 (u32 (counter + 1))),
  length-block_bytes (chacha20_block key32 counter nonce32),
  length-chacha20_block key32 nonce32 counter,
  length-keystream n key32 nonce32 (u32 (counter + 1)) hk hn,
)

-- Mixing the front with one stream and the rest with another.
xor_bytes-append :
    (n : ℕ) (xs ys zs : List ℕ)
    → n ≡ min (length xs) (length ys)
    → xor_bytes (take n xs) ys ++ xor_bytes (drop n xs) zs ≡ xor_bytes xs (ys ++ zs)
unfolding xor_bytes
xor_bytes-append zero [] ys zs e = refl
xor_bytes-append (suc n) [] ys zs e = refl
xor_bytes-append zero (x ∷ xs) [] zs e = refl
xor_bytes-append (suc n) (x ∷ xs) [] zs e = absurd (omega arith)
xor_bytes-append zero (x ∷ xs) (y ∷ ys) zs e = absurd (omega arith)
xor_bytes-append (suc n) (x ∷ xs) (y ∷ ys) zs e =
    ap (◌∷◌ (bit_xor x y)) (xor_bytes-append n xs ys zs (omega arith))

chacha20_loop-keystream :
    (fuel : ℕ) (bytes key32 nonce32 : List ℕ) (counter : ℕ)
    → length key32 ≡ 8
    → length nonce32 ≡ 3
    → chacha20_loop fuel bytes key32 nonce32 counter
      ≡ xor_bytes bytes (keystream fuel key32 nonce32 counter)
unfolding chacha20_loop keystream
chacha20_loop-keystream fuel [] key32 nonce32 counter hk hn = unfold xor_bytes in refl
chacha20_loop-keystream zero (x ∷ xs) key32 nonce32 counter hk hn = unfold xor_bytes in refl
chacha20_loop-keystream (suc fuel) (x ∷ xs) key32 nonce32 counter hk hn =
    let block = block_bytes (chacha20_block key32 counter nonce32) in
    let n = min (suc (length xs)) 64 in
    let rest = keystream fuel key32 nonce32 (u32 (counter + 1)) in
    rw (chacha20_loop-keystream fuel (drop n (x ∷ xs)) key32 nonce32 (u32 (counter + 1)) hk hn) (
      xor_bytes-append n (x ∷ xs) block rest (
        omega (
          arith,
          length-block_bytes (chacha20_block key32 counter nonce32),
          length-chacha20_block key32 nonce32 counter,
        )))

-- Mixing in place, block by block, is mixing with one stream of 64 bytes for each byte of the
-- data, which depends on the key, the nonce and the counter only.
pub chacha20_xor-keystream :
    (bytes key nonce : List ℕ) (counter : ℕ)
    → let stream = keystream (length bytes) (words 8 key) (words 3 nonce) counter in
      (chacha20_xor bytes key nonce counter ≡ xor_bytes bytes stream)
      × (length stream ≡ 64 * length bytes)
unfolding chacha20_xor
chacha20_xor-keystream bytes key nonce counter = (
  chacha20_loop-keystream (length bytes) bytes (words 8 key) (words 3 nonce) counter
      (length-words 8 key) (length-words 3 nonce),
  length-keystream (length bytes) (words 8 key) (words 3 nonce) counter (length-words 8 key)
      (length-words 3 nonce),
)

length-xor_bytes : (xs ys : List ℕ) → length (xor_bytes xs ys) ≡ length xs
unfolding xor_bytes
length-xor_bytes [] ys = refl
length-xor_bytes (x ∷ xs) [] = refl
length-xor_bytes (x ∷ xs) (y ∷ ys) = ap suc (length-xor_bytes xs ys)

xor_bytes_twice : (xs ys : List ℕ) → xor_bytes (xor_bytes xs ys) ys ≡ xs
unfolding xor_bytes
xor_bytes_twice [] ys = refl
xor_bytes_twice (x ∷ xs) [] = refl
xor_bytes_twice (x ∷ xs) (y ∷ ys) = ap₂ ◌∷◌ (bit_xor_twice x y) (xor_bytes_twice xs ys)

pub length-chacha20_xor :
    (bytes key nonce : List ℕ) (counter : ℕ)
    → length (chacha20_xor bytes key nonce counter) ≡ length bytes
length-chacha20_xor bytes key nonce counter =
    rw ((chacha20_xor-keystream bytes key nonce counter).0) (length-xor_bytes bytes _)

-- Enciphering twice under one key, nonce and counter gives the data back.
pub chacha20_xor-chacha20_xor :
    (bytes key nonce : List ℕ) (counter : ℕ)
    → chacha20_xor (chacha20_xor bytes key nonce counter) key nonce counter ≡ bytes
chacha20_xor-chacha20_xor bytes key nonce counter =
    let once = chacha20_xor bytes key nonce counter in
    let e = (chacha20_xor-keystream bytes key nonce counter).0 in
    (chacha20_xor-keystream once key nonce counter).0
    ∙ rw (length-chacha20_xor bytes key nonce counter, e)
        (xor_bytes_twice bytes (keystream (length bytes) (words 8 key) (words 3 nonce) counter))

block_bytes-IsByte : (ws : List ℕ) → All IsByte (block_bytes ws)
unfolding block_bytes
block_bytes-IsByte [] = tt
block_bytes-IsByte (w ∷ ws) =
    All-append IsByte (store 4 w) (block_bytes ws) (store-IsByte 4 w) (block_bytes-IsByte ws)

keystream-IsByte :
    (n : ℕ) (key32 nonce32 : List ℕ) (counter : ℕ) → All IsByte (keystream n key32 nonce32 counter)
unfolding keystream
keystream-IsByte zero key32 nonce32 counter = tt
keystream-IsByte (suc n) key32 nonce32 counter =
    let block = chacha20_block key32 counter nonce32 in
    All-append IsByte (block_bytes block) (keystream n key32 nonce32 (u32 (counter + 1)))
      (block_bytes-IsByte block) (keystream-IsByte n key32 nonce32 (u32 (counter + 1)))

xor_bytes-IsByte : (xs ys : List ℕ) → All IsByte xs → All IsByte ys → All IsByte (xor_bytes xs ys)
unfolding xor_bytes
xor_bytes-IsByte [] ys hx hy = tt
xor_bytes-IsByte (x ∷ xs) [] hx hy = hx
xor_bytes-IsByte (x ∷ xs) (y ∷ ys) hx hy =
    (bit_xor-lt 8 x y hx.0 hy.0, xor_bytes-IsByte xs ys hx.1 hy.1)

pub chacha20_xor-IsByte :
    (bytes key nonce : List ℕ) (counter : ℕ)
    → All IsByte bytes
    → All IsByte (chacha20_xor bytes key nonce counter)
chacha20_xor-IsByte bytes key nonce counter h =
    rw ((chacha20_xor-keystream bytes key nonce counter).0) (
      xor_bytes-IsByte bytes _ h
        (keystream-IsByte (length bytes) (words 8 key) (words 3 nonce) counter))
