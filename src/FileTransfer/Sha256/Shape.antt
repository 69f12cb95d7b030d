-- ===== src/FileTransfer/Sha256/Shape.antt =====
-- The shape of what `computeSha256` returns.
use remote_access_platform.Prelude.{
  ℕ, zero, suc, ◌*◌, ◌≤◌, ◌≡◌, ◌⊎◌, refl, List, [], ◌∷◌, length, take, drop, length-append,
  length-drop, arith, All, All-append,
}
use remote_access_platform.FileTransfer.Sha256.{
  padded_message, hash_chunk, hash_chunks, hex_digit, hex, hex_words, compute_sha256, initial_hash,
}

abbrev pub IsHexDigit : ℕ → Type 0
IsHexDigit c = ((b'0' ≤ c) × (c ≤ b'9')) ⊎ ((b'a' ≤ c) × (c ≤ b'f'))

hex-IsHexDigit : (n x : ℕ) → All IsHexDigit (hex n x) × (length (hex n x) ≡ n)
unfolding hex hex_digit
hex-IsHexDigit zero x = (tt, refl)
hex-IsHexDigit (suc n) x = ground (arith, hex-IsHexDigit n x)

hex_words-IsHexDigit :
    (ws : List ℕ) → All IsHexDigit (hex_words ws) × (length (hex_words ws) ≡ 8 * length ws)
unfolding hex_words
hex_words-IsHexDigit [] = (tt, refl)
hex_words-IsHexDigit (w ∷ ws) =
    let (h, l) = hex-IsHexDigit 8 w in
    let (hs, ls) = hex_words-IsHexDigit ws in
    (
      All-append IsHexDigit (hex 8 w) (hex_words ws) h hs,
      omega (arith, length-append (hex 8 w) (hex_words ws)),
    )

length-hash_chunks :
    (fuel : ℕ) (hash bytes : List ℕ) → length hash ≡ 8 → length (hash_chunks fuel hash bytes) ≡ 8
unfolding hash_chunks
length-hash_chunks fuel hash [] h = h
length-hash_chunks zero hash (x ∷ xs) h = h
length-hash_chunks (suc fuel) hash (x ∷ xs) h =
    length-hash_chunks fuel (hash_chunk hash (take 64 (x ∷ xs))) (drop 64 (x ∷ xs))
      (unfold hash_chunk in refl)

-- As many rounds as bytes are enough: more change nothing.
pub hash_chunks_fuel :
    (n m : ℕ) (hash bytes : List ℕ)
    → length bytes ≤ n
    → length bytes ≤ m
    → hash_chunks n hash bytes ≡ hash_chunks m hash bytes
unfolding hash_chunks
hash_chunks_fuel n m hash [] p q = refl
hash_chunks_fuel zero m hash (x ∷ xs) p q = absurd (omega arith)
hash_chunks_fuel (suc n) zero hash (x ∷ xs) p q = absurd (omega arith)
hash_chunks_fuel (suc n) (suc m) hash (x ∷ xs) p q =
    hash_chunks_fuel n m (hash_chunk hash (take 64 (x ∷ xs))) (drop 64 (x ∷ xs))
      (omega (arith, length-drop 63 xs)) (omega (arith, length-drop 63 xs))

-- A hash is 64 lowercase hexadecimal digits, whatever the message.
compute_sha256-IsHexDigit :
    (m : List ℕ) → All IsHexDigit (compute_sha256 m) × (length (compute_sha256 m) ≡ 64)
unfolding compute_sha256
compute_sha256-IsHexDigit m =
    let padded = padded_message m in
    let (h, l) = hex_words-IsHexDigit (hash_chunks (length padded) initial_hash padded) in
    (h, omega (arith, l, length-hash_chunks (length padded) initial_hash padded refl))
