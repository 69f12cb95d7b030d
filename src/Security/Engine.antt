-- ===== src/Security/Engine.antt =====
-- The operations of `CryptoEngine`, libs/security/include/CryptoEngine.h and
-- libs/security/src/CryptoEngine.cpp. Random bytes come from the operating system and are an
-- argument; `none` of an operation other than `decrypt_payload` is its `std::invalid_argument`.
pub mod Laws
pub mod Exchange
pub mod Interface
use remote_access_platform.Prelude.{
  ℕ, ◌+◌, ◌-◌, bit_or, bit_xor, List, [], ◌∷◌, ◌++◌, map, Bool, ◌||◌, not, Option, none, some,
  length, take, drop, ltb, ◌==◌, if◌then◌else◌,
}
use remote_access_platform.Security.Chacha20.{chacha20_xor, xor_bytes}
use remote_access_platform.Security.Poly1305.{compute_poly1305_mac}

abbrev pub key_size : ℕ
key_size = 32

abbrev pub nonce_size : ℕ
nonce_size = 12

abbrev pub tag_size : ℕ
tag_size = 16

pub record KeyPair : Type 0 where
  pub public_key : List ℕ
  pub private_key : List ℕ

-- The argument is what `generateRandomBytes(KEY_SIZE)` returned.
unfoldable pub generate_key_pair : List ℕ → KeyPair
generate_key_pair random_bytes = record {
  public_key = map (λ b. bit_xor b 0x5A) random_bytes;
  private_key = random_bytes;
}

unfoldable pub derive_shared_secret : List ℕ → List ℕ → Option (List ℕ)
derive_shared_secret our_private_key peer_public_key =
    if not (length our_private_key == key_size) || not (length peer_public_key == key_size)
    then none
    else some (xor_bytes our_private_key peer_public_key)

-- `diff |= tagPtr[i] ^ expectedTag[i]` over two tags of one length.
unfoldable pub tag_diff : ℕ → List ℕ → List ℕ → ℕ
tag_diff diff [] ys = diff
tag_diff diff (x ∷ xs) [] = diff
tag_diff diff (x ∷ xs) (y ∷ ys) = tag_diff (bit_or diff (bit_xor x y)) xs ys

module _ (overshift : ℕ) where
  unfoldable pub encrypt_payload : List ℕ → List ℕ → List ℕ → Option (List ℕ)
  encrypt_payload plaintext key nonce =
      if not (length key == key_size) || not (length nonce == nonce_size)
      then none
      else (let ciphertext = chacha20_xor plaintext key nonce 1 in
          some (ciphertext ++ compute_poly1305_mac overshift ciphertext key))

  unfoldable pub decrypt_payload : List ℕ → List ℕ → List ℕ → Option (List ℕ)
  decrypt_payload ciphertext key nonce =
      let payload_size = length ciphertext - tag_size in
      let body = take payload_size ciphertext in
      let tag = drop payload_size ciphertext in
      if not (length key == key_size)
        || not (length nonce == nonce_size)
        || ltb (length ciphertext) tag_size
      then none
      else if not (tag_diff 0 tag (compute_poly1305_mac overshift body key) == 0)
      then none
      else some (chacha20_xor body key nonce 1)
