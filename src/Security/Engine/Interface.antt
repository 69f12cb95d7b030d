-- ===== src/Security/Engine/Interface.antt =====
-- What the agent and the client rely on in `CryptoEngine`: encryption that succeeds on keys and nonces
-- of the right sizes, a decryption that undoes it, and one that accepts nothing else.
use remote_access_platform.Prelude.{ℕ, ◌+◌, ◌≡◌, refl, List, Option, some, length, All, ◌++◌}
use remote_access_platform.Memory.{IsByte}
use remote_access_platform.Security.Chacha20.{chacha20_xor}
use remote_access_platform.Security.Poly1305.{compute_poly1305_mac}
use remote_access_platform.Security.Engine.{encrypt_payload, decrypt_payload}
use remote_access_platform.Security.Engine.Laws.{
  encrypt_payload_iff, length-encrypt_payload, decrypt_payload-encrypt_payload,
  encrypt_payload-decrypt_payload, encrypt_payload-IsByte,
}

pub record Cipher : Type 0 where
  pub encrypt : List ℕ → List ℕ → List ℕ → Option (List ℕ)
  pub decrypt : List ℕ → List ℕ → List ℕ → Option (List ℕ)
  pub encrypt_total :
      (p key nonce : List ℕ)
      → length key ≡ 32
      → length nonce ≡ 12
      → (c : List ℕ) × (encrypt p key nonce ≡ some c)
  pub length-encrypt :
      (p key nonce c : List ℕ) → encrypt p key nonce ≡ some c → length c ≡ length p + 16
  pub decrypt-encrypt :
      (p key nonce c : List ℕ) → encrypt p key nonce ≡ some c → decrypt c key nonce ≡ some p
  pub encrypt-decrypt :
      (c key nonce p : List ℕ) → decrypt c key nonce ≡ some p → encrypt p key nonce ≡ some c
  pub encrypt-IsByte :
      (p key nonce c : List ℕ) → All IsByte p → encrypt p key nonce ≡ some c → All IsByte c

pub encrypt_payload_total :
    (overshift : ℕ) (p key nonce : List ℕ)
    → length key ≡ 32
    → length nonce ≡ 12
    → (c : List ℕ) × (encrypt_payload overshift p key nonce ≡ some c)
encrypt_payload_total overshift p key nonce hk hn =
    let body = chacha20_xor p key nonce 1 in
    let c = body ++ compute_poly1305_mac overshift body key in
    (c, (encrypt_payload_iff overshift p key nonce c).1 (hk, hn, refl))

-- The engine meets the interface.
abbrev pub crypto_engine : ℕ → Cipher
crypto_engine overshift = record {
  encrypt = encrypt_payload overshift;
  decrypt = decrypt_payload overshift;
  encrypt_total = encrypt_payload_total overshift;
  length-encrypt = length-encrypt_payload overshift;
  decrypt-encrypt = decrypt_payload-encrypt_payload overshift;
  encrypt-decrypt = encrypt_payload-decrypt_payload overshift;
  encrypt-IsByte = encrypt_payload-IsByte overshift;
}
