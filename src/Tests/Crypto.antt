-- ===== src/Tests/Crypto.antt =====
-- The engine on concrete keys. The machine gives 1 for a shift by 64 here.
use remote_access_platform.Prelude.{
  ℕ, ◌*◌, ◌≡◌, ◌↔◌, refl, List, [], ◌∷◌, ◌++◌, none, some, length, take, replicate,
}
use remote_access_platform.Memory.{store, load}
use remote_access_platform.Security.Chacha20.{
  rotate_left, quarter_round, quarter_round_at, double_round, rounds, add_words, chacha20_block,
  words, block_bytes, xor_bytes, chacha20_loop, chacha20_xor,
}
use remote_access_platform.Security.Chacha20.Stream.{keystream, chacha20_xor-keystream}
use remote_access_platform.Security.Poly1305.{
  gather, shift_count, shift_one, mac_loop, compute_poly1305_mac,
}
use remote_access_platform.Security.Engine.{
  encrypt_payload, decrypt_payload, tag_diff, derive_shared_secret, generate_key_pair,
}
use remote_access_platform.Security.Engine.Laws.{
  IsAuthentic, body_of, decrypt_payload_iff, decrypt_payload-encrypt_payload,
  encrypt_payload-decrypt_payload, decrypt_payload_other_nonce,
}
use remote_access_platform.Security.Engine.Exchange.{eavesdrop, eavesdrop-derive_shared_secret}

abbrev pub key : List ℕ
key =
    1 ∷ 2 ∷ 3 ∷ 4 ∷ 5 ∷ 6 ∷ 7 ∷ 8 ∷ 9 ∷ 10 ∷ 11 ∷ 12 ∷ 13 ∷ 14 ∷ 15 ∷ 16 ∷ 17 ∷ 18 ∷ 19 ∷ 20 ∷ 21
    ∷ 22 ∷ 23 ∷ 24 ∷ 25 ∷ 26 ∷ 27 ∷ 28 ∷ 29 ∷ 30 ∷ 31 ∷ 32 ∷ []

abbrev nonce : List ℕ
nonce = replicate 12 0

abbrev hi : List ℕ
hi = b'h' ∷ b'i' ∷ []

-- "hi" under that key: two bytes of ciphertext and the tag.
abbrev sealed_hi : List ℕ
sealed_hi = 128 ∷ 71 ∷ 13 ∷ 16 ∷ 33 ∷ 235 ∷ 30 ∷ 1 ∷ 0 ∷ 0 ∷ 13 ∷ 46 ∷ 64 ∷ 10 ∷ 62 ∷ 2 ∷ 0 ∷ 0 ∷ []

encrypt_hi : encrypt_payload 1 hi key nonce ≡ some sealed_hi
unfolding encrypt_payload chacha20_xor chacha20_loop words load store chacha20_block rounds
    double_round quarter_round_at quarter_round rotate_left add_words block_bytes xor_bytes
    compute_poly1305_mac mac_loop gather shift_count shift_one
encrypt_hi = refl

decrypt_hi : decrypt_payload 1 sealed_hi key nonce ≡ some hi
decrypt_hi = decrypt_payload-encrypt_payload 1 hi key nonce sealed_hi encrypt_hi

-- A tag with one bit changed is refused.
decrypt_tampered : decrypt_payload 1 (take 17 sealed_hi ++ (1 ∷ [])) key nonce ≡ none
unfolding decrypt_payload tag_diff load store compute_poly1305_mac mac_loop gather shift_count
    shift_one
decrypt_tampered = refl

decrypt_payload-encrypt_payload_example : decrypt_payload 1 sealed_hi key nonce ≡ some hi
decrypt_payload-encrypt_payload_example =
    decrypt_payload-encrypt_payload 1 hi key nonce sealed_hi encrypt_hi

encrypt_payload-decrypt_payload_example : encrypt_payload 1 hi key nonce ≡ some sealed_hi
encrypt_payload-decrypt_payload_example =
    encrypt_payload-decrypt_payload 1 sealed_hi key nonce hi decrypt_hi

decrypt_payload_iff_example : (decrypt_payload 1 sealed_hi key nonce ≡ some hi) ↔ (
    (length key ≡ 32)
    × (length nonce ≡ 12)
    × IsAuthentic 1 sealed_hi key
    × (hi ≡ chacha20_xor (body_of 1 sealed_hi) key nonce 1))
decrypt_payload_iff_example = decrypt_payload_iff 1 sealed_hi key nonce hi

decrypt_payload_other_nonce_example :
    decrypt_payload 1 sealed_hi key (replicate 12 7)
    ≡ some (chacha20_xor (chacha20_xor hi key nonce 1) key (replicate 12 7) 1)
decrypt_payload_other_nonce_example =
    decrypt_payload_other_nonce 1 sealed_hi key nonce (replicate 12 7) hi decrypt_hi refl

chacha20_xor-keystream_example :
    (chacha20_xor hi key nonce 1 ≡ xor_bytes hi (keystream 2 (words 8 key) (words 3 nonce) 1))
    × (length (keystream 2 (words 8 key) (words 3 nonce) 1) ≡ 64 * 2)
chacha20_xor-keystream_example = chacha20_xor-keystream hi key nonce 1

eavesdrop-derive_shared_secret_example :
    derive_shared_secret
      (generate_key_pair key).private_key
      (generate_key_pair (replicate 32 9)).public_key
    ≡ some (
        eavesdrop
          (generate_key_pair key).public_key
          (generate_key_pair (replicate 32 9)).public_key)
eavesdrop-derive_shared_secret_example =
    eavesdrop-derive_shared_secret key (replicate 32 9) refl refl
