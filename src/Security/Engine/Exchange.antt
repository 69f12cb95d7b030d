-- ===== src/Security/Engine/Exchange.antt =====
-- `generateKeyPair` and `deriveSharedSecret`.
use remote_access_platform.Prelude.{
  ℕ, bit_xor, ◌≡◌, refl, sym, ap, ap₂, ◌∙◌, List, [], ◌∷◌, map, some, length, arith, length-map,
}
use remote_access_platform.Prelude.Bits.{bit_xor_comm, bit_xor_assoc, bit_xor_twice}
use remote_access_platform.Security.Chacha20.{xor_bytes}
use remote_access_platform.Security.Engine.{generate_key_pair, derive_shared_secret}

regroup : (a b k : ℕ) → bit_xor a (bit_xor b k) ≡ bit_xor b (bit_xor a k)
regroup a b k =
    sym (bit_xor_assoc a b k) ∙ ap (λ (t : ℕ). bit_xor t k) (bit_xor_comm a b) ∙ bit_xor_assoc b a k

-- Two byte strings of one length, the second masked.
xor_masked_comm :
    (xs ys : List ℕ)
    → length xs ≡ length ys
    → xor_bytes xs (map (λ b. bit_xor b 0x5A) ys) ≡ xor_bytes ys (map (λ b. bit_xor b 0x5A) xs)
unfolding xor_bytes
xor_masked_comm [] [] h = refl
xor_masked_comm [] (y ∷ ys) h = absurd (omega arith)
xor_masked_comm (x ∷ xs) [] h = absurd (omega arith)
xor_masked_comm (x ∷ xs) (y ∷ ys) h =
    ap₂ ◌∷◌ (regroup x y 0x5A) (xor_masked_comm xs ys (omega arith))

-- The secret that both sides derive.
pub derive_lem :
    (ours theirs : List ℕ)
    → length ours ≡ 32
    → length theirs ≡ 32
    → derive_shared_secret
        (generate_key_pair ours).private_key
        (generate_key_pair theirs).public_key
      ≡ some (xor_bytes ours (map (λ b. bit_xor b 0x5A) theirs))
unfolding derive_shared_secret generate_key_pair
derive_lem ours theirs h k = rw (length-map theirs (λ b. bit_xor b 0x5A)) (ground arith)

-- From key pairs made of 32 random bytes each, both sides of an exchange derive the same secret.
derive_shared_secret_comm :
    (ours theirs : List ℕ)
    → length ours ≡ 32
    → length theirs ≡ 32
    → derive_shared_secret
        (generate_key_pair ours).private_key
        (generate_key_pair theirs).public_key
      ≡ derive_shared_secret
          (generate_key_pair theirs).private_key
          (generate_key_pair ours).public_key
derive_shared_secret_comm ours theirs h k =
    derive_lem ours theirs h k
    ∙ ap some (xor_masked_comm ours theirs (h ∙ sym k))
    ∙ sym (derive_lem theirs ours k h)

-- What an eavesdropper computes from the two public keys.
pub eavesdrop : List ℕ → List ℕ → List ℕ
eavesdrop public_a public_b = map (λ b. bit_xor b 0x5A) (xor_bytes public_a public_b)

unmask : (a b k : ℕ) → bit_xor (bit_xor (bit_xor a k) (bit_xor b k)) k ≡ bit_xor a (bit_xor b k)
unmask a b k =
    bit_xor_assoc (bit_xor a k) (bit_xor b k) k
    ∙ ap (bit_xor (bit_xor a k)) (bit_xor_twice b k)
    ∙ bit_xor_assoc a k b
    ∙ ap (bit_xor a) (bit_xor_comm k b)

unmask_bytes :
    (xs ys : List ℕ)
    → length xs ≡ length ys
    → eavesdrop (map (λ b. bit_xor b 0x5A) xs) (map (λ b. bit_xor b 0x5A) ys)
      ≡ xor_bytes xs (map (λ b. bit_xor b 0x5A) ys)
unfolding eavesdrop xor_bytes
unmask_bytes [] [] h = refl
unmask_bytes [] (y ∷ ys) h = absurd (omega arith)
unmask_bytes (x ∷ xs) [] h = absurd (omega arith)
unmask_bytes (x ∷ xs) (y ∷ ys) h = ap₂ ◌∷◌ (unmask x y 0x5A) (unmask_bytes xs ys (omega arith))

-- The secret of two sides with key pairs made of 32 random bytes each is a function of their two
-- public keys.
pub eavesdrop-derive_shared_secret :
    (ours theirs : List ℕ)
    → length ours ≡ 32
    → length theirs ≡ 32
    → derive_shared_secret
        (generate_key_pair ours).private_key
        (generate_key_pair theirs).public_key
      ≡ some (eavesdrop (generate_key_pair ours).public_key (generate_key_pair theirs).public_key)
eavesdrop-derive_shared_secret ours theirs h k =
    derive_lem ours theirs h k
    ∙ ap some (sym (unfold generate_key_pair in unmask_bytes ours theirs (h ∙ sym k)))
