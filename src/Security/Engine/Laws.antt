-- ===== src/Security/Engine/Laws.antt =====
-- Encryption and decryption against one another.
use remote_access_platform.Prelude.{
  ℕ, ◌+◌, ◌-◌, ◌≤◌, bit_or, bit_xor, ◌≡◌, ◌↔◌, refl, sym, ap, ap₂, ◌∙◌, List, [], ◌∷◌, ◌++◌, some,
  length, take, drop, arith, length-append, length-drop, take-append, drop-append, take-append-drop,
  All, All-append,
}
use remote_access_platform.Prelude.Bits.{bit_xor_eq_zero, bit_xor_self, bit_or_eq_zero}
use remote_access_platform.Memory.{IsByte}
use remote_access_platform.Security.Chacha20.{chacha20_xor}
use remote_access_platform.Security.Chacha20.Stream.{
  length-chacha20_xor, chacha20_xor-chacha20_xor, chacha20_xor-IsByte,
}
use remote_access_platform.Security.Poly1305.{
  compute_poly1305_mac, length-compute_poly1305_mac, compute_poly1305_mac-IsByte,
}
use remote_access_platform.Security.Engine.{tag_diff, encrypt_payload, decrypt_payload}

tag_diff_self : (xs : List ℕ) → tag_diff 0 xs xs ≡ 0
unfolding tag_diff
tag_diff_self [] = refl
tag_diff_self (x ∷ xs) = rw (bit_xor_self x) (tag_diff_self xs)

tag_diff-zero :
    (d : ℕ) (xs ys : List ℕ) → length xs ≡ length ys → tag_diff d xs ys ≡ 0 → (d ≡ 0) × (xs ≡ ys)
unfolding tag_diff
tag_diff-zero d [] [] l h = (h, refl)
tag_diff-zero d [] (y ∷ ys) l h = absurd (omega arith)
tag_diff-zero d (x ∷ xs) [] l h = absurd (omega arith)
tag_diff-zero d (x ∷ xs) (y ∷ ys) l h =
    let (z, e) = tag_diff-zero (bit_or d (bit_xor x y)) xs ys (omega arith) h in
    let (d0, same) = bit_or_eq_zero d (bit_xor x y) z in (d0, ap₂ ◌∷◌ (bit_xor_eq_zero x y same) e)

module _ (overshift : ℕ) where
  -- The front of a ciphertext, without its tag.
  abbrev pub body_of : List ℕ → List ℕ
  body_of ciphertext = take (length ciphertext - 16) ciphertext

  abbrev pub tag_of : List ℕ → List ℕ
  tag_of ciphertext = drop (length ciphertext - 16) ciphertext

  -- A ciphertext that decrypts carries the tag of its own body under the key.
  abbrev pub IsAuthentic : List ℕ → List ℕ → Type 0
  IsAuthentic ciphertext key =
      (16 ≤ length ciphertext)
      × (tag_of ciphertext ≡ compute_poly1305_mac overshift (body_of ciphertext) key)

  length-tag_of : (c : List ℕ) → 16 ≤ length c → length (tag_of c) ≡ 16
  length-tag_of c h = omega (arith, length-drop (length c - 16) c)

  -- `decrypt_payload` returns a plaintext exactly if the key has 32 bytes, the nonce 12, the
  -- ciphertext ends with the tag of the bytes before it, and the plaintext is those bytes mixed
  -- with the stream.
  pub decrypt_payload_iff :
      (c key nonce p : List ℕ)
      → (decrypt_payload overshift c key nonce ≡ some p) ↔ (
          (length key ≡ 32)
          × (length nonce ≡ 12)
          × IsAuthentic c key
          × (p ≡ chacha20_xor (body_of c) key nonce 1))
  unfolding decrypt_payload
  decrypt_payload_iff c key nonce p =
      ((λ h. ground (arith, same)), (λ (hk, hn, (hl, ht), e). ground (arith, accept ht)))
    where
      mac : List ℕ
      mac = compute_poly1305_mac overshift (body_of c) key

      same : 16 ≤ length c → tag_diff 0 (tag_of c) mac ≡ 0 → tag_of c ≡ mac
      same l h =
          (tag_diff-zero 0 (tag_of c) mac
            (length-tag_of c l ∙ sym (length-compute_poly1305_mac overshift (body_of c) key)) h).1

      accept : tag_of c ≡ mac → tag_diff 0 (tag_of c) mac ≡ 0
      accept e = rw e (tag_diff_self mac)

  length-encrypt_body :
      (p key nonce : List ℕ)
      → length (
          chacha20_xor p key nonce 1
          ++ compute_poly1305_mac overshift (chacha20_xor p key nonce 1) key)
        ≡ length p + 16
  length-encrypt_body p key nonce = omega (
    arith,
    length-append (chacha20_xor p key nonce 1)
        (compute_poly1305_mac overshift (chacha20_xor p key nonce 1) key),
    length-chacha20_xor p key nonce 1,
    length-compute_poly1305_mac overshift (chacha20_xor p key nonce 1) key,
  )

  -- What `encrypt_payload` returns, exactly.
  pub encrypt_payload_iff :
      (p key nonce c : List ℕ)
      → (encrypt_payload overshift p key nonce ≡ some c) ↔ (
          (length key ≡ 32)
          × (length nonce ≡ 12)
          × (c
              ≡ chacha20_xor p key nonce 1
                ++ compute_poly1305_mac overshift (chacha20_xor p key nonce 1) key))
  unfolding encrypt_payload
  encrypt_payload_iff p key nonce c = (λ h. ground arith, λ (hk, hn, e). ground arith)

  -- A payload grows by its tag.
  pub length-encrypt_payload :
      (p key nonce c : List ℕ)
      → encrypt_payload overshift p key nonce ≡ some c
      → length c ≡ length p + 16
  length-encrypt_payload p key nonce c h =
      let (hk, hn, e) = (encrypt_payload_iff p key nonce c).0 h in
      ap length e ∙ length-encrypt_body p key nonce

  parts_of_encrypted :
      (p key nonce c : List ℕ)
      → c
        ≡ chacha20_xor p key nonce 1
          ++ compute_poly1305_mac overshift (chacha20_xor p key nonce 1) key
      → (body_of c ≡ chacha20_xor p key nonce 1)
        × (tag_of c ≡ compute_poly1305_mac overshift (chacha20_xor p key nonce 1) key)
  parts_of_encrypted p key nonce c e =
      let body = chacha20_xor p key nonce 1 in
      let mac = compute_poly1305_mac overshift body key in
      let cut : length c - 16 ≡ length body =
        omega (
          arith,
          ap length e,
          length-encrypt_body p key nonce,
          length-chacha20_xor p key nonce 1,
        ) in
      rw (cut, e) (take-append (length body) body mac refl, drop-append (length body) body mac refl)

  -- What `encrypt_payload` returned for a key and a nonce, `decrypt_payload` takes back to the
  -- plaintext.
  pub decrypt_payload-encrypt_payload :
      (p key nonce c : List ℕ)
      → encrypt_payload overshift p key nonce ≡ some c
      → decrypt_payload overshift c key nonce ≡ some p
  decrypt_payload-encrypt_payload p key nonce c h =
      let (hk, hn, e) = (encrypt_payload_iff p key nonce c).0 h in
      let (b, t) = parts_of_encrypted p key nonce c e in
      (decrypt_payload_iff c key nonce p).1 (
        hk,
        hn,
        (
          omega (arith, ap length e, length-encrypt_body p key nonce),
          t ∙ ap (λ m. compute_poly1305_mac overshift m key) (sym b),
        ),
        sym (chacha20_xor-chacha20_xor p key nonce 1)
            ∙ ap (λ m. chacha20_xor m key nonce 1) (sym b),
      )

  -- A ciphertext that decrypts is the one that `encrypt_payload` makes of the plaintext under that
  -- key and nonce.
  pub encrypt_payload-decrypt_payload :
      (c key nonce p : List ℕ)
      → decrypt_payload overshift c key nonce ≡ some p
      → encrypt_payload overshift p key nonce ≡ some c
  encrypt_payload-decrypt_payload c key nonce p h =
      let (hk, hn, (l, t), e) = (decrypt_payload_iff c key nonce p).0 h in
      let back : chacha20_xor p key nonce 1 ≡ body_of c =
        ap (λ m. chacha20_xor m key nonce 1) e
        ∙ chacha20_xor-chacha20_xor (body_of c) key nonce 1 in
      (encrypt_payload_iff p key nonce c).1
        (hk, hn, rw (back, ← t) (sym (take-append-drop (length c - 16) c)))

  -- A ciphertext that decrypts under one nonce decrypts under any other of 12 bytes, to the
  -- plaintext mixed with both streams: the tag does not cover the nonce.
  pub decrypt_payload_other_nonce :
      (c key nonce other p : List ℕ)
      → decrypt_payload overshift c key nonce ≡ some p
      → length other ≡ 12
      → decrypt_payload overshift c key other
        ≡ some (chacha20_xor (chacha20_xor p key nonce 1) key other 1)
  decrypt_payload_other_nonce c key nonce other p h ho =
      let (hk, hn, a, e) = (decrypt_payload_iff c key nonce p).0 h in
      let back : chacha20_xor p key nonce 1 ≡ body_of c =
        ap (λ m. chacha20_xor m key nonce 1) e
        ∙ chacha20_xor-chacha20_xor (body_of c) key nonce 1 in
      (decrypt_payload_iff c key other _).1 (hk, ho, a, ap (λ m. chacha20_xor m key other 1) back)

  -- A ciphertext of bytes is made from a plaintext of bytes.
  pub encrypt_payload-IsByte :
      (p key nonce c : List ℕ)
      → All IsByte p
      → encrypt_payload overshift p key nonce ≡ some c
      → All IsByte c
  encrypt_payload-IsByte p key nonce c b h =
      let (hk, hn, e) = (encrypt_payload_iff p key nonce c).0 h in
      rw e (
        All-append IsByte (chacha20_xor p key nonce 1) _ (chacha20_xor-IsByte p key nonce 1 b)
          (compute_poly1305_mac-IsByte overshift (chacha20_xor p key nonce 1) key))
