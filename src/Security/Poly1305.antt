-- ===== src/Security/Poly1305.antt =====
-- `computePoly1305Mac` of libs/security/src/CryptoEngine.cpp. A full block shifts `1ULL` by 64, which
-- C++ leaves undefined: what the build gives for it is the parameter `overshift` (1 where the machine
-- takes the count modulo 64).
use remote_access_platform.Prelude.{
  ℕ, zero, suc, ◌+◌, ◌-◌, ◌*◌, ◌%◌, ◌^◌, min, bit_and, bit_or, ◌≡◌, List, [], ◌∷◌, ◌++◌, length,
  take, drop, ltb, if◌then◌else◌, arith, length-append, All, All-append, refl, length-drop, ◌≤◌,
}
use remote_access_platform.Memory.{store, load, length-store, store-IsByte, IsByte}

abbrev pub u64 : ℕ → ℕ
u64 x = x % 2 ^ 64

-- `m |= static_cast<uint64_t>(msg[...]) << (i * 8)`, for the bytes from `i` on.
unfoldable pub gather : ℕ → ℕ → List ℕ → ℕ
gather i m [] = m
gather i m (b ∷ bs) = gather (suc i) (bit_or m (u64 (b * 2 ^ (i * 8)))) bs

-- `blockLen * 8 > 64 ? (blockLen - 8) * 8 : 0`
unfoldable pub shift_count : ℕ → ℕ
shift_count block_len = if ltb 64 (block_len * 8) then (block_len - 8) * 8 else 0

module _ (overshift : ℕ) where
  -- `1ULL << n`
  unfoldable pub shift_one : ℕ → ℕ
  shift_one n = if ltb n 64 then 2 ^ n else overshift

  -- The loop over the message that is left. The first argument bounds its rounds.
  unfoldable pub mac_loop : ℕ → List ℕ → ℕ → ℕ → ℕ → ℕ → ℕ × ℕ
  mac_loop fuel [] r0 r1 h0 h1 = (h0, h1)
  mac_loop zero (x ∷ xs) r0 r1 h0 h1 = (h0, h1)
  mac_loop (suc fuel) (x ∷ xs) r0 r1 h0 h1 =
      let msg = x ∷ xs in
      let block_len = min (length msg) 16 in
      let block = take block_len msg in
      let m0 = gather 0 0 (take (min block_len 8) block) in
      let m1 = gather 0 0 (drop 8 block) in
      let g0 = u64 (h0 + m0) in
      let g1 = u64 (h1 + u64 (m1 + shift_one (shift_count block_len))) in
      mac_loop fuel (drop block_len msg) r0 r1 (u64 (g0 * r0 + g1 * r1)) (u64 (g0 * r1 + g1 * r0))

  -- Every round takes a byte at least, so that as many rounds as bytes are enough.
  unfoldable pub compute_poly1305_mac : List ℕ → List ℕ → List ℕ
  compute_poly1305_mac msg key =
      let r0 = bit_and (load 4 key) 0x0ffffffc in
      let r1 = bit_and (load 4 (drop 4 key)) 0x0ffffffc in
      let pad0 = load 4 (drop 8 key) in
      let pad1 = load 4 (drop 12 key) in
      let (h0, h1) = mac_loop (length msg) msg r0 r1 0 0 in
      store 8 (u64 (h0 + pad0)) ++ store 8 (u64 (h1 + pad1))

  pub length-compute_poly1305_mac : (msg key : List ℕ) → length (compute_poly1305_mac msg key) ≡ 16
  unfolding compute_poly1305_mac
  length-compute_poly1305_mac msg key = simp (length-append, length-store)

  pub compute_poly1305_mac-IsByte : (msg key : List ℕ) → All IsByte (compute_poly1305_mac msg key)
  unfolding compute_poly1305_mac
  compute_poly1305_mac-IsByte msg key =
      All-append IsByte (store 8 _) (store 8 _) (store-IsByte 8 _) (store-IsByte 8 _)

  -- Any two bounds on the rounds that the message does not exceed give the same tag.
  pub mac_loop_fuel :
      (n m : ℕ) (msg : List ℕ) (r0 r1 h0 h1 : ℕ)
      → length msg ≤ n
      → length msg ≤ m
      → mac_loop n msg r0 r1 h0 h1 ≡ mac_loop m msg r0 r1 h0 h1
  unfolding mac_loop
  mac_loop_fuel n m [] r0 r1 h0 h1 p q = refl
  mac_loop_fuel zero m (x ∷ xs) r0 r1 h0 h1 p q = absurd (omega arith)
  mac_loop_fuel (suc n) zero (x ∷ xs) r0 r1 h0 h1 p q = absurd (omega arith)
  mac_loop_fuel (suc n) (suc m) (x ∷ xs) r0 r1 h0 h1 p q =
      mac_loop_fuel n m (drop (min (suc (length xs)) 16) (x ∷ xs)) r0 r1 _ _
        (omega (arith, length-drop (min (suc (length xs)) 16) (x ∷ xs)))
        (omega (arith, length-drop (min (suc (length xs)) 16) (x ∷ xs)))
