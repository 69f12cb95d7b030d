-- ===== src/FileTransfer/Sha256/Padding.antt =====
-- The padding that `computeSha256` makes.
use remote_access_platform.Prelude.{
  ℕ, zero, suc, ◌+◌, ◌-◌, ◌*◌, ◌%◌, ◌^◌, ◌≤◌, ◌≡◌, inl, inr, refl, sym, ap, ◌∙◌, List, [], ◌∷◌,
  ◌++◌, length, length-append, length-replicate, arith, Bool-cases, ◌==◌, replicate, ==_iff,
}
use mathlib.Core.List.{append_assoc, append-nil}
use remote_access_platform.FileTransfer.Sha256.{pad_loop, length_bytes, padded_message}

-- How many zeros bring a length to 56 modulo 64.
abbrev pub zeros_needed : ℕ → ℕ
zeros_needed n = (120 - n % 64) % 64

pad_loop-zeros :
    (fuel : ℕ) (p : List ℕ)
    → zeros_needed (length p) ≤ fuel
    → pad_loop fuel p ≡ p ++ replicate (zeros_needed (length p)) 0
unfolding pad_loop
pad_loop-zeros zero p h =
    let none_needed : zeros_needed (length p) ≡ 0 = omega arith in
    rw none_needed (sym (append-nil p))
pad_loop-zeros (suc fuel) p h = elim (Bool-cases (length p % 64 == 56)) [
  | inl full ↦
      let none_needed : zeros_needed (length p) ≡ 0 =
        omega (arith, (==_iff (length p % 64) 56).0 full) in
      rw (full, none_needed) (sym (append-nil p))
  | inr more ↦
      let longer = p ++ (0 ∷ []) in
      let l = length-append p (0 ∷ []) in
      let one_less : zeros_needed (length p) ≡ suc (zeros_needed (length longer)) =
        ground (arith, l, more) in
      rw (more, one_less)
        (pad_loop-zeros fuel longer (omega (arith, one_less)) ∙ append_assoc p (0 ∷ []) _)
]

pub length-length_bytes : (n v : ℕ) → length (length_bytes n v) ≡ n
unfolding length_bytes
length-length_bytes zero v = refl
length-length_bytes (suc n) v = ap suc (length-length_bytes n v)

pub padded_message_lem :
    (m : List ℕ)
    → (padded_message m
        ≡ m
          ++ (0x80 ∷ [])
          ++ replicate (zeros_needed (length m + 1)) 0
          ++ length_bytes 8 (length m * 8 % 2 ^ 64))
      × (length (padded_message m) % 64 ≡ 0)
unfolding padded_message
padded_message_lem m =
    let start = m ++ (0x80 ∷ []) in
    let l = length-append m (0x80 ∷ []) in
    let k = zeros_needed (length m + 1) in
    let tail = length_bytes 8 (length m * 8 % 2 ^ 64) in
    let run : pad_loop 64 start ≡ start ++ replicate k 0 =
      pad_loop-zeros 64 start (omega (arith, l))
      ∙ ap (λ (t : ℕ). start ++ replicate (zeros_needed t) 0) (l) in
    rw run (
      refl,
      omega (
        arith,
        l,
        length-append (start ++ replicate k 0) tail,
        length-append start (replicate k 0),
        length-replicate {A = ℕ} k 0,
        length-length_bytes 8 (length m * 8 % 2 ^ 64),
      ),
    )
