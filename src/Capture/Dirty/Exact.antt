-- ===== src/Capture/Dirty/Exact.antt =====
-- Pictures of one size compared as wholes.
use remote_access_platform.Prelude.{
  ℕ, zero, suc, ◌+◌, ◌*◌, ◌<◌, ◌≤◌, ◌≡◌, ◌↔◌, inl, inr, refl, sym, ap, ap₂, ◌∙◌, List, [], ◌∷◌,
  ◌++◌, false, some, take, drop, length, same_iff, take-all, drop-drop, arith, Bool-cases,
}
use mathlib.Core.Path.{subst}
use remote_access_platform.Capture.Dirty.{FitsInt, differs, detect_dirty_region}
use remote_access_platform.Capture.Dirty.Cover.{
  changed, detect_dirty_region_covers, detect_dirty_region_self,
}

suc_add : (k m : ℕ) → suc k + m ≡ suc (k + m)
suc_add k m = omega arith

take_add : (k m : ℕ) (xs : List ℕ) → take (k + m) xs ≡ take k xs ++ take m (drop k xs)
take_add zero m xs = ap (λ (n : ℕ). take n xs) (omega arith)
take_add (suc k) m [] = rw (suc_add k m) (take_nil m)
  where
    take_nil : (n : ℕ) → ◌≡◌ {A = List ℕ} [] (take n [])
    take_nil zero = refl
    take_nil (suc n) = refl
take_add (suc k) m (x ∷ xs) = rw (suc_add k m) (ap (◌∷◌ x) (take_add k m xs))

-- Two lists that agree on every block of `k` elements agree on all blocks.
take_blocks :
    (n k : ℕ) (xs ys : List ℕ)
    → ((i : ℕ) → i < n → take k (drop (i * k) xs) ≡ take k (drop (i * k) ys))
    → take (n * k) xs ≡ take (n * k) ys
take_blocks zero k xs ys h =
    let none_left : 0 * k ≡ 0 = omega arith in
    ap (λ (m : ℕ). take m xs) none_left ∙ sym (ap (λ (m : ℕ). take m ys) none_left)
take_blocks (suc n) k xs ys h =
    let size : suc n * k ≡ k + n * k = grind arith in
    ap (λ (m : ℕ). take m xs) size
    ∙ take_add k (n * k) xs
    ∙ ap₂ ◌++◌ (first (h 0 (omega arith))) (take_blocks n k (drop k xs) (drop k ys) rest)
    ∙ sym (take_add k (n * k) ys)
    ∙ sym (ap (λ (m : ℕ). take m ys) size)
  where
    first : take k (drop (0 * k) xs) ≡ take k (drop (0 * k) ys) → take k xs ≡ take k ys
    first e =
        let none_left : 0 * k ≡ 0 = omega arith in
        subst (λ (m : ℕ). take k (drop m xs) ≡ take k (drop m ys)) none_left e

    behind : (i : ℕ) (zs : List ℕ) → drop (i * k) (drop k zs) ≡ drop (suc i * k) zs
    behind i zs = drop-drop (i * k) k zs ∙ ap (λ (m : ℕ). drop m zs) (grind arith)

    rest : (i : ℕ) → i < n → take k (drop (i * k) (drop k xs)) ≡ take k (drop (i * k) (drop k ys))
    rest i l = ap (take k) (behind i xs) ∙ h (suc i) (omega arith) ∙ sym (ap (take k) (behind i ys))

differs_iff :
    (offset size : ℕ) (p c : List ℕ)
    → differs offset size p c ≡ false
    → take size (drop offset p) ≡ take size (drop offset c)
unfolding differs
differs_iff offset size p c h =
    ground (arith, same_iff (take size (drop offset p)) (take size (drop offset c)))

module _ (w h k : ℕ) (prev curr : List ℕ) where
  -- Without a dirty region no pixel changed.
  changed_none :
      (i j : ℕ)
      → FitsInt w h k
      → h * (w * k) ≤ length prev
      → h * (w * k) ≤ length curr
      → i < w
      → j < h
      → (detect_dirty_region (some prev) (some curr) w h k).is_dirty ≡ false
      → changed w k prev curr i j ≡ false
  changed_none i j fits lp lc l m clean_region = elim (Bool-cases (changed w k prev curr i j)) [
    | inl e ↦ cc ((detect_dirty_region_covers w k prev curr h i j fits lp lc l m e).0)
    | inr e ↦ e
  ]

  -- Two whole pictures of the same size, whose offsets an `int` holds, have no dirty region
  -- exactly if they are the same.
  pub detect_dirty_region_iff :
      FitsInt w h k
      → length prev ≡ h * (w * k)
      → length curr ≡ h * (w * k)
      → ((detect_dirty_region (some prev) (some curr) w h k).is_dirty ≡ false) ↔ (prev ≡ curr)
  detect_dirty_region_iff fits lp lc = (
    λ clean_region.
        sym (take-all (h * (w * k)) prev (omega (arith, lp)))
        ∙ take_blocks h (w * k) prev curr (λ j m.
          take_blocks w k (drop (j * (w * k)) prev) (drop (j * (w * k)) curr) (λ i l.
            differs_iff (i * k) k (drop (j * (w * k)) prev) (drop (j * (w * k)) curr)
              (changed_none i j fits (omega (arith, lp)) (omega (arith, lc)) l m clean_region)))
        ∙ take-all (h * (w * k)) curr (omega (arith, lc)),
    λ e.
        subst (λ c. (detect_dirty_region (some prev) (some c) w h k).is_dirty ≡ false) e
          (detect_dirty_region_self prev w h k),
  )
