-- ===== src/Capture/Dirty/Columns.antt =====
-- The loop over the columns of one row.
use remote_access_platform.Prelude.{
  ℕ, zero, suc, ◌+◌, ◌*◌, min, max, ◌≤◌, ◌<◌, ◌≡◌, inl, inr, refl, sym, ap, ◌∙◌, List, [], ◌∷◌,
  true, take, drop, same, same_iff, arith, Bool-cases,
}
use native.Mathlib.Nat.{suc-mul}
use native.Mathlib.Decide.{ℕ_discrete}
use remote_access_platform.Capture.Dirty.{Extent, differs, scan_row}

-- The second extent contains the first.
pub record Grows (e f : Extent) : Type 0 where
  pub left : f.min_x ≤ e.min_x
  pub top : f.min_y ≤ e.min_y
  pub right : e.max_x ≤ f.max_x
  pub bottom : e.max_y ≤ f.max_y

pub Grows-trans : {e f g : Extent} → Grows e f → Grows f g → Grows e g
Grows-trans p q = record {
  left = omega (arith, p.left, q.left);
  top = omega (arith, p.top, q.top);
  right = omega (arith, p.right, q.right);
  bottom = omega (arith, p.bottom, q.bottom);
}

pub Grows-refl : (e : Extent) → Grows e e
Grows-refl e = record {
  left = omega arith;
  top = omega arith;
  right = omega arith;
  bottom = omega arith;
}

pub scan_row-Grows : (n x k : ℕ) (p c : List ℕ) (e : Extent) → Grows e (scan_row n x k p c e)
unfolding scan_row
scan_row-Grows zero x k p c e = Grows-refl e
scan_row-Grows (suc n) x k p c e = elim (Bool-cases (differs (x * k) k p c)) [
  | inl d ↦ rw d (
      Grows-trans
        (record {
          left = omega arith;
          top = omega arith;
          right = omega arith;
          bottom = omega arith;
        })
        (scan_row-Grows n (x + 1) k p c
          (record e { min_x = min e.min_x x; max_x = max e.max_x (x + 1) })))
  | inr d ↦ rw d (scan_row-Grows n (x + 1) k p c e)
]

-- A column of the row that changed is inside.
pub scan_row_covers :
    (n x k : ℕ) (p c : List ℕ) (e : Extent) (i : ℕ)
    → x ≤ i
    → i < x + n
    → differs (i * k) k p c ≡ true
    → ((scan_row n x k p c e).min_x ≤ i) × (i < (scan_row n x k p c e).max_x)
unfolding scan_row
scan_row_covers zero x k p c e i a b d = absurd (omega arith)
scan_row_covers (suc n) x k p c e i a b d = elim (ℕ_discrete i x) [
  | yes q ↦
      (let here : differs (x * k) k p c ≡ true = rw (← q) d in
        let e' = record e { min_x = min e.min_x x; max_x = max e.max_x (x + 1) } in
        let grown = scan_row-Grows n (x + 1) k p c e' in
        rw (here, scan_row) (omega (arith, grown.left, grown.right)))
  | no q ↦ scan_row_covers n (x + 1) k p c _ i (omega arith) (omega arith) d
]

-- Nothing but columns of the row is added.
pub scan_row_inside :
    (n x k w : ℕ) (p c : List ℕ) (e : Extent)
    → x + n ≤ w
    → e.max_x ≤ w
    → (scan_row n x k p c e).max_x ≤ w
unfolding scan_row
scan_row_inside zero x k w p c e a b = b
scan_row_inside (suc n) x k w p c e a b =
    scan_row_inside n (x + 1) k w p c _ (omega arith) (ground arith)

pub scan_row_rows :
    (n x k : ℕ) (p c : List ℕ) (e : Extent)
    → ((scan_row n x k p c e).min_y ≡ e.min_y) × ((scan_row n x k p c e).max_y ≡ e.max_y)
unfolding scan_row
scan_row_rows zero x k p c e = (refl, refl)
scan_row_rows (suc n) x k p c e = elim (Bool-cases (differs (x * k) k p c)) [
  | inl d ↦
      rw (d, scan_row)
        (scan_row_rows n (x + 1) k p c
          (record e { min_x = min e.min_x x; max_x = max e.max_x (x + 1) }))
  | inr d ↦ rw (d, scan_row) (scan_row_rows n (x + 1) k p c e)
]

-- A column that changed makes its row differ.
pub differs_part :
    (offset size whole : ℕ) (p c : List ℕ)
    → offset + size ≤ whole
    → differs offset size p c ≡ true
    → differs 0 whole p c ≡ true
unfolding differs
differs_part offset size whole p c h d = elim (Bool-cases (same (take whole p) (take whole c))) [
  | inl e ↦
      (let equal = (same_iff (take whole p) (take whole c)).0 e in
        let part : take size (drop offset p) ≡ take size (drop offset c) =
          sym (take_part offset size whole p h)
          ∙ ap (λ l. take size (drop offset l)) equal
          ∙ take_part offset size whole c h in
        let alike = (same_iff (take size (drop offset p)) (take size (drop offset c))).1 part in
        absurd (ground (arith, alike, d)))
  | inr e ↦ rw e refl
]
  where
    take_part :
        (o n w : ℕ) (l : List ℕ) → o + n ≤ w → take n (drop o (take w l)) ≡ take n (drop o l)
    take_part zero zero w l h = refl
    take_part zero (suc n) zero l h = absurd (omega arith)
    take_part zero (suc n) (suc w) [] h = refl
    take_part zero (suc n) (suc w) (b ∷ l) h = ap (◌∷◌ b) (take_part zero n w l (omega arith))
    take_part (suc o) n zero l h = absurd (omega arith)
    take_part (suc o) n (suc w) [] h = refl
    take_part (suc o) n (suc w) (b ∷ l) h = take_part o n w l (omega arith)

-- A pixel ends inside its row.
pub pixel_inside : (i w k : ℕ) → i < w → i * k + k ≤ w * k
pixel_inside i zero k h = absurd (omega arith)
pixel_inside i (suc w) k h = elim (ℕ_discrete i w) [
  | yes e ↦ rw e (omega (arith, suc-mul w k))
  | no ne ↦ omega (arith, suc-mul w k, pixel_inside i w k (omega arith))
]
