-- ===== src/Capture/Dirty/Cover.antt =====
-- No pixel that changed is outside the rectangle, and the rectangle is inside the frame.
use remote_access_platform.Prelude.{
  length, ℕ, zero, suc, ◌+◌, ◌*◌, min, max, ◌≤◌, ◌<◌, ◌≡◌, inl, inr, refl, sym, ap, ◌∙◌, List, Bool,
  true, false, some, take, drop, if◌then◌else◌, same_iff, arith, Bool-cases,
}
use native.Mathlib.Decide.{ℕ_discrete}
use remote_access_platform.Capture.Dirty.{
  Extent, differs, scan_row, scan_rows, rect_of, start, FitsInt, detect_dirty_region,
}
use remote_access_platform.Capture.Dirty.Columns.{
  Grows, Grows-trans, Grows-refl, scan_row-Grows, scan_row_covers, scan_row_inside, scan_row_rows,
  differs_part, pixel_inside,
}

module _ (w k : ℕ) (prev curr : List ℕ) where
  -- The pixel in column i of row j changed.
  abbrev pub changed : ℕ → ℕ → Bool
  changed i j = differs (i * k) k (drop (j * (w * k)) prev) (drop (j * (w * k)) curr)

  row_step : ℕ → Extent → Extent
  row_step y e =
      let p = drop (y * (w * k)) prev in
      let c = drop (y * (w * k)) curr in
      if differs 0 (w * k) p c
      then scan_row w 0 k p c (record e { min_y = min e.min_y y; max_y = max e.max_y (y + 1) })
      else e

  row_step-Grows : (y : ℕ) (e : Extent) → Grows e (row_step y e)
  unfolding row_step
  row_step-Grows y e =
      elim (Bool-cases (differs 0 (w * k) (drop (y * (w * k)) prev) (drop (y * (w * k)) curr))) [
        | inl d ↦
            rw (d, row_step)
              (Grows-trans
                (record {
                  left = omega arith;
                  top = omega arith;
                  right = omega arith;
                  bottom = omega arith;
                })
                (scan_row-Grows w 0 k (drop (y * (w * k)) prev) (drop (y * (w * k)) curr)
                  (record e { min_y = min e.min_y y; max_y = max e.max_y (y + 1) })))
        | inr d ↦ rw (d, row_step) (Grows-refl e)
      ]

  row_step_covers :
      (y i : ℕ) (e : Extent)
      → i < w
      → changed i y ≡ true
      → let f = row_step y e in (f.min_x ≤ i) × (i < f.max_x) × (f.min_y ≤ y) × (y < f.max_y)
  unfolding row_step
  row_step_covers y i e l d =
      let p = drop (y * (w * k)) prev in
      let c = drop (y * (w * k)) curr in
      let e' = record e { min_y = min e.min_y y; max_y = max e.max_y (y + 1) } in
      let row : differs 0 (w * k) p c ≡ true = differs_part (i * k) k (w * k) p c (inside i l) d in
      let columns = scan_row_covers w 0 k p c e' i (omega arith) (omega arith) d in
      let rows = scan_row_rows w 0 k p c e' in rw (row, row_step) (omega (arith, columns, rows))
    where
      inside : (j : ℕ) → j < w → j * k + k ≤ w * k
      inside j m = pixel_inside j w k m

  scan_rows-step :
      (n y : ℕ) (e : Extent)
      → scan_rows (suc n) y w k prev curr e ≡ scan_rows n (y + 1) w k prev curr (row_step y e)
  unfolding scan_rows row_step
  scan_rows-step n y e = refl

  scan_rows-Grows : (n y : ℕ) (e : Extent) → Grows e (scan_rows n y w k prev curr e)
  unfolding scan_rows row_step
  scan_rows-Grows zero y e = Grows-refl e
  scan_rows-Grows (suc n) y e =
      Grows-trans (row_step-Grows y e) (scan_rows-Grows n (y + 1) (row_step y e))

  scan_rows_covers :
      (n y : ℕ) (e : Extent) (i j : ℕ)
      → i < w
      → y ≤ j
      → j < y + n
      → changed i j ≡ true
      → let f = scan_rows n y w k prev curr e in
        (f.min_x ≤ i) × (i < f.max_x) × (f.min_y ≤ j) × (j < f.max_y)
  scan_rows_covers zero y e i j l a b d = absurd (omega arith)
  scan_rows_covers (suc n) y e i j l a b d = elim (ℕ_discrete j y) [
    | yes q ↦
        (let here : changed i y ≡ true = ap (changed i) (sym q) ∙ d in
          let now = row_step_covers y i e l here in
          let later = scan_rows-Grows n (y + 1) (row_step y e) in
          rw (scan_rows-step n y e)
            (omega (arith, now, later.left, later.right, later.top, later.bottom)))
    | no q ↦
        rw (scan_rows-step n y e)
          (scan_rows_covers n (y + 1) (row_step y e) i j l (omega arith) (omega arith) d)
  ]

  -- The extent keeps inside the frame.
  Inside : ℕ → Extent → Type 0
  Inside h e = (e.max_x ≤ w) × (e.max_y ≤ h)

  scan_rows-Inside :
      (n y h : ℕ) (e : Extent) → y + n ≤ h → Inside h e → Inside h (scan_rows n y w k prev curr e)
  unfolding scan_rows row_step Inside
  scan_rows-Inside zero y h e l b = b
  scan_rows-Inside (suc n) y h e l b =
      scan_rows-Inside n (y + 1) h (row_step y e) (omega arith) step
    where
      step : Inside h (row_step y e)
      step =
          elim (Bool-cases
            (differs 0 (w * k) (drop (y * (w * k)) prev) (drop (y * (w * k)) curr))) [
              | inl d ↦
                  rw (d, row_step)
                    (let p = drop (y * (w * k)) prev in
                      let c = drop (y * (w * k)) curr in
                      let e' = record e { min_y = min e.min_y y; max_y = max e.max_y (y + 1) } in
                      (
                        scan_row_inside w 0 k w p c e' (omega arith) b.0,
                        omega (arith, (scan_row_rows w 0 k p c e').1, b.1),
                      ))
              | inr d ↦ rw (d, row_step) b
            ]

  -- The rectangle of an extent around a pixel.
  rect_of_covers :
      (h i j : ℕ) (f : Extent)
      → Inside h f
      → f.min_x ≤ i
      → i < f.max_x
      → f.min_y ≤ j
      → j < f.max_y
      → let r = rect_of w h f in
        (r.is_dirty ≡ true)
        × (r.x ≤ i)
        × (i < r.x + r.width)
        × (r.y ≤ j)
        × (j < r.y + r.height)
        × (r.x + r.width ≤ w)
        × (r.y + r.height ≤ h)
  unfolding rect_of Inside
  rect_of_covers h i j f b p q m n = ground arith

  -- If a pixel inside the frame differs between two whole frames, of a size whose offsets an `int`
  -- holds, the region is dirty, contains the pixel, and lies in the frame.
  pub detect_dirty_region_covers :
      (h i j : ℕ)
      → FitsInt w h k
      → h * (w * k) ≤ length prev
      → h * (w * k) ≤ length curr
      → i < w
      → j < h
      → changed i j ≡ true
      → let r = detect_dirty_region (some prev) (some curr) w h k in
        (r.is_dirty ≡ true)
        × (r.x ≤ i)
        × (i < r.x + r.width)
        × (r.y ≤ j)
        × (j < r.y + r.height)
        × (r.x + r.width ≤ w)
        × (r.y + r.height ≤ h)
  unfolding detect_dirty_region Inside
  detect_dirty_region_covers h i j fits whole_prev whole_curr l m d =
      let (a, b, c, e) = scan_rows_covers h 0 (start w h) i j l (omega arith) (omega arith) d in
      let inside = scan_rows-Inside h 0 h (start w h) (omega arith) (omega arith, omega arith) in
      ground (arith, rect_of_covers h i j (scan_rows h 0 w k prev curr (start w h)) inside a b c e)

  differs_self : (offset size : ℕ) (p : List ℕ) → differs offset size p p ≡ false
  unfolding differs
  differs_self offset size p =
      let alike = (same_iff (take size (drop offset p)) (take size (drop offset p))).1 refl in
      ground (arith, alike)

scan_rows_self : (n y w k : ℕ) (frame : List ℕ) (e : Extent) → scan_rows n y w k frame frame e ≡ e
unfolding scan_rows
scan_rows_self zero y w k frame e = refl
scan_rows_self (suc n) y w k frame e =
    rw (differs_self w k frame frame 0 (w * k) (drop (y * (w * k)) frame), scan_rows)
      (scan_rows_self n (y + 1) w k frame e)

-- A frame compared with itself has no dirty region, whatever the sizes.
pub detect_dirty_region_self :
    (frame : List ℕ) (w h k : ℕ)
    → (detect_dirty_region (some frame) (some frame) w h k).is_dirty ≡ false
unfolding detect_dirty_region rect_of
detect_dirty_region_self frame w h k = ground (arith, scan_rows_self h 0 w k frame (start w h))
