-- ===== src/Capture/Shield/Outside.antt =====
-- The bytes of the pixels that the window under the shield does not cover.
use remote_access_platform.Prelude.{
  ℕ, zero, suc, ◌+◌, ◌*◌, ◌≤◌, ◌<◌, ◌≡◌, ◌≢◌, ◌⊎◌, inl, inr, refl, ap, ◌∙◌, List, set, get_elem?,
  get_elem?-set_ne, arith, Option, some, ◌-◌, Bool, false, ◌||◌, not, leb, ◌==◌, Bool-cases,
  if-true, if-false,
}
use native.Mathlib.Decide.{ℕ_discrete, dec_lt}
use remote_access_platform.Capture.Dirty.Columns.{pixel_inside}
use remote_access_platform.Capture.X11.Windows.{WindowBounds}
use remote_access_platform.Capture.Shield.{
  paint, paint_row, paint_rows, start_of, end_of, apply_mirror_shield,
}

-- Not in so many bytes from an offset on.
abbrev Apart : ℕ → ℕ → ℕ → Type 0
Apart i offset size = (i < offset) ⊎ (offset + size ≤ i)

Apart-ne : (i offset d : ℕ) → d < 4 → Apart i offset 4 → offset + d ≢ i
Apart-ne i offset d h (inl a) = omega arith
Apart-ne i offset d h (inr b) = omega arith

get_elem?-paint :
    (offset i : ℕ) (frame : List ℕ)
    → Apart i offset 4
    → get_elem? (paint 4 offset frame) i ≡ get_elem? frame i
unfolding paint
get_elem?-paint offset i frame h =
    let one = set frame offset 0x1E in
    let two = set one (offset + 1) 0x1E in
    let three = set two (offset + 2) 0x2E in
    let first : offset ≢ i = omega (arith, Apart-ne i offset 0 (omega arith) h) in
    get_elem?-set_ne three {i = offset + 3} {j = i} 0xFF (Apart-ne i offset 3 (omega arith) h)
    ∙ get_elem?-set_ne two {i = offset + 2} {j = i} 0x2E (Apart-ne i offset 2 (omega arith) h)
    ∙ get_elem?-set_ne one {i = offset + 1} {j = i} 0x1E (Apart-ne i offset 1 (omega arith) h)
    ∙ get_elem?-set_ne frame {i = offset} {j = i} 0x1E first

get_elem?-paint_row :
    (n x row i : ℕ) (frame : List ℕ)
    → Apart i (row + x * 4) (n * 4)
    → get_elem? (paint_row n x 4 row frame) i ≡ get_elem? frame i
unfolding paint_row
get_elem?-paint_row zero x row i frame h = refl
get_elem?-paint_row (suc n) x row i frame h =
    get_elem?-paint_row n (x + 1) row i (paint 4 (row + x * 4) frame) (later h)
    ∙ get_elem?-paint (row + x * 4) i frame (first h)
  where
    later : Apart i (row + x * 4) (suc n * 4) → Apart i (row + (x + 1) * 4) (n * 4)
    later (inl a) = inl (omega arith)
    later (inr b) = inr (omega arith)

    first : Apart i (row + x * 4) (suc n * 4) → Apart i (row + x * 4) 4
    first (inl a) = inl a
    first (inr b) = inr (omega arith)

-- Row j is not painted, or byte r of a row is outside the painted columns.
abbrev Outside : ℕ → ℕ → ℕ → ℕ → ℕ → ℕ → Type 0
Outside j r y n start_x columns = Apart j y n ⊎ Apart r (start_x * 4) (columns * 4)

module _ (start_x columns width j r : ℕ) (inside : start_x + columns ≤ width)
    (r_in : r < width * 4) where
  other_place :
      (y : ℕ) → j ≢ y → Apart (j * (width * 4) + r) (y * (width * 4) + start_x * 4) (columns * 4)
  other_place y other = elim (dec_lt j y) [
    | yes before ↦ inl (omega (arith, pixel_inside j y (width * 4) before))
    | no behind ↦ inr (omega (arith, pixel_inside y j (width * 4) (omega (arith, other))))
  ]

  row-Apart :
      (y : ℕ)
      → (j ≢ y) ⊎ Apart r (start_x * 4) (columns * 4)
      → Apart (j * (width * 4) + r) (y * (width * 4) + start_x * 4) (columns * 4)
  row-Apart y (inl other) = other_place y other
  row-Apart y (inr apart) = elim (ℕ_discrete j y) [
    | yes same ↦ rw same (shifted apart)
    | no other ↦ other_place y other
  ]
    where
      shifted :
          Apart r (start_x * 4) (columns * 4)
          → Apart (y * (width * 4) + r) (y * (width * 4) + start_x * 4) (columns * 4)
      shifted (inl a) = inl (omega arith)
      shifted (inr b) = inr (omega arith)

  get_elem?-paint_rows :
      (n y : ℕ) (frame : List ℕ)
      → Outside j r y n start_x columns
      → get_elem? (paint_rows n y start_x columns (width * 4) 4 frame) (j * (width * 4) + r)
        ≡ get_elem? frame (j * (width * 4) + r)
  unfolding paint_rows
  get_elem?-paint_rows zero y frame h = refl
  get_elem?-paint_rows (suc n) y frame h =
      get_elem?-paint_rows n (y + 1) (paint_row columns start_x 4 (y * (width * 4)) frame) (later h)
      ∙ get_elem?-paint_row columns start_x (y * (width * 4)) (j * (width * 4) + r) frame
          (row-Apart y (this h))
    where
      later : Outside j r y (suc n) start_x columns → Outside j r (y + 1) n start_x columns
      later (inl (inl a)) = inl (inl (omega arith))
      later (inl (inr b)) = inl (inr (omega arith))
      later (inr c) = inr c

      this : Outside j r y (suc n) start_x columns → (j ≢ y) ⊎ Apart r (start_x * 4) (columns * 4)
      this (inl (inl a)) = inl (omega arith)
      this (inl (inr b)) = inl (omega arith)
      this (inr c) = inr c

-- A byte of the frame in a column or a row that the window, as far as it lies in the frame, does not
-- have.
abbrev pub IsOutside : ℕ → ℕ → WindowBounds → ℕ → ℕ → Type 0
IsOutside width height bounds i j =
    (i < start_of bounds.x)
    ⊎ (end_of width bounds.x bounds.width ≤ i)
    ⊎ (j < start_of bounds.y)
    ⊎ (end_of height bounds.y bounds.height ≤ j)

painted_outside :
    (frame : List ℕ) (width i j d sx ex sy ey : ℕ)
    → i < width
    → d < 4
    → sx < ex
    → sy < ey
    → ex ≤ width
    → (i < sx) ⊎ (ex ≤ i) ⊎ (j < sy) ⊎ (ey ≤ j)
    → get_elem?
        (paint_rows (ey - sy) sy sx (ex - sx) (width * 4) 4 frame)
        (j * (width * 4) + (i * 4 + d))
      ≡ get_elem? frame (j * (width * 4) + (i * 4 + d))
painted_outside frame width i j d sx ex sy ey w l hx hy fits o =
    get_elem?-paint_rows sx (ex - sx) width j (i * 4 + d) (omega arith) (omega arith) (ey - sy) sy
      frame (place o)
  where
    place :
        (i < sx) ⊎ (ex ≤ i) ⊎ (j < sy) ⊎ (ey ≤ j) → Outside j (i * 4 + d) sy (ey - sy) sx (ex - sx)
    place (inl a) = inr (inl (omega arith))
    place (inr (inl b)) = inr (inr (omega arith))
    place (inr (inr (inl c))) = inl (inl c)
    place (inr (inr (inr e))) = inl (inr (omega arith))

end_of_le : (limit position size : ℕ) → end_of limit position size ≤ limit
end_of_le limit position size = ground arith

order_of : (a b c d : ℕ) → (leb b a || leb d c) ≡ false → (a < b) × (c < d)
order_of a b c d h = ground arith

-- Whether the shield is painted or not, every byte of a pixel of the frame that the window does not
-- cover stays as it was.
apply_mirror_shield_outside :
    (frame : List ℕ) (width height : ℕ) (bounds : WindowBounds) (i j d : ℕ)
    → i < width
    → d < 4
    → IsOutside width height bounds i j
    → (after : List ℕ) × ((apply_mirror_shield (some frame) width height bounds 4).1 ≡ some after)
      × (get_elem? after (j * (width * 4) + (i * 4 + d))
          ≡ get_elem? frame (j * (width * 4) + (i * 4 + d)))
unfolding apply_mirror_shield
apply_mirror_shield_outside frame width height bounds i j d w l o =
    let sx : ℕ = start_of bounds.x in
    let sy : ℕ = start_of bounds.y in
    let ex : ℕ = end_of width bounds.x bounds.width in
    let ey : ℕ = end_of height bounds.y bounds.height in
    elim (Bool-cases (width == 0 || (height == 0 || not bounds.is_active))) [
      | inl e ↦ (frame, ap (λ (r : Bool × Option (List ℕ)). r.1) (if-true _ _ e), refl)
      | inr e ↦ elim (Bool-cases (leb ex sx || leb ey sy)) [
        | inl f ↦
            (frame, ap (λ (r : Bool × Option (List ℕ)). r.1) (if-false _ _ e ∙ if-true _ _ f), refl)
        | inr f ↦
            (let (hx, hy) = order_of sx ex sy ey f in
              (
                paint_rows (ey - sy) sy sx (ex - sx) (width * 4) 4 frame,
                ap (λ (r : Bool × Option (List ℕ)). r.1) (if-false _ _ e ∙ if-false _ _ f),
                painted_outside frame width i j d sx ex sy ey w l hx hy
                    (end_of_le width bounds.x bounds.width) o,
              ))
      ]
    ]
