-- ===== src/Capture/Shield.antt =====
-- libs/capture/src/MirrorShield.cpp: painting over the client's own window. A frame is the list of its bytes,
-- an `int` of the window its bit pattern; a size of the frame that is not positive is 0, and a sum that
-- overflows, which C++ leaves undefined, wraps.
pub mod Outside
use remote_access_platform.Prelude.{
  ℕ, zero, suc, ◌+◌, ◌-◌, ◌*◌, ◌%◌, ◌^◌, ◌≤◌, ◌<◌, ◌≡◌, inl, inr, refl, ap, ◌∙◌, List, [], ◌∷◌,
  Bool, true, false, ◌||◌, not, Option, none, some, min, set, length, length-set, get_elem?,
  get_elem?-set_ne, ltb, leb, ◌==◌, if◌then◌else◌, arith, Bool-cases,
}
use native.Mathlib.Decide.{ℕ_discrete}
use remote_access_platform.Capture.X11.Windows.{WindowBounds}

-- The four bytes of a pixel, or three.
unfoldable pub paint : ℕ → ℕ → List ℕ → List ℕ
paint bytes_per_pixel offset frame =
    let rgb = set (set (set frame offset 0x1E) (offset + 1) 0x1E) (offset + 2) 0x2E in
    if bytes_per_pixel == 4 then set rgb (offset + 3) 0xFF else rgb

-- The columns from `x` on, of the row that begins at an offset.
unfoldable pub paint_row : ℕ → ℕ → ℕ → ℕ → List ℕ → List ℕ
paint_row zero x bytes_per_pixel row frame = frame
paint_row (suc n) x bytes_per_pixel row frame =
    paint_row n (x + 1) bytes_per_pixel row
      (paint bytes_per_pixel (row + x * bytes_per_pixel) frame)

-- The rows from `y` on, each from a column on and so many columns wide.
unfoldable pub paint_rows : ℕ → ℕ → ℕ → ℕ → ℕ → ℕ → List ℕ → List ℕ
paint_rows zero y start_x columns stride bytes_per_pixel frame = frame
paint_rows (suc n) y start_x columns stride bytes_per_pixel frame =
    paint_rows n (y + 1) start_x columns stride bytes_per_pixel
      (paint_row columns start_x bytes_per_pixel (y * stride) frame)

-- `std::max(0, v)`
abbrev pub start_of : ℕ → ℕ
start_of v = if ltb v (2 ^ 31) then v else 0

-- `std::min(limit, position + size)`, or 0 if that is negative, which no start is below.
abbrev pub end_of : ℕ → ℕ → ℕ → ℕ
end_of limit position size =
    let sum = (position + size) % 2 ^ 32 in if ltb sum (2 ^ 31) then min limit sum else 0

-- The result, and the frame afterwards; `none` is a null pointer.
unfoldable pub apply_mirror_shield :
    Option (List ℕ) → ℕ → ℕ → WindowBounds → ℕ → Bool × Option (List ℕ)
apply_mirror_shield none frame_width frame_height client_bounds bytes_per_pixel = (false, none)
apply_mirror_shield (some frame) frame_width frame_height client_bounds bytes_per_pixel =
    let start_x = start_of client_bounds.x in
    let start_y = start_of client_bounds.y in
    let end_x = end_of frame_width client_bounds.x client_bounds.width in
    let end_y = end_of frame_height client_bounds.y client_bounds.height in
    if frame_width == 0 || (frame_height == 0 || not client_bounds.is_active)
    then (false, some frame)
    else if leb end_x start_x || leb end_y start_y
    then (false, some frame)
    else (
      true,
      some (
          paint_rows (end_y - start_y) start_y start_x (end_x - start_x)
            (frame_width * bytes_per_pixel) bytes_per_pixel frame),
    )
