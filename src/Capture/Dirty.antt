-- ===== src/Capture/Dirty.antt =====
-- libs/capture/src/DirtyRegionDetector.cpp: the smallest rectangle around the pixels that changed. A
-- frame is the list of its bytes; an `int` that is not positive is 0 here, and so is the -1 that `maxX`
-- and `maxY` start from, which no comparison tells from 0. The offsets into a frame are computed in `int`,
-- and their overflow is undefined: `FitsInt` says for which sizes there is none.
pub mod Columns
pub mod Cover
pub mod Exact
use remote_access_platform.Prelude.{
  ℕ, zero, suc, ◌+◌, ◌-◌, ◌*◌, ◌^◌, ◌<◌, min, max, List, Bool, true, false, ◌&&◌, ◌||◌, not, Option,
  none, some, take, drop, leb, ◌==◌, if◌then◌else◌, same,
}

pub record DirtyRect : Type 0 where
  pub x : ℕ
  pub y : ℕ
  pub width : ℕ
  pub height : ℕ
  pub is_dirty : Bool

-- `minX`, `minY`, `maxX`, `maxY`
pub record Extent : Type 0 where
  pub min_x : ℕ
  pub min_y : ℕ
  pub max_x : ℕ
  pub max_y : ℕ

-- `memcmp(prev + offset, curr + offset, size) != 0`
unfoldable pub differs : ℕ → ℕ → List ℕ → List ℕ → Bool
differs offset size prev curr =
    not (same (take size (drop offset prev)) (take size (drop offset curr)))

-- The loop over the columns of a row from `x` on, as many as the first argument says.
unfoldable pub scan_row : ℕ → ℕ → ℕ → List ℕ → List ℕ → Extent → Extent
scan_row zero x bytes_per_pixel prev_row curr_row e = e
scan_row (suc n) x bytes_per_pixel prev_row curr_row e =
    scan_row n (x + 1) bytes_per_pixel prev_row curr_row (
      if differs (x * bytes_per_pixel) bytes_per_pixel prev_row curr_row
      then record e { min_x = min e.min_x x; max_x = max e.max_x (x + 1) }
      else e)

-- The loop over the rows from `y` on.
unfoldable pub scan_rows : ℕ → ℕ → ℕ → ℕ → List ℕ → List ℕ → Extent → Extent
scan_rows zero y width bytes_per_pixel prev curr e = e
scan_rows (suc n) y width bytes_per_pixel prev curr e =
    let stride = width * bytes_per_pixel in
    let prev_row = drop (y * stride) prev in
    let curr_row = drop (y * stride) curr in
    scan_rows n (y + 1) width bytes_per_pixel prev curr (
      if differs 0 stride prev_row curr_row
      then scan_row width 0 bytes_per_pixel prev_row curr_row
          (record e { min_y = min e.min_y y; max_y = max e.max_y (y + 1) })
      else e)

abbrev pub clean : DirtyRect
clean = record { x = 0; y = 0; width = 0; height = 0; is_dirty = false }

unfoldable pub rect_of : ℕ → ℕ → Extent → DirtyRect
rect_of width height e =
    if leb e.min_x e.max_x && leb e.min_y e.max_y
    then record {
      x = e.min_x;
      y = e.min_y;
      width = min (width - e.min_x) (e.max_x - e.min_x);
      height = min (height - e.min_y) (e.max_y - e.min_y);
      is_dirty = true;
    }
    else clean

abbrev pub start : ℕ → ℕ → Extent
start width height = record { min_x = width; min_y = height; max_x = 0; max_y = 0 }

-- Sizes that are positive or 0 as an `int`, and a frame whose last offset is one.
abbrev pub FitsInt : ℕ → ℕ → ℕ → Type 0
FitsInt width height bytes_per_pixel =
    (width < 2 ^ 31)
    × (height < 2 ^ 31)
    × (width * bytes_per_pixel < 2 ^ 31)
    × (height * (width * bytes_per_pixel) < 2 ^ 31)

-- `none` is a null pointer.
unfoldable pub detect_dirty_region : Option (List ℕ) → Option (List ℕ) → ℕ → ℕ → ℕ → DirtyRect
detect_dirty_region prev_frame none width height bytes_per_pixel = clean
detect_dirty_region none (some curr) width height bytes_per_pixel =
    if width == 0 || height == 0
    then clean
    else record { x = 0; y = 0; width = width; height = height; is_dirty = true }
detect_dirty_region (some prev) (some curr) width height bytes_per_pixel =
    if width == 0 || height == 0
    then clean
    else rect_of width height
        (scan_rows height 0 width bytes_per_pixel prev curr (start width height))
