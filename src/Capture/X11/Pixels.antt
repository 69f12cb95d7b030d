-- ===== src/Capture/X11/Pixels.antt =====
-- The picture that an image of the X server shows, pixel by pixel, and that the capture's loops build it.
use remote_access_platform.Prelude.{
  ℕ, zero, suc, ◌+◌, ◌*◌, ◌/◌, ◌%◌, ◌^◌, ◌<◌, ◌≤◌, length, ◌≡◌, refl, sym, ap, ◌∙◌, List, [], ◌∷◌,
  ◌++◌, drop, get_or, arith,
}
use mathlib.Core.List.{append-nil, append_assoc}
use native.Mathlib.Nat.{mod-eq_of_lt, mul-le-mul_right}
use remote_access_platform.Capture.X11.{XImage, convert_row, convert_rows}

-- A byte of the image, so many behind the front of the pixel in column `x` of row `y`.
unfoldable pub byte_at : XImage → ℕ → ℕ → ℕ → ℕ
byte_at image x y i =
    get_or image.bytes (y * image.bytes_per_line + (x * (image.bits_per_pixel / 8) + i)) 0

-- Red, green and blue, which the image holds in the other order, and opaque.
unfoldable pub pixel_of : XImage → ℕ → ℕ → List ℕ
pixel_of image x y = byte_at image x y 2 ∷ byte_at image x y 1 ∷ byte_at image x y 0 ∷ 255 ∷ []

-- The first columns of a row, and the first rows.
unfoldable pub columns_of : XImage → ℕ → ℕ → List ℕ
columns_of image y zero = []
columns_of image y (suc x) = columns_of image y x ++ pixel_of image x y

unfoldable pub rows_of : XImage → ℕ → ℕ → List ℕ
rows_of image width zero = []
rows_of image width (suc y) = rows_of image width y ++ columns_of image y width

abbrev pub picture_of : ℕ → ℕ → XImage → List ℕ
picture_of width height image = rows_of image width height

-- The offsets that the loops compute in 32 bits do not wrap, and the image has the bytes behind them.
pub record FitsImage (width height : ℕ) (image : XImage) : Type 0 where
  pub row_fits : width * (image.bits_per_pixel / 8) + 2 < 2 ^ 32
  pub lines_fit : height * image.bytes_per_line < 2 ^ 32
  pub colors : 3 ≤ image.bits_per_pixel / 8
  pub columns : width * (image.bits_per_pixel / 8) ≤ image.bytes_per_line
  pub lines : height * image.bytes_per_line ≤ length image.bytes

get_or-drop : (n i : ℕ) (xs : List ℕ) → get_or (drop n xs) i 0 ≡ get_or xs (n + i) 0
get_or-drop zero i xs = ap (λ (k : ℕ). get_or xs k 0) (omega arith)
get_or-drop (suc n) i [] = refl
get_or-drop (suc n) i (x ∷ xs) =
    let shifted : suc n + i ≡ suc (n + i) = omega arith in rw shifted (get_or-drop n i xs)

module _ (image : XImage) where
  abbrev bpp : ℕ
  bpp = image.bits_per_pixel / 8

  abbrev row_at : ℕ → List ℕ
  row_at y = drop (y * image.bytes_per_line % 2 ^ 32) image.bytes

  -- A byte of a row, where the loop looks for it.
  byte_at_row :
      (x y i : ℕ)
      → y * image.bytes_per_line < 2 ^ 32
      → x * bpp + i < 2 ^ 32
      → get_or (row_at y) ((x * bpp + i) % 2 ^ 32) 0 ≡ byte_at image x y i
  unfolding byte_at
  byte_at_row x y i fits h =
      rw (mod-eq_of_lt fits, mod-eq_of_lt h)
        (get_or-drop (y * image.bytes_per_line) (x * bpp + i) image.bytes)

  pixel_of_lem :
      (x y : ℕ)
      → y * image.bytes_per_line < 2 ^ 32
      → x * bpp + 2 < 2 ^ 32
      → (rest : List ℕ)
      → get_or (row_at y) ((x * bpp + 2) % 2 ^ 32) 0
          ∷ get_or (row_at y) ((x * bpp + 1) % 2 ^ 32) 0
          ∷ get_or (row_at y) (x * bpp % 2 ^ 32) 0
          ∷ 255
          ∷ rest
        ≡ pixel_of image x y ++ rest
  unfolding pixel_of
  pixel_of_lem x y fits h rest =
      let front : x * bpp + 0 ≡ x * bpp = omega arith in
      let blue =
        ap (λ (k : ℕ). get_or (row_at y) (k % 2 ^ 32) 0) (sym front)
        ∙ byte_at_row x y 0 fits (omega arith) in
      rw (byte_at_row x y 2 fits h, byte_at_row x y 1 fits (omega arith), blue) refl

  convert_row-columns_of :
      (n x y : ℕ)
      → y * image.bytes_per_line < 2 ^ 32
      → (x + n) * bpp + 2 < 2 ^ 32
      → columns_of image y x ++ convert_row n x bpp (row_at y) ≡ columns_of image y (x + n)
  unfolding convert_row columns_of
  convert_row-columns_of zero x y fits h =
      let same : x ≡ x + 0 = omega arith in
      append-nil (columns_of image y x) ∙ ap (columns_of image y) same
  convert_row-columns_of (suc n) x y fits h =
      let le = mul-le-mul_right {m = x} {n = x + suc n} bpp (omega arith) in
      let next : x + 1 + n ≡ x + suc n = omega arith in
      let one : x + 1 ≡ suc x = omega arith in
      ap (λ r. columns_of image y x ++ r)
        (pixel_of_lem x y fits (omega (arith, le)) (convert_row n (x + 1) bpp (row_at y)))
      ∙ sym (
          append_assoc (columns_of image y x) (pixel_of image x y)
            (convert_row n (x + 1) bpp (row_at y)))
      ∙ ap (λ k. columns_of image y k ++ convert_row n (x + 1) bpp (row_at y)) (sym one)
      ∙ convert_row-columns_of n (x + 1) y fits (rw next h)
      ∙ ap (columns_of image y) next

  first_row :
      (width y : ℕ)
      → y * image.bytes_per_line < 2 ^ 32
      → width * bpp + 2 < 2 ^ 32
      → convert_row width 0 bpp (row_at y) ≡ columns_of image y width
  unfolding columns_of
  first_row width y fits f =
      let all : 0 + width ≡ width = omega arith in
      convert_row-columns_of width 0 y fits (rw all f) ∙ ap (columns_of image y) all

  convert_rows-rows_of :
      (n y width : ℕ)
      → width * bpp + 2 < 2 ^ 32
      → (y + n) * image.bytes_per_line < 2 ^ 32
      → rows_of image width y ++ convert_rows n y width image ≡ rows_of image width (y + n)
  unfolding convert_rows rows_of
  convert_rows-rows_of zero y width f h =
      let same : y ≡ y + 0 = omega arith in
      append-nil (rows_of image width y) ∙ ap (rows_of image width) same
  convert_rows-rows_of (suc n) y width f h =
      let le = mul-le-mul_right {m = y} {n = y + suc n} image.bytes_per_line (omega arith) in
      let next : y + 1 + n ≡ y + suc n = omega arith in
      let one : y + 1 ≡ suc y = omega arith in
      let row : convert_row width 0 bpp (row_at y) ≡ columns_of image y width =
        first_row width y (omega (arith, le)) f in
      ap (λ r. rows_of image width y ++ (r ++ convert_rows n (y + 1) width image)) row
      ∙ sym (
          append_assoc (rows_of image width y) (columns_of image y width)
            (convert_rows n (y + 1) width image))
      ∙ ap (λ k. rows_of image width k ++ convert_rows n (y + 1) width image) (sym one)
      ∙ convert_rows-rows_of n (y + 1) width f (rw next h)
      ∙ ap (rows_of image width) next

-- The loops over the rows and columns build the picture.
pub convert_rows-picture_of :
    (width height : ℕ) (image : XImage)
    → FitsImage width height image
    → convert_rows height 0 width image ≡ picture_of width height image
unfolding rows_of
convert_rows-picture_of width height image f =
    let all : 0 + height ≡ height = omega arith in
    convert_rows-rows_of image height 0 width f.row_fits (rw all f.lines_fit)
    ∙ ap (rows_of image width) all
