-- ===== src/Capture/X11/Pictures.antt =====
-- The frames of the X capture, as pictures.
use remote_access_platform.Prelude.{
  ℕ, zero, suc, ◌+◌, ◌*◌, ◌/◌, ◌%◌, ◌^◌, ◌<◌, ◌≡◌, inl, inr, ◌⊎◌, refl, List, [], ◌∷◌, Option, some,
  All, length, drop, get_or, arith, ◌∙◌, length-append, All-append, All-drop, Option-cases,
}
use remote_access_platform.Memory.{IsByte}
use remote_access_platform.Capture.Backend.{FrameData, IsPicture, fill, length-fill, fill-IsByte}
use remote_access_platform.Capture.X11.{
  XImage, LinuxX11Capture, convert_row, convert_rows, frame_of, capture_single_frame,
}

length-convert_row : (n x bpp : ℕ) (row : List ℕ) → length (convert_row n x bpp row) ≡ n * 4
unfolding convert_row
length-convert_row zero x bpp row = omega arith
length-convert_row (suc n) x bpp row = omega (arith, length-convert_row n (x + 1) bpp row)

pub length-convert_rows :
    (n y width : ℕ) (image : XImage) → length (convert_rows n y width image) ≡ n * (width * 4)
unfolding convert_rows
length-convert_rows zero y width image = grind arith
length-convert_rows (suc n) y width image =
    let row =
      convert_row width 0 (image.bits_per_pixel / 8)
        (drop (y * image.bytes_per_line % 2 ^ 32) image.bytes) in
    grind (
      arith,
      length-append row (convert_rows n (y + 1) width image),
      length-convert_row width 0 (image.bits_per_pixel / 8)
          (drop (y * image.bytes_per_line % 2 ^ 32) image.bytes),
      length-convert_rows n (y + 1) width image,
    )

get_or-IsByte : (xs : List ℕ) (i : ℕ) → All IsByte xs → get_or xs i 0 < 256
get_or-IsByte [] i h = omega arith
get_or-IsByte (x ∷ xs) zero h = h.0
get_or-IsByte (x ∷ xs) (suc i) h = get_or-IsByte xs i h.1

convert_row-IsByte :
    (n x bpp : ℕ) (row : List ℕ) → All IsByte row → All IsByte (convert_row n x bpp row)
unfolding convert_row
convert_row-IsByte zero x bpp row h = tt
convert_row-IsByte (suc n) x bpp row h = (
  get_or-IsByte row ((x * bpp + 2) % 2 ^ 32) h,
  (
    get_or-IsByte row ((x * bpp + 1) % 2 ^ 32) h,
    (get_or-IsByte row (x * bpp % 2 ^ 32) h, (omega arith, convert_row-IsByte n (x + 1) bpp row h)),
  ),
)

pub convert_rows-IsByte :
    (n y width : ℕ) (image : XImage)
    → All IsByte image.bytes
    → All IsByte (convert_rows n y width image)
unfolding convert_rows
convert_rows-IsByte zero y width image h = tt
convert_rows-IsByte (suc n) y width image h =
    let bytes = drop (y * image.bytes_per_line % 2 ^ 32) image.bytes in
    All-append IsByte (convert_row width 0 (image.bits_per_pixel / 8) bytes)
      (convert_rows n (y + 1) width image)
      (convert_row-IsByte width 0 (image.bits_per_pixel / 8) bytes
        (All-drop IsByte (y * image.bytes_per_line % 2 ^ 32) image.bytes h))
      (convert_rows-IsByte n (y + 1) width image h)

-- Sizes whose bytes are counted in 32 bits.
pub record FitsScreen (c : LinuxX11Capture) : Type 0 where
  pub row_fits : c.width * 4 < 2 ^ 32
  pub screen_fits : c.width * c.height * 4 < 2 ^ 32

area_comm : (w h : ℕ) → h * (w * 4) ≡ w * h * 4
area_comm w h = grind arith

module _ (c : LinuxX11Capture) (now : ℕ) (fits : FitsScreen c) where
  frame_of-IsPicture :
      (n : ℕ) (pixels : List ℕ)
      → length pixels ≡ c.width * c.height * 4
      → All IsByte pixels
      → IsPicture (frame_of (record c { frame_counter = n }) now pixels)
  unfolding frame_of
  frame_of-IsPicture n pixels l b = record {
    rgba = refl;
    rows = omega (arith, fits.row_fits);
    whole = l;
    bytes = b;
  }

  -- Where the pixels of a frame come from.
  Source : (ℕ → ℕ → ℕ → Option XImage) → List ℕ → Type 0
  Source get_image pixels =
      (pixels ≡ fill (c.width * c.height % 2 ^ 32) 0xFF1E1E2E)
      ⊎ ((image : XImage) × (get_image c.root_window c.width c.height ≡ some image)
          × (pixels ≡ convert_rows c.height 0 c.width image))

  capture_single_frame-eq_some :
      (get_image : ℕ → ℕ → ℕ → Option XImage) (frame : FrameData)
      → (capture_single_frame get_image now c).0 ≡ some frame
      → (pixels : List ℕ) × (frame
          ≡ frame_of (record c { frame_counter = (c.frame_counter + 1) % 2 ^ 64 }) now pixels)
        × Source get_image pixels
  unfolding capture_single_frame Source
  capture_single_frame-eq_some get_image frame h = elim (Option-cases c.display) [
    | inl e ↦ (fill (c.width * c.height % 2 ^ 32) 0xFF1E1E2E, ground (arith, e), inl refl)
    | inr (d, e) ↦ elim (Option-cases (get_image c.root_window c.width c.height)) [
      | inl g ↦ (fill (c.width * c.height % 2 ^ 32) 0xFF1E1E2E, ground (arith, e, g), inl refl)
      | inr (image, g) ↦
          (convert_rows c.height 0 c.width image, ground (arith, e, g), inr (image, g, refl))
    ]
  ]

  Source_lem :
      (get_image : ℕ → ℕ → ℕ → Option XImage) (pixels : List ℕ)
      → ((image : XImage)
          → get_image c.root_window c.width c.height ≡ some image
          → All IsByte image.bytes)
      → Source get_image pixels
      → (length pixels ≡ c.width * c.height * 4) × All IsByte pixels
  unfolding Source
  Source_lem get_image pixels bytes (inl e) =
      let n = c.width * c.height % 2 ^ 32 in
      rw e (omega (arith, length-fill n 0xFF1E1E2E, fits.screen_fits), fill-IsByte n 0xFF1E1E2E)
  Source_lem get_image pixels bytes (inr (image, g, e)) = rw e (
    length-convert_rows c.height 0 c.width image ∙ area_comm c.width c.height,
    convert_rows-IsByte c.height 0 c.width image (bytes image g),
  )

  -- Every frame of the X capture, from the screen or the test picture, has the capture's size, and
  -- is a whole picture: its format, its stride of four bytes a column, that many bytes in every
  -- row, each below 256, if the sizes fit 32 bits and Xlib's images are made of bytes.
  pub capture_single_frame-IsPicture :
      (get_image : ℕ → ℕ → ℕ → Option XImage) (frame : FrameData)
      → ((image : XImage)
          → get_image c.root_window c.width c.height ≡ some image
          → All IsByte image.bytes)
      → (capture_single_frame get_image now c).0 ≡ some frame
      → IsPicture frame × (frame.width ≡ c.width) × (frame.height ≡ c.height)
  capture_single_frame-IsPicture get_image frame bytes h =
      let (pixels, e, source) = capture_single_frame-eq_some get_image frame h in
      let (l, b) = Source_lem get_image pixels bytes source in
      rw e (
        frame_of-IsPicture ((c.frame_counter + 1) % 2 ^ 64) pixels l b,
        unfold frame_of in refl,
        unfold frame_of in refl,
      )
