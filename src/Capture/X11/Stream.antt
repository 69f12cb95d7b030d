-- ===== src/Capture/X11/Stream.antt =====
-- Frame after frame: a screen is sent when it differs from the one before.
use remote_access_platform.Prelude.{
  ℕ, if-true, lt→ltb, ◌+◌, ◌*◌, ◌%◌, ◌^◌, ◌<◌, ◌≡◌, ◌⊎◌, inl, inr, refl, ap, ◌∙◌, List, [], ◌∷◌,
  ◌&&◌, not, Option, none, some, length, same, same_iff, is_empty, arith, Bool-cases, ◌==◌,
  if◌then◌else◌,
}
use remote_access_platform.Capture.Backend.{FrameData}
use remote_access_platform.Capture.Dirty.{FitsInt, detect_dirty_region}
use remote_access_platform.Capture.Dirty.Exact.{detect_dirty_region_iff}
use remote_access_platform.Capture.X11.{
  XImage, Display, LinuxX11Capture, as_int, convert_rows, frame_of, is_duplicate,
  capture_single_frame,
}
use remote_access_platform.Capture.X11.Pictures.{length-convert_rows}
use remote_access_platform.Capture.X11.Pixels.{picture_of, FitsImage, convert_rows-picture_of}

abbrev pub hand_over : Option FrameData → List FrameData → List FrameData
hand_over none frames = frames
hand_over (some frame) frames = frame ∷ frames

-- What a loop over `capture_single_frame` hands to its callback, for the images that Xlib returns one
-- after the other, each with its time.
unfoldable pub capture_all : List (XImage × ℕ) → LinuxX11Capture → List FrameData
capture_all [] c = []
capture_all ((image, now) ∷ rest) c =
    let r = capture_single_frame (λ root width height. some image) now c in
    hand_over r.0 (capture_all rest r.1)

-- A list without what repeats the element before it; the first argument is that element.
unfoldable pub changes : List ℕ → List (List ℕ) → List (List ℕ)
changes last [] = []
changes last (x ∷ xs) = if same last x then changes x xs else x ∷ changes x xs

abbrev pub pixels_of_frames : List FrameData → List (List ℕ)
pixels_of_frames [] = []
pixels_of_frames (f ∷ fs) = f.pixel_data ∷ pixels_of_frames fs

abbrev pub pictures : LinuxX11Capture → List (XImage × ℕ) → List (List ℕ)
pictures c [] = []
pictures c ((image, now) ∷ rest) = picture_of c.width c.height image ∷ pictures c rest

-- Images of the screen whose offsets fit 32 bits.
abbrev pub AllFit : LinuxX11Capture → List (XImage × ℕ) → Type 0
AllFit c [] = Unit {0}
AllFit c ((image, now) ∷ rest) = FitsImage c.width c.height image × AllFit c rest

-- An open display with a screen that is not empty, and no frame or one of that size before.
pub record IsOpen (c : LinuxX11Capture) : Type 0 where
  pub shown : Display
  pub connected : c.display ≡ some shown
  pub wide : 0 < c.width
  pub high : 0 < c.height
  pub fits : FitsInt c.width c.height 4
  pub before : (c.prev_frame_data ≡ []) ⊎ (length c.prev_frame_data ≡ c.height * (c.width * 4))

-- The test for a duplicate, for any picture before.
duplicate_test :
    (w h : ℕ) (prev pixels : List ℕ)
    → FitsInt w h 4
    → 0 < h * (w * 4)
    → length pixels ≡ h * (w * 4)
    → (prev ≡ []) ⊎ (length prev ≡ h * (w * 4))
    → (not (is_empty prev)
        && (length prev == length pixels
            && not
                (detect_dirty_region (some prev) (some pixels) (as_int w) (as_int h) 4).is_dirty))
      ≡ same prev pixels
unfolding same
duplicate_test w h [] [] f p l b = absurd (omega arith)
duplicate_test w h [] (x ∷ xs) f p l b = refl
duplicate_test w h (y ∷ ys) pixels f p l (inl e) = cc
duplicate_test w h (y ∷ ys) pixels f p l (inr m) = ground (
  arith,
  if-true w 0 (lt→ltb w (2 ^ 31) f.0),
  if-true h 0 (lt→ltb h (2 ^ 31) f.1),
  detect_dirty_region_iff w h 4 (y ∷ ys) pixels f m l,
  same_iff (y ∷ ys) pixels,
)

module _ (c : LinuxX11Capture) (v : IsOpen c) where
  -- A picture of the screen's size is skipped exactly if it is the one before.
  is_duplicate-same :
      (pixels : List ℕ)
      → length pixels ≡ c.height * (c.width * 4)
      → is_duplicate c pixels ≡ same c.prev_frame_data pixels
  unfolding is_duplicate
  is_duplicate-same pixels l =
      duplicate_test c.width c.height c.prev_frame_data pixels v.fits
        (grind (arith, v.wide, v.high)) l v.before

-- The capture after a picture.
abbrev next : LinuxX11Capture → List ℕ → LinuxX11Capture
next c pixels = record c {
  frame_counter = (c.frame_counter + 1) % 2 ^ 64;
  prev_frame_data = pixels;
}

next-IsOpen :
    (c : LinuxX11Capture) (pixels : List ℕ)
    → IsOpen c
    → length pixels ≡ c.height * (c.width * 4)
    → IsOpen (next c pixels)
next-IsOpen c pixels v l = record {
  shown = v.shown;
  connected = v.connected;
  wide = v.wide;
  high = v.high;
  fits = v.fits;
  before = inr l;
}

module _ (c : LinuxX11Capture) (v : IsOpen c) (image : XImage) (now : ℕ) where
  abbrev picture : List ℕ
  picture = convert_rows c.height 0 c.width image

  -- One capture.
  capture_single_frame-image : capture_single_frame (λ root width height. some image) now c ≡ (
      if same c.prev_frame_data picture then (none, next c picture) else (
        some (frame_of (record c { frame_counter = (c.frame_counter + 1) % 2 ^ 64 }) now picture),
        next c picture,
      ))
  unfolding capture_single_frame
  capture_single_frame-image =
      let test = is_duplicate-same c v picture (length-convert_rows c.height 0 c.width image) in
      elim (Bool-cases (same c.prev_frame_data picture)) [
        | inl e ↦
            (let kept : next c c.prev_frame_data ≡ next c picture =
                ap (next c) ((same_iff c.prev_frame_data picture).0 e) in
              ground (arith, v.connected, test, e, kept))
        | inr e ↦ ground (arith, v.connected, test, e)
      ]

pictures_kept :
    (c : LinuxX11Capture) (p : List ℕ) (images : List (XImage × ℕ))
    → pictures (next c p) images ≡ pictures c images
pictures_kept c p [] = refl
pictures_kept c p ((image, now) ∷ rest) =
    ap (◌∷◌ (picture_of c.width c.height image)) (pictures_kept c p rest)

AllFit-kept :
    (c : LinuxX11Capture) (p : List ℕ) (images : List (XImage × ℕ))
    → AllFit c images
    → AllFit (next c p) images
AllFit-kept c p [] h = tt
AllFit-kept c p ((image, now) ∷ rest) h = (h.0, AllFit-kept c p rest h.1)

-- While the X display is open and keeps a size that is not empty and whose bytes an `int` can
-- count, and the frame before, if there is one, has that size, the frames that the loop hands over
-- show the pictures that `XGetImage` returned, one after the other, without those that repeat the
-- one before; a picture like the last frame before them is left out too. A picture has red, green,
-- blue and 255 for each pixel, by rows, from the bytes 2, 1 and 0 of the pixel in the image, which
-- has these bytes, at offsets that fit 32 bits.
pub capture_all-changes :
    (images : List (XImage × ℕ)) (c : LinuxX11Capture)
    → IsOpen c
    → AllFit c images
    → pixels_of_frames (capture_all images c) ≡ changes c.prev_frame_data (pictures c images)
unfolding capture_all changes frame_of
capture_all-changes [] c v fits = refl
capture_all-changes ((image, now) ∷ rest) c v fits =
    let p = convert_rows c.height 0 c.width image in
    let shown = convert_rows-picture_of c.width c.height image fits.0 in
    let more = AllFit-kept c p rest fits.1 in
    let v' = next-IsOpen c p v (length-convert_rows c.height 0 c.width image) in
    elim (Bool-cases (same c.prev_frame_data p)) [
      | inl e ↦
          rw (← shown, capture_single_frame-image c v image now, e, capture_all)
            (capture_all-changes rest (next c p) v' more ∙ ap (changes p) (pictures_kept c p rest))
      | inr e ↦
          rw (← shown, capture_single_frame-image c v image now, e, capture_all)
            (ap (◌∷◌ p) (
              capture_all-changes rest (next c p) v' more
              ∙ ap (changes p) (pictures_kept c p rest)))
    ]
