-- ===== src/Tests/Screen.antt =====
-- The capture and the input on small screens.
use remote_access_platform.Prelude.{
  ℕ, ◌≡◌, ◌↔◌, inl, refl, List, [], ◌∷◌, false, Option, none, some, arith, All, same,
}
use mathlib.Core.Path.{subst}
use remote_access_platform.Memory.{IsByte}
use remote_access_platform.Capture.Backend.{FrameData, IsPicture, rgba8888}
use remote_access_platform.Capture.Dirty.{detect_dirty_region}
use remote_access_platform.Capture.Dirty.Exact.{detect_dirty_region_iff}
use remote_access_platform.Capture.X11.{
  XImage, Display, LinuxX11Capture, convert_row, convert_rows, frame_of, is_duplicate,
  capture_single_frame,
}
use remote_access_platform.Capture.X11.Pictures.{capture_single_frame-IsPicture}
use remote_access_platform.Capture.X11.Stream.{
  capture_all, changes, pictures, pixels_of_frames, capture_all-changes,
}
use remote_access_platform.Capture.X11.Pixels.{FitsImage, rows_of, columns_of, pixel_of, byte_at}
use remote_access_platform.Capture.X11.Loop.{no_thread}
use remote_access_platform.Capture.Drm
use remote_access_platform.Capture.Drm.{Devices}
use remote_access_platform.Capture.Dxgi
use remote_access_platform.Capture.Threads.{
  Call, Settles, x11_owner, drm_owner, dxgi_owner, run_calls_settled,
}

abbrev screen : Display
screen = record {
  default_screen = 0;
  screen_count = 1;
  display_width = λ i. 1;
  display_height = λ i. 1;
  root_window = λ i. 7;
}

-- A screen of one pixel.
abbrev tiny : LinuxX11Capture
tiny = record {
  width = 1;
  height = 1;
  frame_counter = 0;
  display = some screen;
  root_window = 7;
  prev_frame_data = [];
  active_monitor_id = 0;
}

abbrev pixel : ℕ → XImage
pixel b = record { bytes = b ∷ 2 ∷ 3 ∷ 0 ∷ []; bytes_per_line = 4; bits_per_pixel = 32 }

pixel-FitsImage : (b : ℕ) → FitsImage 1 1 (pixel b)
pixel-FitsImage b = record {
  row_fits = omega arith;
  lines_fit = omega arith;
  colors = omega arith;
  columns = omega arith;
  lines = omega arith;
}

capture_all-changes_example :
    pixels_of_frames (capture_all ((pixel 1, 10) ∷ (pixel 1, 20) ∷ (pixel 9, 30) ∷ []) tiny)
    ≡ changes [] (pictures tiny ((pixel 1, 10) ∷ (pixel 1, 20) ∷ (pixel 9, 30) ∷ []))
capture_all-changes_example =
    capture_all-changes ((pixel 1, 10) ∷ (pixel 1, 20) ∷ (pixel 9, 30) ∷ []) tiny
      (record {
        shown = screen;
        connected = refl;
        wide = omega arith;
        high = omega arith;
        fits = omega arith;
        before = inl refl;
      })
      (pixel-FitsImage 1, (pixel-FitsImage 1, (pixel-FitsImage 9, tt)))

-- Of three captures the second is left out.
two_changes :
    changes [] (pictures tiny ((pixel 1, 10) ∷ (pixel 1, 20) ∷ (pixel 9, 30) ∷ []))
    ≡ (3 ∷ 2 ∷ 1 ∷ 255 ∷ []) ∷ (3 ∷ 2 ∷ 9 ∷ 255 ∷ []) ∷ []
unfolding changes rows_of columns_of pixel_of byte_at same
two_changes = refl

abbrev first : FrameData
first = record {
  width = 1;
  height = 1;
  stride = 4;
  format = rgba8888;
  frame_number = 1;
  timestamp_us = 10;
  pixel_data = 3 ∷ 2 ∷ 1 ∷ 255 ∷ [];
}

captures_first : (capture_single_frame (λ root w h. some (pixel 1)) 10 tiny).0 ≡ some first
unfolding capture_single_frame is_duplicate frame_of convert_rows convert_row
captures_first = refl

pixel_bytes :
    (image : XImage)
    → ◌≡◌ {A = Option XImage} (some (pixel 1)) (some image)
    → All IsByte image.bytes
pixel_bytes image e =
    let same : pixel 1 ≡ image = cc in subst (λ (i : XImage). All IsByte i.bytes) same (omega arith)

capture_single_frame-IsPicture_example : IsPicture first × (first.width ≡ 1) × (first.height ≡ 1)
capture_single_frame-IsPicture_example =
    capture_single_frame-IsPicture tiny 10 (omega arith) (λ root w h. some (pixel 1)) first
      pixel_bytes captures_first

abbrev before : List ℕ
before = 3 ∷ 2 ∷ 1 ∷ 255 ∷ []

abbrev changed : List ℕ
changed = 3 ∷ 2 ∷ 9 ∷ 255 ∷ []

detect_dirty_region_iff_example :
    ((detect_dirty_region (some before) (some changed) 1 1 4).is_dirty ≡ false) ↔ (before ≡ changed)
detect_dirty_region_iff_example =
    detect_dirty_region_iff 1 1 4 before changed (omega arith) (omega arith) (omega arith)

abbrev no_devices : Devices
no_devices = record { card = none; framebuffer = some 3 }

run_calls_settled_example :
    Settles x11_owner false (Call.start ∷ Call.start ∷ Call.stop ∷ []) no_thread
    × Settles
        (drm_owner no_devices)
        false
        (Call.start ∷ Call.start ∷ Call.stop ∷ [])
        Drm.new_capture
    × Settles dxgi_owner false (Call.start ∷ Call.start ∷ Call.stop ∷ []) Dxgi.new_capture
run_calls_settled_example = run_calls_settled no_devices (Call.start ∷ Call.start ∷ Call.stop ∷ [])
