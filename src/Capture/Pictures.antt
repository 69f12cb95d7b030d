-- ===== src/Capture/Pictures.antt =====
-- The frames of the backends without an X server, as pictures.
use remote_access_platform.Prelude.{
  ℕ, zero, suc, ◌+◌, ◌*◌, ◌%◌, ◌^◌, ◌<◌, ◌≡◌, refl, ◌∙◌, some, All, replicate, length-replicate,
  arith,
}
use remote_access_platform.Memory.{IsByte}
use remote_access_platform.Capture.Backend.{
  FrameData, IsPicture, fill, length-fill, fill-IsByte, rgba8888,
}
use remote_access_platform.Capture.Drm
use remote_access_platform.Capture.Drm.{LinuxDrmCapture, Devices}
use remote_access_platform.Capture.Dxgi
use remote_access_platform.Capture.Dxgi.{WindowsDxgiCaptureBackend}

-- Sizes that fit 32 bits, with the stride of the width.
record FitsDrm (c : LinuxDrmCapture) : Type 0 where
  stride_is : c.stride ≡ c.width * 4
  area_fits : c.width * c.height < 2 ^ 32

-- The DRM backend returns a whole picture, numbered one above the one before.
drm_capture-IsPicture :
    (devices : Devices) (now : ℕ) (c : LinuxDrmCapture)
    → FitsDrm c
    → (frame : FrameData) × ((Drm.capture_single_frame devices now c).0 ≡ some frame)
      × IsPicture frame
      × (frame.frame_number ≡ (c.frame_counter + 1) % 2 ^ 64)
unfolding Drm.capture_single_frame Drm.ensure_initialized Drm.initialize
drm_capture-IsPicture devices now c f =
    let n = (c.frame_counter + 1) % 2 ^ 64 in
    let color = (0xFF101010 + n % 255) % 2 ^ 32 in
    let area = c.width * c.height % 2 ^ 32 in
    let frame : FrameData = record {
      width = c.width;
      height = c.height;
      stride = c.stride;
      format = rgba8888;
      frame_number = n;
      timestamp_us = now;
      pixel_data = fill area color;
    } in
    (
      frame,
      ground arith,
      record {
        rgba = refl;
        rows = f.stride_is;
        whole = omega (arith, length-fill area color, f.area_fits);
        bytes = fill-IsByte area color;
      },
      refl,
    )

replicate-IsByte : (n b : ℕ) → IsByte b → All IsByte (replicate n b)
replicate-IsByte zero b h = tt
replicate-IsByte (suc n) b h = (h, replicate-IsByte n b h)

area : (w h : ℕ) → w * 4 * h ≡ w * h * 4
area w h = grind arith

-- So does the backend for Windows.
dxgi_capture-IsPicture :
    (now : ℕ) (c : WindowsDxgiCaptureBackend)
    → (frame : FrameData) × ((Dxgi.capture_single_frame now c).0 ≡ some frame)
      × IsPicture frame
      × (frame.frame_number ≡ (c.frame_counter + 1) % 2 ^ 64)
unfolding Dxgi.capture_single_frame
dxgi_capture-IsPicture now c = (
  _,
  refl,
  record {
    rgba = refl;
    rows = refl;
    whole =
        length-replicate (Dxgi.frame_width * 4 * Dxgi.frame_height) 0x1E
        ∙ area Dxgi.frame_width Dxgi.frame_height;
    bytes = replicate-IsByte (Dxgi.frame_width * 4 * Dxgi.frame_height) 0x1E (omega arith);
  },
  refl,
)
