-- ===== src/Capture/Backend.antt =====
-- libs/capture/include/ICaptureBackend.h: what every capture backend returns, and what the two kinds
-- of test picture are made of.
use remote_access_platform.Prelude.{
  ℕ, zero, suc, ◌*◌, ◌≡◌, List, [], ◌++◌, Bool, All, length, arith, length-append, All-append,
}
use remote_access_platform.Memory.{store, IsByte, length-store, store-IsByte}
use remote_access_platform.Qt.{Text}

pub data FrameFormat : Type 0 where
  unknown rgba8888 bgra8888 nv12 : FrameFormat

pub record FrameData : Type 0 where
  pub width : ℕ
  pub height : ℕ
  pub stride : ℕ
  pub format : FrameFormat
  pub frame_number : ℕ
  pub timestamp_us : ℕ
  pub pixel_data : List ℕ

-- An `int32_t` is its bit pattern.
pub record MonitorInfo : Type 0 where
  pub monitor_id : ℕ
  pub name : Text
  pub width : ℕ
  pub height : ℕ
  pub offset_x : ℕ
  pub offset_y : ℕ
  pub is_primary : Bool

-- A picture of whole pixels of four bytes, row after row.
pub record IsPicture (frame : FrameData) : Type 0 where
  pub rgba : frame.format ≡ rgba8888
  pub rows : frame.stride ≡ frame.width * 4
  pub whole : length frame.pixel_data ≡ frame.width * frame.height * 4
  pub bytes : All IsByte frame.pixel_data

-- `std::fill` of so many 32-bit words.
unfoldable pub fill : ℕ → ℕ → List ℕ
fill zero color = []
fill (suc n) color = store 4 color ++ fill n color

pub length-fill : (n color : ℕ) → length (fill n color) ≡ n * 4
unfolding fill
length-fill zero color = omega arith
length-fill (suc n) color =
    omega (
      arith,
      length-append (store 4 color) (fill n color),
      length-store 4 color,
      length-fill n color,
    )

pub fill-IsByte : (n color : ℕ) → All IsByte (fill n color)
unfolding fill
fill-IsByte zero color = tt
fill-IsByte (suc n) color =
    All-append IsByte (store 4 color) (fill n color) (store-IsByte 4 color) (fill-IsByte n color)
