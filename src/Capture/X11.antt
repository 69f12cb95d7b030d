-- ===== src/Capture/X11.antt =====
-- libs/capture/src/LinuxX11Capture.cpp: one frame of an X screen, and the choice of the screen. What Xlib returns
-- is an argument.
pub mod Loop
pub mod Monitors
pub mod Pictures
pub mod Pixels
pub mod Stream
pub mod Windows
use remote_access_platform.Prelude.{
  ℕ, zero, suc, ◌+◌, ◌*◌, ◌/◌, ◌%◌, ◌^◌, List, [], ◌∷◌, ◌++◌, Bool, true, false, ◌&&◌, not, Option,
  none, some, length, drop, ltb, ◌==◌, if◌then◌else◌, is_empty, get_or,
}
use remote_access_platform.Qt.{Text, literal}
use remote_access_platform.Capture.Backend.{FrameData, MonitorInfo, rgba8888, fill}
use remote_access_platform.Capture.Dirty.{detect_dirty_region}

-- The members of an `XImage` that the capture reads. Beyond its bytes a read is 0 here.
pub record XImage : Type 0 where
  pub bytes : List ℕ
  pub bytes_per_line : ℕ
  pub bits_per_pixel : ℕ

-- What Xlib says of an open display.
pub record Display : Type 0 where
  pub default_screen : ℕ
  pub screen_count : ℕ
  pub display_width : ℕ → ℕ
  pub display_height : ℕ → ℕ
  pub root_window : ℕ → ℕ

pub record LinuxX11Capture : Type 0 where
  pub width : ℕ
  pub height : ℕ
  pub frame_counter : ℕ
  pub display : Option Display
  pub root_window : ℕ
  pub prev_frame_data : List ℕ
  pub active_monitor_id : ℕ

-- The object as it is constructed.
abbrev pub new_capture : LinuxX11Capture
new_capture = record {
  width = 1920;
  height = 1080;
  frame_counter = 0;
  display = none;
  root_window = 0;
  prev_frame_data = [];
  active_monitor_id = 0;
}

-- The argument is what `XOpenDisplay` returned.
unfoldable pub initialize : Option Display → LinuxX11Capture → LinuxX11Capture
initialize none c = record c {
  display = none;
  width = 1920;
  height = 1080;
  frame_counter = 0;
  prev_frame_data = [];
}
initialize (some d) c = record c {
  display = some d;
  root_window = d.root_window d.default_screen;
  width = d.display_width d.default_screen % 2 ^ 32;
  height = d.display_height d.default_screen % 2 ^ 32;
  frame_counter = 0;
  prev_frame_data = [];
}

-- The columns of a row from `x` on, as many as the first argument says: blue, green and red come in
-- the other order, and opaque.
unfoldable pub convert_row : ℕ → ℕ → ℕ → List ℕ → List ℕ
convert_row zero x bpp src_row = []
convert_row (suc n) x bpp src_row =
    get_or src_row ((x * bpp + 2) % 2 ^ 32) 0
    ∷ get_or src_row ((x * bpp + 1) % 2 ^ 32) 0
    ∷ get_or src_row (x * bpp % 2 ^ 32) 0
    ∷ 0xFF
    ∷ convert_row n (x + 1) bpp src_row

-- The rows from `y` on. They fill the frame's buffer, of `stride * height` bytes in 32 bits, from its
-- front to its end; where that product wraps, they are written behind the buffer, which is undefined.
unfoldable pub convert_rows : ℕ → ℕ → ℕ → XImage → List ℕ
convert_rows zero y width ximage = []
convert_rows (suc n) y width ximage =
    convert_row width 0 (ximage.bits_per_pixel / 8)
      (drop (y * ximage.bytes_per_line % 2 ^ 32) ximage.bytes)
    ++ convert_rows n (y + 1) width ximage

unfoldable pub frame_of : LinuxX11Capture → ℕ → List ℕ → FrameData
frame_of c now pixels = record {
  width = c.width;
  height = c.height;
  stride = c.width * 4 % 2 ^ 32;
  format = rgba8888;
  frame_number = c.frame_counter;
  timestamp_us = now;
  pixel_data = pixels;
}

-- A `uint32_t` passed for an `int`; one that is not positive is 0, as the detector takes it.
abbrev pub as_int : ℕ → ℕ
as_int n = if ltb n (2 ^ 31) then n else 0

-- The frame before has this frame's size and content.
unfoldable pub is_duplicate : LinuxX11Capture → List ℕ → Bool
is_duplicate c pixels =
    not (is_empty c.prev_frame_data)
    && (length c.prev_frame_data == length pixels
        && not
            (detect_dirty_region (some c.prev_frame_data) (some pixels) (as_int c.width)
              (as_int c.height) 4).is_dirty)

-- `captureSingleFrame` at a time, with what `XGetImage` returns for the root window and a size.
unfoldable pub capture_single_frame :
    (ℕ → ℕ → ℕ → Option XImage) → ℕ → LinuxX11Capture → Option FrameData × LinuxX11Capture
capture_single_frame get_image now c =
    let c1 = record c { frame_counter = (c.frame_counter + 1) % 2 ^ 64 } in
    let headless = some (frame_of c1 now (fill (c.width * c.height % 2 ^ 32) 0xFF1E1E2E)) in
    elim c.display [
      | none ↦ (headless, c1)
      | some d ↦ elim (get_image c.root_window c.width c.height) [
        | none ↦ (headless, c1)
        | some ximage ↦
            (let pixels = convert_rows c.height 0 c.width ximage in
              if is_duplicate c pixels
              then (none, c1)
              else (some (frame_of c1 now pixels), record c1 { prev_frame_data = pixels }))
      ]
    ]

abbrev pub primary_display : LinuxX11Capture → MonitorInfo
primary_display c = record {
  monitor_id = 0;
  name = literal "Primary Display";
  width = c.width;
  height = c.height;
  offset_x = 0;
  offset_y = 0;
  is_primary = true;
}

abbrev pub screen_info : (ℕ → Text) → Display → ℕ → MonitorInfo
screen_info number d i = record {
  monitor_id = i;
  name = literal "Screen " ++ number i;
  width = d.display_width i % 2 ^ 32;
  height = d.display_height i % 2 ^ 32;
  offset_x = 0;
  offset_y = 0;
  is_primary = i == d.default_screen;
}

-- The screens from `i` on. `number` is `std::to_string`.
unfoldable pub screens : (ℕ → Text) → Display → ℕ → ℕ → List MonitorInfo
screens number d zero i = []
screens number d (suc n) i = screen_info number d i ∷ screens number d n (i + 1)

unfoldable pub enumerate_monitors : (ℕ → Text) → LinuxX11Capture → List MonitorInfo
enumerate_monitors number c = elim c.display [
  | none ↦ primary_display c ∷ []
  | some d ↦
      (let monitors = screens number d d.screen_count 0 in
        if is_empty monitors then primary_display c ∷ [] else monitors)
]

-- The first monitor with an id.
unfoldable pub find_monitor : ℕ → List MonitorInfo → Option MonitorInfo
find_monitor monitor_id [] = none
find_monitor monitor_id (mon ∷ monitors) =
    if mon.monitor_id == monitor_id then some mon else find_monitor monitor_id monitors

-- The root window changes with a screen that the display has.
unfoldable pub root_of : LinuxX11Capture → ℕ → ℕ
root_of c monitor_id = elim c.display [
  | none ↦ c.root_window
  | some d ↦ if ltb monitor_id d.screen_count then d.root_window monitor_id else c.root_window
]

unfoldable pub select_monitor : (ℕ → Text) → ℕ → LinuxX11Capture → Bool × LinuxX11Capture
select_monitor number monitor_id c = elim (find_monitor monitor_id (enumerate_monitors number c)) [
  | none ↦ (false, c)
  | some mon ↦ (
    true,
    record c {
      active_monitor_id = monitor_id;
      width = mon.width;
      height = mon.height;
      root_window = root_of c monitor_id;
    },
  )
]
