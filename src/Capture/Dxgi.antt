-- ===== src/Capture/Dxgi.antt =====
-- libs/capture/src/WindowsDxgiCaptureBackend.cpp and CrossPlatformCapture.cpp: what the backends outside
-- Linux return. Assigning a `std::thread` that is still joinable ends the process, which is `none`.
use remote_access_platform.Prelude.{
  ℕ, ◌+◌, ◌*◌, ◌%◌, ◌^◌, List, [], ◌∷◌, ◌++◌, Bool, true, false, not, Option, none, some, replicate,
  is_empty, if◌then◌else◌,
}
use remote_access_platform.Qt.{Text, literal}
use remote_access_platform.Capture.Backend.{FrameData, MonitorInfo, rgba8888}

pub record WindowsDxgiCaptureBackend : Type 0 where
  pub is_capturing : Bool
  pub initialized : Bool
  pub joinable : Bool
  pub current_monitor_id : ℕ
  pub frame_counter : ℕ

abbrev pub new_capture : WindowsDxgiCaptureBackend
new_capture = record {
  is_capturing = false;
  initialized = false;
  joinable = false;
  current_monitor_id = 0;
  frame_counter = 0;
}

unfoldable pub initialize : WindowsDxgiCaptureBackend → Bool × WindowsDxgiCaptureBackend
initialize c = (true, record c { initialized = true })

-- What Windows says of a device that it lists: the flags, and the mode if there is one.
pub record DisplayDevice : Type 0 where
  pub attached : Bool
  pub primary : Bool
  pub device_string : Text
  -- width, height, x and y
  pub mode : Option (ℕ × ℕ × ℕ × ℕ)

-- The devices from a number on.
unfoldable pub device_monitors : List DisplayDevice → ℕ → List MonitorInfo
device_monitors [] device_num = []
device_monitors (dd ∷ devices) device_num =
    (if not dd.attached then [] else elim dd.mode [
      | none ↦ []
      | some (width, height, x, y) ↦
          record {
            monitor_id = device_num;
            name = dd.device_string;
            width = width;
            height = height;
            offset_x = x;
            offset_y = y;
            is_primary = dd.primary;
          }
          ∷ []
    ])
    ++ device_monitors devices (device_num + 1)

-- Outside Windows there are no devices.
unfoldable pub enumerate_monitors : List DisplayDevice → List MonitorInfo
enumerate_monitors devices =
    let monitors = device_monitors devices 0 in
    if not (is_empty monitors)
    then monitors
    else record {
      monitor_id = 0;
      name = literal "Primary Display";
      width = 1920;
      height = 1080;
      offset_x = 0;
      offset_y = 0;
      is_primary = true;
    }
      ∷ []

unfoldable pub select_monitor : ℕ → WindowsDxgiCaptureBackend → Bool × WindowsDxgiCaptureBackend
select_monitor monitor_id c = (true, record c { current_monitor_id = monitor_id })

unfoldable pub start_capture : WindowsDxgiCaptureBackend → Option (Bool × WindowsDxgiCaptureBackend)
start_capture c =
    if c.is_capturing
    then some (true, c)
    else if c.joinable
    then none
    else some (true, record c { is_capturing = true; joinable = true })

-- The thread's loop ends when it sees the flag, and is waited for. The destructor does the same.
unfoldable pub stop_capture : WindowsDxgiCaptureBackend → WindowsDxgiCaptureBackend
stop_capture c =
    if not c.is_capturing then c else record c { is_capturing = false; joinable = false }

-- The size of the picture, in pixels.
unfoldable pub frame_width : ℕ
frame_width = 1920

unfoldable pub frame_height : ℕ
frame_height = 1080

unfoldable pub capture_single_frame :
    ℕ → WindowsDxgiCaptureBackend → Option FrameData × WindowsDxgiCaptureBackend
capture_single_frame now c =
    let c1 = record c { frame_counter = (c.frame_counter + 1) % 2 ^ 64 } in
    (
      some (record {
        width = frame_width;
        height = frame_height;
        stride = frame_width * 4;
        format = rgba8888;
        frame_number = c1.frame_counter;
        timestamp_us = now;
        pixel_data = replicate (frame_width * 4 * frame_height) 0x1E;
      }),
      c1,
    )

-- `CrossPlatformDummyCapture`, whose only state is the chosen monitor.
abbrev pub dummy_monitors : List MonitorInfo
dummy_monitors =
    record {
      monitor_id = 0;
      name = literal "Primary Display";
      width = 1920;
      height = 1080;
      offset_x = 0;
      offset_y = 0;
      is_primary = true;
    }
    ∷ record {
      monitor_id = 1;
      name = literal "Secondary Display";
      width = 2560;
      height = 1440;
      offset_x = 1920;
      offset_y = 0;
      is_primary = false;
    }
    ∷ []

unfoldable pub dummy_capture_single_frame : ℕ → Option FrameData × ℕ
dummy_capture_single_frame active_monitor_id = (none, active_monitor_id)

unfoldable pub dummy_select_monitor : ℕ → ℕ → Bool × ℕ
dummy_select_monitor monitor_id active_monitor_id = (true, monitor_id)
