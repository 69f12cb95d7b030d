-- ===== src/Capture/Drm.antt =====
-- libs/capture/src/LinuxDrmCapture.cpp: capture without a display server, and its thread. Assigning a
-- `std::thread` that is still joinable ends the process, which is `none`.
use remote_access_platform.Prelude.{
  ℕ, ◌+◌, ◌*◌, ◌%◌, ◌^◌, List, [], ◌∷◌, Bool, true, false, not, Option, none, some, ◌==◌,
  if◌then◌else◌,
}
use remote_access_platform.Qt.{literal}
use remote_access_platform.Capture.Backend.{FrameData, MonitorInfo, rgba8888, fill}

-- No file descriptor is the -1 of the source.
pub record LinuxDrmCapture : Type 0 where
  pub is_capturing : Bool
  pub initialized : Bool
  pub joinable : Bool
  pub width : ℕ
  pub height : ℕ
  pub stride : ℕ
  pub frame_counter : ℕ
  pub drm_fd : Option ℕ
  pub active_monitor_id : ℕ

abbrev pub new_capture : LinuxDrmCapture
new_capture = record {
  is_capturing = false;
  initialized = false;
  joinable = false;
  width = 1920;
  height = 1080;
  stride = 7680;
  frame_counter = 0;
  drm_fd = none;
  active_monitor_id = 0;
}

-- What `open` returns for the card and for the frame buffer.
pub record Devices : Type 0 where
  pub card : Option ℕ
  pub framebuffer : Option ℕ

module _ (devices : Devices) where
  abbrev pub device_of : Option ℕ
  device_of = elim devices.card [ none ↦ devices.framebuffer | some fd ↦ some fd ]

  unfoldable pub initialize : LinuxDrmCapture → Bool × LinuxDrmCapture
  initialize c =
      if c.initialized
      then (true, c)
      else (true, record c { drm_fd = device_of; initialized = true })

  -- `m_initialized || initialize()`, and the object after it.
  unfoldable pub ensure_initialized : LinuxDrmCapture → Bool × LinuxDrmCapture
  ensure_initialized c = if c.initialized then (true, c) else initialize c

  unfoldable pub start_capture : LinuxDrmCapture → Option (Bool × LinuxDrmCapture)
  start_capture c =
      let r = ensure_initialized c in
      if not r.0
      then some (false, r.1)
      else if r.1.is_capturing
      then some (true, r.1)
      else if r.1.joinable
      then none
      else some (true, record r.1 { is_capturing = true; joinable = true })

  unfoldable pub capture_single_frame : ℕ → LinuxDrmCapture → Option FrameData × LinuxDrmCapture
  capture_single_frame now c =
      let r = ensure_initialized c in
      let c1 = record r.1 { frame_counter = (r.1.frame_counter + 1) % 2 ^ 64 } in
      if not r.0 then (none, r.1) else (
        some (record {
          width = c1.width;
          height = c1.height;
          stride = c1.stride;
          format = rgba8888;
          frame_number = c1.frame_counter;
          timestamp_us = now;
          pixel_data =
              fill (c1.width * c1.height % 2 ^ 32) ((0xFF101010 + c1.frame_counter % 255) % 2 ^ 32);
        }),
        c1,
      )

-- The thread's loop ends when it sees the flag, and is waited for.
unfoldable pub stop_capture : LinuxDrmCapture → LinuxDrmCapture
stop_capture c =
    if not c.is_capturing then c else record c { is_capturing = false; joinable = false }

unfoldable pub enumerate_monitors : LinuxDrmCapture → List MonitorInfo
enumerate_monitors c =
    record {
      monitor_id = 0;
      name = literal "Primary Display (DRM/KMS)";
      width = c.width;
      height = c.height;
      offset_x = 0;
      offset_y = 0;
      is_primary = true;
    }
    ∷ []

unfoldable pub select_monitor : ℕ → LinuxDrmCapture → Bool × LinuxDrmCapture
select_monitor monitor_id c =
    if monitor_id == 0 then (true, record c { active_monitor_id = 0 }) else (false, c)

-- The destructor.
unfoldable pub destroy : LinuxDrmCapture → LinuxDrmCapture
destroy c = record (stop_capture c) { drm_fd = none }
