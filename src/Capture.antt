-- ===== src/Capture.antt =====
-- libs/capture: frames, where they come from, and which part of one changed.
pub mod Backend
pub mod Bitrate
pub mod Dirty
pub mod Drm
pub mod Dxgi
pub mod Threads
pub mod Pictures
pub mod Shield
pub mod X11
use remote_access_platform.Prelude.{List, [], ◌∷◌, Option, none, some}
use remote_access_platform.Qt.{Text}

pub data BackendKind : Type 0 where
  linux_drm_capture linux_x11_capture : BackendKind

-- `CaptureBackendFactory::createDefaultBackend` on Linux; the argument is what $DISPLAY holds.
unfoldable pub create_default_backend : Option Text → BackendKind
create_default_backend none = linux_drm_capture
create_default_backend (some []) = linux_drm_capture
create_default_backend (some (c ∷ display)) = linux_x11_capture
