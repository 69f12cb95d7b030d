-- ===== src/Capture/X11/Loop.antt =====
-- The thread of the X capture: starting it, its loop, and stopping it. Assigning a `std::thread` that is
-- still joinable ends the process, which is `none`.
use remote_access_platform.Prelude.{Bool, true, false, Option, none, some, if◌then◌else◌}

pub record CaptureThread : Type 0 where
  pub is_capturing : Bool
  pub stop_requested : Bool
  pub joinable : Bool

abbrev pub no_thread : CaptureThread
no_thread = record { is_capturing = false; stop_requested = false; joinable = false }

unfoldable pub start_capture : CaptureThread → Option (Bool × CaptureThread)
start_capture t =
    if t.is_capturing
    then some (false, t)
    else if t.joinable
    then none
    else some (true, record { is_capturing = true; stop_requested = false; joinable = true })

-- The end of the loop, when it sees the request.
unfoldable pub end_loop : CaptureThread → CaptureThread
end_loop t = if t.stop_requested then record t { is_capturing = false } else t

-- `stopCaptureInternal`: the request, the end of the loop that `join` waits for, the flag.
unfoldable pub stop_capture : CaptureThread → CaptureThread
unfolding end_loop
stop_capture t =
    if t.is_capturing
    then (let t1 = end_loop (record t { stop_requested = true }) in
        record t1 { joinable = false; is_capturing = false })
    else t
