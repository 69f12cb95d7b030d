-- ===== src/Capture/Threads.antt =====
-- Starting and stopping the thread of a capture backend, in any order.
use remote_access_platform.Prelude.{
  ◌≡◌, inl, inr, refl, sym, ◌∙◌, List, [], ◌∷◌, Bool, true, false, Option, none, some, arith,
  Bool-cases,
}
use remote_access_platform.Capture.X11.Loop
use remote_access_platform.Capture.X11.Loop.{CaptureThread, no_thread}
use remote_access_platform.Capture.Drm
use remote_access_platform.Capture.Drm.{LinuxDrmCapture, Devices}
use remote_access_platform.Capture.Dxgi
use remote_access_platform.Capture.Dxgi.{WindowsDxgiCaptureBackend}

-- What the owner calls.
pub data Call : Type 0 where
  start stop : Call

-- Whether there is a thread after the calls, given whether there was one before.
abbrev pub running_after : Bool → List Call → Bool
running_after running [] = running
running_after running (Call.start ∷ calls) = running_after true calls
running_after running (Call.stop ∷ calls) = running_after false calls

-- A backend with a thread: the flag that its loop reads, and whether the thread object stands for a
-- thread. In a settled state they agree.
pub record ThreadOwner : Type 1 where
  pub S : Type 0
  pub start : S → Option (Bool × S)
  pub stop : S → S
  pub flag : S → Bool
  pub joinable : S → Bool
  pub start_settled :
      (s : S)
      → flag s ≡ joinable s
      → (r : Bool) × (t : S) × (start s ≡ some (r, t)) × (flag t ≡ true) × (joinable t ≡ true)
  pub stop_settled :
      (s : S) → flag s ≡ joinable s → (flag (stop s) ≡ false) × (joinable (stop s) ≡ false)

-- `none` is the end of the process.
unfoldable pub run_calls : (o : ThreadOwner) → List Call → o.S → Option o.S
run_calls o [] s = some s
run_calls o (Call.start ∷ calls) s = elim (o.start s) [
  | none ↦ none
  | some (r, t) ↦ run_calls o calls t
]
run_calls o (Call.stop ∷ calls) s = run_calls o calls (o.stop s)

-- The calls all return, and leave the flag and the thread as the last of them says.
abbrev pub Settles : (o : ThreadOwner) → Bool → List Call → o.S → Type 0
Settles o b calls s =
    (t : o.S) × (run_calls o calls s ≡ some t)
    × (o.flag t ≡ running_after b calls)
    × (o.joinable t ≡ running_after b calls)

run_calls-Settles :
    (o : ThreadOwner) (b : Bool) (calls : List Call) (s : o.S)
    → o.flag s ≡ b
    → o.joinable s ≡ b
    → Settles o b calls s
unfolding run_calls
run_calls-Settles o b [] s f j = (s, refl, f, j)
run_calls-Settles o b (Call.start ∷ calls) s f j =
    let (r, t, e, f', j') = o.start_settled s (f ∙ sym j) in
    rw (e, run_calls) (run_calls-Settles o true calls t f' j')
run_calls-Settles o b (Call.stop ∷ calls) s f j =
    let (f', j') = o.stop_settled s (f ∙ sym j) in run_calls-Settles o false calls (o.stop s) f' j'

pub x11_start_settled :
    (s : CaptureThread)
    → s.is_capturing ≡ s.joinable
    → (r : Bool) × (t : CaptureThread) × (Loop.start_capture s ≡ some (r, t))
      × (t.is_capturing ≡ true)
      × (t.joinable ≡ true)
unfolding Loop.start_capture
x11_start_settled s h = elim (Bool-cases s.is_capturing) [
  | inl e ↦ (false, s, ground (arith, e), e, cc)
  | inr e ↦ (
    true,
    record { is_capturing = true; stop_requested = false; joinable = true },
    ground (arith, e),
    refl,
    refl,
  )
]

pub x11_stop_settled :
    (s : CaptureThread)
    → s.is_capturing ≡ s.joinable
    → ((Loop.stop_capture s).is_capturing ≡ false) × ((Loop.stop_capture s).joinable ≡ false)
unfolding Loop.stop_capture
x11_stop_settled s h = ground arith

abbrev pub x11_owner : ThreadOwner
x11_owner = record {
  S = CaptureThread;
  start = Loop.start_capture;
  stop = Loop.stop_capture;
  flag = λ t. t.is_capturing;
  joinable = λ t. t.joinable;
  start_settled = x11_start_settled;
  stop_settled = x11_stop_settled;
}

pub drm_start_settled :
    (devices : Devices) (s : LinuxDrmCapture)
    → s.is_capturing ≡ s.joinable
    → (r : Bool) × (t : LinuxDrmCapture) × (Drm.start_capture devices s ≡ some (r, t))
      × (t.is_capturing ≡ true)
      × (t.joinable ≡ true)
unfolding Drm.start_capture Drm.ensure_initialized Drm.initialize
drm_start_settled devices s h =
    let ready = (Drm.ensure_initialized devices s).1 in
    (true, record ready { is_capturing = true; joinable = true }, ground arith, refl, refl)

pub drm_stop_settled :
    (s : LinuxDrmCapture)
    → s.is_capturing ≡ s.joinable
    → ((Drm.stop_capture s).is_capturing ≡ false) × ((Drm.stop_capture s).joinable ≡ false)
unfolding Drm.stop_capture
drm_stop_settled s h = ground arith

abbrev pub drm_owner : Devices → ThreadOwner
drm_owner devices = record {
  S = LinuxDrmCapture;
  start = Drm.start_capture devices;
  stop = Drm.stop_capture;
  flag = λ c. c.is_capturing;
  joinable = λ c. c.joinable;
  start_settled = drm_start_settled devices;
  stop_settled = drm_stop_settled;
}

pub dxgi_start_settled :
    (s : WindowsDxgiCaptureBackend)
    → s.is_capturing ≡ s.joinable
    → (r : Bool) × (t : WindowsDxgiCaptureBackend) × (Dxgi.start_capture s ≡ some (r, t))
      × (t.is_capturing ≡ true)
      × (t.joinable ≡ true)
unfolding Dxgi.start_capture
dxgi_start_settled s h =
    (true, record s { is_capturing = true; joinable = true }, ground arith, refl, refl)

pub dxgi_stop_settled :
    (s : WindowsDxgiCaptureBackend)
    → s.is_capturing ≡ s.joinable
    → ((Dxgi.stop_capture s).is_capturing ≡ false) × ((Dxgi.stop_capture s).joinable ≡ false)
unfolding Dxgi.stop_capture
dxgi_stop_settled s h = ground arith

abbrev pub dxgi_owner : ThreadOwner
dxgi_owner = record {
  S = WindowsDxgiCaptureBackend;
  start = Dxgi.start_capture;
  stop = Dxgi.stop_capture;
  flag = λ c. c.is_capturing;
  joinable = λ c. c.joinable;
  start_settled = dxgi_start_settled;
  stop_settled = dxgi_stop_settled;
}

-- From a new object on, no order of starts and stops makes any of the backends for X11, DRM and
-- DXGI replace a thread that is still running, and there is a thread, with the flag set, exactly
-- if the last call was a start.
pub run_calls_settled :
    (devices : Devices) (calls : List Call)
    → Settles x11_owner false calls no_thread
      × Settles (drm_owner devices) false calls Drm.new_capture
      × Settles dxgi_owner false calls Dxgi.new_capture
run_calls_settled devices calls = (
  run_calls-Settles x11_owner false calls no_thread refl refl,
  run_calls-Settles (drm_owner devices) false calls Drm.new_capture refl refl,
  run_calls-Settles dxgi_owner false calls Dxgi.new_capture refl refl,
)
