-- ===== src/Client/Tools/Recording.antt =====
-- The recording's clock.
use remote_access_platform.Prelude.{
  ℕ, ◌+◌, ◌^◌, ◌<◌, ◌≡◌, refl, ◌∙◌, List, Bool, true, false, Option, none, some, arith,
}
use remote_access_platform.Qt.{Text}
use remote_access_platform.Client.Tools.{
  Tools, toggle_audio_mute, toggle_session_recording, update_recording_timer, toggle_pip_mode,
  set_language, en_queue_transfer, cancel_queue_item, clear_queue, send_wake_on_lan,
}

-- A call of a slot that has nothing to do with recording. What the slots take from Qt is fixed.
pub data Call (file_name clean : Text → Text) (from_hex : Text → List ℕ) (s t : Tools)
    : Type 0 where
  mute : t ≡ toggle_audio_mute s → Call file_name clean from_hex s t
  pip : t ≡ toggle_pip_mode s → Call file_name clean from_hex s t
  language : (l : Text) → t ≡ set_language l s → Call file_name clean from_hex s t
  en_queue :
      (local remote : Text) (upload : Bool)
      → t ≡ en_queue_transfer file_name local remote upload s
      → Call file_name clean from_hex s t
  cancel : (i : Option ℕ) → t ≡ cancel_queue_item i s → Call file_name clean from_hex s t
  clear : t ≡ clear_queue s → Call file_name clean from_hex s t
  wake :
      (mac : Text) → t ≡ send_wake_on_lan clean from_hex mac s → Call file_name clean from_hex s t

-- What recording depends on is kept.
record Keeps (s t : Tools) : Type 0 where
  recording : t.is_recording ≡ s.is_recording
  timer : t.recording_timer ≡ s.recording_timer
  duration : t.recording_duration_sec ≡ s.recording_duration_sec

module _ (file_name clean : Text → Text) (from_hex : Text → List ℕ) where
  -- A recording that goes on, and the seconds that its timer has counted.
  pub data Recorded : Tools → ℕ → Type 0 where
    started : (s : Tools) → s.is_recording ≡ false → Recorded (toggle_session_recording s) 0
    ticked : (s : Tools) (n : ℕ) → Recorded s n → Recorded (update_recording_timer s) (n + 1)
    called : (s t : Tools) (n : ℕ) → Recorded s n → Call file_name clean from_hex s t → Recorded t n

  Call-Keeps : (s t : Tools) → Call file_name clean from_hex s t → Keeps s t
  unfolding toggle_audio_mute toggle_pip_mode set_language en_queue_transfer cancel_queue_item
      clear_queue send_wake_on_lan
  Call-Keeps s t (mute e) = rw e (record { recording = refl; timer = refl; duration = refl })
  Call-Keeps s t (pip e) = rw e (record { recording = refl; timer = refl; duration = refl })
  Call-Keeps s t (language l e) = record {
    recording = ground arith;
    timer = ground arith;
    duration = ground arith;
  }
  Call-Keeps s t (en_queue l r u e) = record {
    recording = ground arith;
    timer = ground arith;
    duration = ground arith;
  }
  Call-Keeps s t (cancel none e) = rw e (record { recording = refl; timer = refl; duration = refl })
  Call-Keeps s t (cancel (some i) e) = record {
    recording = ground arith;
    timer = ground arith;
    duration = ground arith;
  }
  Call-Keeps s t (clear e) = rw e (record { recording = refl; timer = refl; duration = refl })
  Call-Keeps s t (wake mac e) = record {
    recording = ground arith;
    timer = ground arith;
    duration = ground arith;
  }

  pub record IsRecording (s : Tools) (n : ℕ) : Type 0 where
    pub recording : s.is_recording ≡ true
    pub timer : s.recording_timer ≡ true
    pub duration : s.recording_duration_sec ≡ n

  Recorded-IsRecording : (s : Tools) (n : ℕ) → n < 2 ^ 31 → Recorded s n → IsRecording s n
  unfolding toggle_session_recording update_recording_timer
  Recorded-IsRecording s n small (started u h) = record {
    recording = ground arith;
    timer = ground arith;
    duration = ground arith;
  }
  Recorded-IsRecording s n small (ticked u m r) =
      let before = Recorded-IsRecording u m (omega arith) r in
      let on = before.recording in
      let timer_on = before.timer in
      let count = before.duration in
      record { recording = ground arith; timer = ground arith; duration = ground arith }
  Recorded-IsRecording s n small (called u t m r c) =
      let before = Recorded-IsRecording u m small r in
      let kept = Call-Keeps u t c in
      record {
        recording = kept.recording ∙ before.recording;
        timer = kept.timer ∙ before.timer;
        duration = kept.duration ∙ before.duration;
      }

  -- During a recording of less than 2 ^ 31 ticks, whatever other tools are used, the clock runs
  -- and its duration is the number of times that it ticked; stopping keeps the duration, stops the
  -- clock, and a late tick changes nothing.
  pub toggle_session_recording-Recorded :
      (s : Tools) (n : ℕ)
      → n < 2 ^ 31
      → Recorded s n
      → (s.is_recording ≡ true)
        × (s.recording_timer ≡ true)
        × (s.recording_duration_sec ≡ n)
        × ((toggle_session_recording s).is_recording ≡ false)
        × ((toggle_session_recording s).recording_timer ≡ false)
        × ((toggle_session_recording s).recording_duration_sec ≡ n)
        × (update_recording_timer (toggle_session_recording s) ≡ toggle_session_recording s)
  unfolding toggle_session_recording update_recording_timer
  toggle_session_recording-Recorded s n small r =
      let now = Recorded-IsRecording s n small r in
      let on = now.recording in
      let count = now.duration in
      (on, now.timer, count, ground arith, ground arith, ground arith, ground arith)
