-- ===== src/Tests/Tools.antt =====
-- The capture, the mobile functions and the client's tools at concrete inputs.
use remote_access_platform.Prelude.{
  same, ℕ, ◌+◌, ◌≤◌, ◌<◌, ◌≡◌, refl, List, [], ◌∷◌, true, false, some, arith, length,
}
use remote_access_platform.Capture.Dirty.{
  differs, scan_row, scan_rows, rect_of, detect_dirty_region,
}
use remote_access_platform.Capture.Dirty.Cover.{detect_dirty_region_covers}
use remote_access_platform.Mobile.{success, encode_packet, decode_packet}
use remote_access_platform.Mobile.RoundTrip.{decode_packet-encode_packet}
use remote_access_platform.Client.Tools.{Tools, toggle_session_recording, update_recording_timer}
use remote_access_platform.Client.Tools.Recording.{
  started, ticked, toggle_session_recording-Recorded,
}

-- A frame of three by two pixels of one byte, and the next one.
abbrev first_frame : List ℕ
first_frame = 1 ∷ 2 ∷ 3 ∷ 4 ∷ 5 ∷ 6 ∷ []

abbrev second_frame : List ℕ
second_frame = 1 ∷ 2 ∷ 3 ∷ 4 ∷ 9 ∷ 9 ∷ []

detect_second :
    detect_dirty_region (some first_frame) (some second_frame) 3 2 1
    ≡ record { x = 1; y = 1; width = 2; height = 1; is_dirty = true }
unfolding detect_dirty_region scan_rows scan_row differs rect_of same
detect_second = refl

second_changed : differs 1 1 (4 ∷ 5 ∷ 6 ∷ []) (4 ∷ 9 ∷ 9 ∷ []) ≡ true
unfolding differs same
second_changed = refl

detect_dirty_region_covers_example :
    let r = detect_dirty_region (some first_frame) (some second_frame) 3 2 1 in
    (r.is_dirty ≡ true)
    × (r.x ≤ 1)
    × (1 < r.x + r.width)
    × (r.y ≤ 1)
    × (1 < r.y + r.height)
    × (r.x + r.width ≤ 3)
    × (r.y + r.height ≤ 2)
detect_dirty_region_covers_example =
    detect_dirty_region_covers 3 1 first_frame second_frame 2 1 1 (omega arith) (omega arith)
      (omega arith) (omega arith) (omega arith) second_changed

decode_packet-encode_packet_example :
    (bytes : List ℕ) × (encode_packet 5 1 2 (some (7 ∷ [])) true 64 ≡ (success, some bytes))
    × (length bytes ≡ 29)
    × (decode_packet (some bytes) true ≡ (
      success,
      some (record {
        payload_type = 5;
        sequence_num = 1;
        timestamp_ms = 2;
        payload_size = 1;
        payload_data = some (7 ∷ []);
      }),
    ))
decode_packet-encode_packet_example =
    decode_packet-encode_packet 5 1 2 64 (some (7 ∷ []))
      (record {
        type_fits = omega arith;
        sequence_number_fits = omega arith;
        timestamp_ms_fits = omega arith;
        payload_fits = omega arith;
      })
      (omega arith)

abbrev tools : Tools
tools = record {
  audio_muted = false;
  is_recording = false;
  recording_duration_sec = 9;
  recording_timer = false;
  is_pip_mode = false;
  current_language = [];
  transfer_queue = [];
  tool_outputs = [];
}

abbrev one_second : Tools
one_second = update_recording_timer (toggle_session_recording tools)

toggle_session_recording-Recorded_example :
    (one_second.is_recording ≡ true)
    × (one_second.recording_timer ≡ true)
    × (one_second.recording_duration_sec ≡ 1)
    × ((toggle_session_recording one_second).is_recording ≡ false)
    × ((toggle_session_recording one_second).recording_timer ≡ false)
    × ((toggle_session_recording one_second).recording_duration_sec ≡ 1)
    × (update_recording_timer (toggle_session_recording one_second)
        ≡ toggle_session_recording one_second)
toggle_session_recording-Recorded_example =
    toggle_session_recording-Recorded (λ path. path) (λ text. text) (λ text. []) one_second 1
      (omega arith) (ticked (toggle_session_recording tools) 0 (started tools refl))
