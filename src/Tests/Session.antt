-- ===== src/Tests/Session.antt =====
-- Slots, transfers and telemetry at concrete states.
use remote_access_platform.Prelude.{
  ℕ, ◌*◌, ◌/◌, ◌≤◌, ◌≡◌, length, refl, [], ◌∷◌, true, false, none, some, arith, if◌then◌else◌, ltb,
  ◌==◌,
}
use remote_access_platform.Tests.Host.{plain_text}
use remote_access_platform.Tests.Client.{desk}
use remote_access_platform.Client.Connection.{on_disconnected, connect_to_host}
use remote_access_platform.Client.Start.{Json, construct, load_connection_history}
use remote_access_platform.Client.{Session}
use remote_access_platform.Client.Slots.{Step, Reachable, Reachable-IsConsistent}
use remote_access_platform.Client.Slots.Kept.{IsConsistent}
use remote_access_platform.Client.Transfers.{
  Platform, Transfers, nothing, start_file_upload, start_file_download, pause_file_transfer,
}
use remote_access_platform.Client.Transfers.Outcomes.{
  Uploaded, completed_download, start_file_upload-Uploaded, start_file_download_paused,
}
use remote_access_platform.Client.Telemetry.{Doubles, Gauges}

-- Qt's JSON, where every file holds an empty array.
abbrev no_json : Json
no_json = record { from_json = λ bytes. some []; to_json = λ history. [] }

abbrev begun : Session
begun = construct no_json [] [] (some [])

-- The user connects, and the connection is lost.
abbrev lost : Session
lost =
    on_disconnected plain_text 63000 []
      (connect_to_host plain_text (λ s. s) (b'h' ∷ []) 18443 [] begun)

close-IsConsistent : (s : Session) → IsConsistent s → IsConsistent (desk.close s)
close-IsConsistent s v = record {
  few_attempts = v.few_attempts;
  short_history = v.short_history;
  wanted = v.wanted;
  counted = v.counted;
}

begun_history : length begun.connection_history ≤ 50
unfolding construct load_connection_history
begun_history = omega arith

Reachable-IsConsistent_example : IsConsistent lost
Reachable-IsConsistent_example =
    Reachable-IsConsistent desk (λ s. s) close-IsConsistent (λ s v. v) no_json [] [] (some []) lost
      begun_history
      (Reachable.after (Reachable.after Reachable.here (Step.connects (b'h' ∷ []) 18443 [] refl))
        (Step.disconnected 63000 [] refl))

abbrev platform : Platform
platform = record {
  qt = plain_text;
  file_name = λ path. path;
  mbps_text = λ bytes seconds. bytes ∷ seconds ∷ [];
  remove_all = λ path disk. disk;
}

-- Every path is the file 1, 2, 3, and no path is a directory.
abbrev files : Transfers
files = record {
  disk = record {
    read = λ path. some (1 ∷ 2 ∷ 3 ∷ []);
    entries_of = λ path. none;
    current_path = [];
  };
  transfer_progress = nothing;
  transfer_status = [];
  transfer_speed = [];
  directory_list = [];
  current_remote_path = [];
  local_directory_list = [];
  current_local_path = [];
  is_transfer_paused = false;
  current_transfer_bytes = 0;
  total_transfer_bytes = 0;
  transfer_outputs = [];
}

start_file_upload-Uploaded_example :
    (t : Transfers) × (start_file_upload platform (λ k. 1000 * k) 5 0 (b'f' ∷ []) files ≡ some t)
    × Uploaded platform files t 3
start_file_upload-Uploaded_example =
    start_file_upload-Uploaded platform (λ k. 1000 * k) 5 0 (b'f' ∷ []) (1 ∷ 2 ∷ 3 ∷ []) files
      (λ e. cc) refl (λ e. cc) (omega arith)

start_file_download_paused_example :
    (t : Transfers) × (start_file_download platform
        (λ k. 1000 * k)
        5
        0
        (b'f' ∷ [])
        (pause_file_transfer files)
      ≡ some t)
    × (t.transfer_status ≡ completed_download)
    × (t.current_transfer_bytes ≡ 0)
    × (t.transfer_progress ≡ nothing)
start_file_download_paused_example =
    start_file_download_paused platform (λ k. 1000 * k) 5 0 (b'f' ∷ []) (pause_file_transfer files)
      (λ e. cc) (unfold pause_file_transfer in refl)

-- Whole numbers for doubles.
abbrev whole : Doubles
whole = record {
  Double = ℕ;
  zero_point = 0;
  one_point = 1;
  less = ltb;
  same_double = ◌==◌;
  mbps = λ bytes. bytes * 8 / 1000000;
  apart = λ a b. if a == b then false else true;
}

abbrev gauges : Gauges ℕ
gauges = record {
  received_frames = 20;
  is_connected = true;
  fps = 0;
  latency_ms = 0;
  bitrate = 0;
  last_frame_count = 500;
  last_byte_count = 0;
  total_bytes_received = 0;
  current_monitor_id = 0;
  audio_volume = 1;
  bandwidth_cap_mbps = 0;
  gauge_outputs = [];
}
