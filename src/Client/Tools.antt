-- ===== src/Client/Tools.antt =====
-- The tools of SessionClient.cpp beside the connection: recording, sound, the small window, the language,
-- the queue of transfers, and waking a computer.
pub mod Recording
use remote_access_platform.Prelude.{
  ℕ, zero, suc, ◌+◌, ◌%◌, ◌^◌, List, [], ◌∷◌, ◌++◌, Bool, true, false, not, Option, none, some,
  length, take, drop, replicate, ltb, ◌==◌, if◌then◌else◌, same,
}
use remote_access_platform.Qt.{Text, literal}

-- An item of `transferQueue_`; its status is Queued and its progress 0 from here.
pub record QueueItem : Type 0 where
  pub file_name : Text
  pub local_path : Text
  pub remote_path : Text
  pub is_upload : Bool

-- Signals under their own names, and the calls that leave this part.
pub data ToolOutput : Type 0 where
  audio_muted_changed : Bool → ToolOutput
  is_recording_changed : Bool → ToolOutput
  recording_duration_sec_changed : ℕ → ToolOutput
  is_pip_mode_changed : Bool → ToolOutput
  current_language_changed : Text → ToolOutput
  transfer_queue_changed : ToolOutput
  called_upload : Text → Text → ToolOutput
  called_download : Text → Text → ToolOutput
  wrote_datagram : List ℕ → ℕ → ToolOutput

pub record Tools : Type 0 where
  pub audio_muted : Bool
  pub is_recording : Bool
  pub recording_duration_sec : ℕ
  -- whether `recordingTimer_` runs
  pub recording_timer : Bool
  pub is_pip_mode : Bool
  pub current_language : Text
  pub transfer_queue : List QueueItem
  pub tool_outputs : List ToolOutput

abbrev pub emit : ToolOutput → Tools → Tools
emit o s = record s { tool_outputs = s.tool_outputs ++ (o ∷ []) }

unfoldable pub toggle_audio_mute : Tools → Tools
toggle_audio_mute s =
    emit (audio_muted_changed (not s.audio_muted)) (record s { audio_muted = not s.audio_muted })

unfoldable pub toggle_session_recording : Tools → Tools
toggle_session_recording s =
    let s1 =
      emit (is_recording_changed (not s.is_recording))
        (record s { is_recording = not s.is_recording }) in
    if s1.is_recording
    then record (emit (recording_duration_sec_changed 0)
        (record s1 { recording_duration_sec = 0 })) { recording_timer = true }
    else record s1 { recording_timer = false }

-- The counter is an `int`, here its bit pattern; its overflow is undefined in C++.
unfoldable pub update_recording_timer : Tools → Tools
update_recording_timer s =
    if s.is_recording
    then emit (recording_duration_sec_changed ((s.recording_duration_sec + 1) % 2 ^ 32))
        (record s { recording_duration_sec = (s.recording_duration_sec + 1) % 2 ^ 32 })
    else s

unfoldable pub toggle_pip_mode : Tools → Tools
toggle_pip_mode s =
    emit (is_pip_mode_changed (not s.is_pip_mode)) (record s { is_pip_mode = not s.is_pip_mode })

unfoldable pub set_language : Text → Tools → Tools
set_language language s =
    if same s.current_language language
    then s
    else emit (current_language_changed language) (record s { current_language = language })

-- `QFileInfo(path).fileName()` is an argument.
unfoldable pub en_queue_transfer : (Text → Text) → Text → Text → Bool → Tools → Tools
en_queue_transfer file_name local_path remote_path is_upload s =
    let item : QueueItem = record {
      file_name = file_name (if is_upload then local_path else remote_path);
      local_path = local_path;
      remote_path = remote_path;
      is_upload = is_upload;
    } in
    let s1 =
      emit transfer_queue_changed (record s { transfer_queue = s.transfer_queue ++ (item ∷ []) }) in
    if length s1.transfer_queue == 1
    then emit
        (if is_upload
          then called_upload local_path remote_path
          else called_download remote_path local_path)
        s1
    else s1

-- `none` is a negative index.
unfoldable pub cancel_queue_item : Option ℕ → Tools → Tools
cancel_queue_item none s = s
cancel_queue_item (some index) s =
    if ltb index (length s.transfer_queue)
    then emit transfer_queue_changed (record s {
      transfer_queue = take index s.transfer_queue ++ drop (index + 1) s.transfer_queue;
    })
    else s

unfoldable pub clear_queue : Tools → Tools
clear_queue s = emit transfer_queue_changed (record s { transfer_queue = [] })

-- `packet.append(macBytes)`, as often as the first argument says.
unfoldable pub repeat : ℕ → List ℕ → List ℕ
repeat zero mac = []
repeat (suc n) mac = mac ++ repeat n mac

-- `clean` is the removal of colons, dashes and spaces, `from_hex` is `QByteArray::fromHex`.
unfoldable pub send_wake_on_lan : (Text → Text) → (Text → List ℕ) → Text → Tools → Tools
send_wake_on_lan clean from_hex mac_address s =
    let clean_mac = clean mac_address in
    if not (length clean_mac == 12)
    then s
    else emit (wrote_datagram (replicate 6 0xFF ++ repeat 16 (from_hex clean_mac)) 9) s
