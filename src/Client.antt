-- ===== src/Client.antt =====
-- apps/client/src/SessionClient.h and SessionClient.cpp: the state of a session with a remote agent, what
-- its slots do to the world, and the parts that they share. The slots are in the modules below.
pub mod Send
pub mod Connection
pub mod Receive
pub mod Login
pub mod Terminal
pub mod Tools
pub mod Transfers
pub mod Slots
pub mod Start
pub mod Theme
pub mod Telemetry
use remote_access_platform.Prelude.{
  ℕ, ◌+◌, List, [], ◌∷◌, ◌++◌, Bool, true, false, ◌&&◌, not, Option, none, some, if◌then◌else◌,
  is_empty, same,
}
use remote_access_platform.Qt.{Text, literal}

-- `QAbstractSocket::SocketState`
pub data SocketState : Type 0 where
  unconnected_state host_lookup_state connecting_state connected_state : SocketState
  bound_state closing_state listening_state : SocketState

pub record HistoryRecord : Type 0 where
  pub target : Text
  pub timestamp : Text
  pub duration : Text
  pub status : Text
  pub reason : Text

-- The image that is shown: `QImage(pixels, width, height, width * 4, Format_RGBA8888)`.
pub record Image : Type 0 where
  pub pixels : List ℕ
  pub width : ℕ
  pub height : ℕ

-- What a slot does to the world, in order: calls of Qt, and signals under their own names.
pub data Output : Type 0 where
  wrote : List ℕ → Output
  called_connect : Text → ℕ → Output
  started_reconnect_timer : ℕ → Output
  stopped_reconnect_timer : Output
  set_clipboard : Text → Output
  updated_frame : Image → Output
  saved_history : List HistoryRecord → Output
  connection_state_changed : Bool → Output
  status_text_changed : Text → Output
  is_reconnecting_changed : Bool → Output
  reconnect_attempts_changed : ℕ → Output
  connection_history_changed : List HistoryRecord → Output
  privacy_mode_changed : Bool → Output
  clipboard_text_received : Text → Output
  chat_message_received : Text → Text → Text → Output
  terminal_output_changed : Text → Output
  terminal_output_received : Text → Output

-- The members that the slots below use. Those of the socket are what Qt reports of it.
pub record Session : Type 0 where
  pub socket_is_open : Bool
  pub socket_state : SocketState
  pub is_connected : Bool
  pub render_gated : Bool
  pub status_text : Text
  pub last_connected_target : Text
  pub requested_password : Text
  pub receive_buffer : List ℕ
  pub received_frames : ℕ
  pub input_sequence : ℕ
  pub last_clipboard_text : Text
  pub is_reconnecting : Bool
  pub reconnect_attempts : ℕ
  pub user_initiated_disconnect : Bool
  pub last_host : Text
  pub last_port : ℕ
  pub connection_history : List HistoryRecord
  pub session_start_time_ms : ℕ
  pub privacy_mode : Bool
  pub terminal_output : Text
  pub outputs : List Output

-- The key that every slot writes out.
abbrev pub session_key : List ℕ
session_key =
    0x01 ∷ 0x02 ∷ 0x03 ∷ 0x04 ∷ 0x05 ∷ 0x06 ∷ 0x07 ∷ 0x08 ∷ 0x09 ∷ 0x0A ∷ 0x0B ∷ 0x0C ∷ 0x0D ∷ 0x0E
    ∷ 0x0F ∷ 0x10 ∷ 0x11 ∷ 0x12 ∷ 0x13 ∷ 0x14 ∷ 0x15 ∷ 0x16 ∷ 0x17 ∷ 0x18 ∷ 0x19 ∷ 0x1A ∷ 0x1B
    ∷ 0x1C ∷ 0x1D ∷ 0x1E ∷ 0x1F ∷ 0x20 ∷ []

-- `maxReconnectAttempts_`
abbrev pub max_reconnect_attempts : ℕ
max_reconnect_attempts = 5

abbrev pub put : Output → Session → Session
put o s = record s { outputs = s.outputs ++ (o ∷ []) }

abbrev pub is_connected_state : SocketState → Bool
is_connected_state connected_state = true
is_connected_state unconnected_state = false
is_connected_state host_lookup_state = false
is_connected_state connecting_state = false
is_connected_state bound_state = false
is_connected_state closing_state = false
is_connected_state listening_state = false

-- `socket_.isOpen() && socket_.state() == ConnectedState`
unfoldable pub can_send : Session → Bool
can_send s = s.socket_is_open && is_connected_state s.socket_state

unfoldable pub set_status : Text → Session → Session
set_status status s =
    if same s.status_text status
    then s
    else put (status_text_changed status) (record s { status_text = status })

unfoldable pub set_render_gated : Bool → Session → Session
set_render_gated gated s = record s { render_gated = gated }

-- `isReconnecting_ = false` with its signal, where it was set.
unfoldable pub end_reconnecting : Session → Session
end_reconnecting s =
    if s.is_reconnecting
    then put (is_reconnecting_changed false) (record s { is_reconnecting = false })
    else s

-- `lastConnectedTarget_.isEmpty() ? "Remote Desk" : lastConnectedTarget_`
unfoldable pub target_name : Session → Text
target_name s =
    if is_empty s.last_connected_target then literal "Remote Desk" else s.last_connected_target

abbrev pub is_unconnected_state : SocketState → Bool
is_unconnected_state unconnected_state = true
is_unconnected_state host_lookup_state = false
is_unconnected_state connecting_state = false
is_unconnected_state connected_state = false
is_unconnected_state bound_state = false
is_unconnected_state closing_state = false
is_unconnected_state listening_state = false
