-- ===== src/Client/Start.antt =====
-- The constructor and the destructor of SessionClient, and the history that is kept in a file. JSON is
-- Qt's, a parameter, and so are dates; a file is `some` of its bytes if it opens.
use remote_access_platform.Prelude.{
  ℕ, ◌≡◌, refl, ap, List, [], ◌∷◌, map, Bool, true, false, not, Option, none, some, if◌then◌else◌,
}
use remote_access_platform.Qt.{Text, literal}
use remote_access_platform.Client.{
  Session, unconnected_state, HistoryRecord, connection_history_changed, saved_history,
  terminal_output_changed, put,
}

-- The members as they are declared.
abbrev pub new_session : Session
new_session = record {
  socket_is_open = false;
  socket_state = unconnected_state;
  is_connected = false;
  render_gated = false;
  status_text = literal "Disconnected";
  last_connected_target = [];
  requested_password = [];
  receive_buffer = [];
  received_frames = 0;
  input_sequence = 0;
  last_clipboard_text = [];
  is_reconnecting = false;
  reconnect_attempts = 0;
  user_initiated_disconnect = false;
  last_host = [];
  last_port = 18443;
  connection_history = [];
  session_start_time_ms = 0;
  privacy_mode = false;
  terminal_output = [];
  outputs = [];
}

-- `QJsonDocument`: `none` is a document that is no array, and a value that is no object.
pub record Json : Type 0 where
  pub from_json : List ℕ → Option (List (Option HistoryRecord))
  pub to_json : List HistoryRecord → List ℕ

-- The records of the values that are objects.
abbrev pub objects : List (Option HistoryRecord) → List HistoryRecord
objects [] = []
objects (none ∷ vals) = objects vals
objects (some item ∷ vals) = item ∷ objects vals

-- The history that is shown where there is no file; the arguments are the times a day and two days ago.
abbrev pub sample_history : Text → Text → List HistoryRecord
sample_history yesterday two_days_ago =
    record {
      target = literal "Local Linux Agent (127.0.0.1:18443)";
      timestamp = yesterday;
      duration = literal "45 mins";
      reason = literal "User Disconnect";
      status = literal "Success";
    }
    ∷ record {
      target = literal "Dev Workstation (10.0.0.15:18443)";
      timestamp = two_days_ago;
      duration = literal "12 mins";
      reason = literal "Network Timeout";
      status = literal "Success";
    }
    ∷ []

-- The file after `saveConnectionHistory`, if it can be written or not.
unfoldable pub save_connection_history :
    Json → Bool → List HistoryRecord → Option (List ℕ) → Option (List ℕ)
save_connection_history json writable history file =
    if writable then some (json.to_json history) else file

unfoldable pub load_connection_history : Json → Text → Text → Option (List ℕ) → Session → Session
load_connection_history json yesterday two_days_ago none s =
    let history = sample_history yesterday two_days_ago in
    put (saved_history history)
      (put (connection_history_changed history) (record s { connection_history = history }))
load_connection_history json yesterday two_days_ago (some bytes) s = elim (json.from_json bytes) [
  | none ↦ s
  | some vals ↦
      (let history = objects vals in
        put (connection_history_changed history) (record s { connection_history = history }))
]

abbrev pub banner : Text
banner =
    literal
      "Remote Access Platform PTY Terminal Subsystem v0.3.1\nConnected to host environment (127.0.0.1:18443)\nType 'help' or any Linux shell command to execute.\n\n$ "

-- The constructor, as far as the members of `Session` go.
unfoldable pub construct : Json → Text → Text → Option (List ℕ) → Session
construct json yesterday two_days_ago file =
    let s = load_connection_history json yesterday two_days_ago file new_session in
    put (terminal_output_changed banner) (record s { terminal_output = banner })

-- The destructor: the socket's signals are blocked. The arguments are what Qt does in `abort` and `close`.
unfoldable pub destroy : (Session → Session) → (Session → Session) → Session → Session
destroy abort close s =
    let s1 = if s.socket_is_open then close (abort s) else s in record s1 { receive_buffer = [] }

-- Whether the constructor starts an agent: nobody listens on the port yet.
unfoldable pub launches_agent : Bool → Bool
launches_agent port_answers = not port_answers

objects_all : (history : List HistoryRecord) → objects (map some history) ≡ history
objects_all [] = refl
objects_all (item ∷ history) = ap (◌∷◌ item) (objects_all history)

-- A history that was saved is the one that a new session has, if Qt reads back the records that it
-- wrote; where the file could not be written, the session has what was in it before.
load_connection_history-save_connection_history :
    (json : Json) (yesterday two_days_ago : Text) (writable : Bool) (history : List HistoryRecord)
    (file : Option (List ℕ))
    → json.from_json (json.to_json history) ≡ some (map some history)
    → (construct json yesterday two_days_ago
        (save_connection_history json writable history file)).connection_history
      ≡ (if writable
          then history
          else (construct json yesterday two_days_ago file).connection_history)
unfolding construct load_connection_history save_connection_history
load_connection_history-save_connection_history json yesterday two_days_ago true history file h =
    rw (h, load_connection_history) (objects_all history)
load_connection_history-save_connection_history json yesterday two_days_ago false history file h =
    refl
