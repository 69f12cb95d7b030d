-- ===== src/Client/Connection.antt =====
-- The slots of SessionClient.cpp that make and end connections: connecting, the first packet, automatic
-- reconnection, and the history. Times are milliseconds; what Qt runs inside `abort` and
-- `disconnectFromHost` is an argument.
pub mod Backoff
pub mod Schedule
pub mod History
use remote_access_platform.Prelude.{
  ℕ, ◌+◌, ◌-◌, ◌*◌, ◌/◌, ◌^◌, min, List, [], ◌∷◌, ◌++◌, Bool, true, false, ◌&&◌, ◌||◌, not, Option,
  none, some, take, ltb, leb, if◌then◌else◌, is_empty,
}
use remote_access_platform.Protocol.Payload.{auth_request}
use remote_access_platform.Security.Engine.Interface.{Cipher}
use remote_access_platform.Qt.{Text, QtText, literal}
use remote_access_platform.Client.{
  Session, SocketState, unconnected_state, HistoryRecord, Output, called_connect,
  stopped_reconnect_timer, started_reconnect_timer, connection_state_changed,
  is_reconnecting_changed, reconnect_attempts_changed, connection_history_changed, saved_history,
  put, set_status, end_reconnecting, target_name, max_reconnect_attempts, is_unconnected_state,
}
use remote_access_platform.Client.Send.{send_packet}

-- `receiveBuffer_.clear()`
abbrev pub clear_buffer : Session → Session
clear_buffer s = record s { receive_buffer = [] }

-- `disconnectFromHost`; the argument is what Qt does in the socket's own function.
unfoldable pub disconnect_from_host : (Session → Session) → Session → Session
disconnect_from_host close s =
    let s1 =
      end_reconnecting
        (put stopped_reconnect_timer (record s { user_initiated_disconnect = true })) in
    if s1.socket_is_open then close s1 else s1

unfoldable pub clear_connection_history : Session → Session
clear_connection_history s =
    put (saved_history [])
      (put (connection_history_changed []) (record s { connection_history = [] }))

-- `1000 * (1 << (attempts - 1))`, at most 30 seconds.
unfoldable pub delay_ms : ℕ → ℕ
delay_ms attempts = min 30000 (1000 * 2 ^ (attempts - 1))

unfoldable pub cancel_reconnect : Session → Session
cancel_reconnect s =
    let s1 =
      end_reconnecting
        (put stopped_reconnect_timer (record s { user_initiated_disconnect = true })) in
    let s2 = put (reconnect_attempts_changed 0) (record s1 { reconnect_attempts = 0 }) in
    set_status (literal "Reconnection Canceled by User") (record s2 { last_connected_target = [] })

module _ (qt : QtText) where
  unfoldable pub connect_to_host : (Session → Session) → Text → ℕ → Text → Session → Session
  connect_to_host abort host port password s =
      let s1 = if is_unconnected_state s.socket_state then s else abort s in
      let s2 = record s1 {
        requested_password = password;
        last_host = host;
        last_port = port;
        user_initiated_disconnect = false;
      } in
      let s3 =
        if is_empty s2.last_connected_target
        then record s2 { last_connected_target = host ++ (literal ":" ++ qt.number port) }
        else s2 in
      put (called_connect host port)
        (set_status (literal "Connecting to " ++ (s3.last_connected_target ++ literal "...")) s3)

  unfoldable pub connect_by_p2p_id : (Session → Session) → Text → Text → Session → Session
  connect_by_p2p_id abort p2p_id password s =
      connect_to_host abort (literal "127.0.0.1") 18443 password
        (record s { last_connected_target = literal "Desk ID: " ++ p2p_id })

  unfoldable pub on_error_occurred : Text → Session → Session
  on_error_occurred error_string s =
      let s1 = clear_buffer (record s { is_connected = false }) in
      if s1.is_reconnecting
      then s1
      else put (connection_state_changed false)
          (set_status (literal "Socket Error: " ++ error_string) s1)

  -- `addHistoryRecord`; the time of day is an argument.
  unfoldable pub add_history_record : Text → Text → Text → ℕ → Text → Session → Session
  add_history_record now target status duration_sec reason s =
      let item : HistoryRecord = record {
        target = target;
        timestamp = now;
        duration =
            if leb 60 duration_sec
            then qt.number (duration_sec / 60) ++ literal " mins"
            else qt.number duration_sec ++ literal " secs";
        status = status;
        reason = reason;
      } in
      let history = take 50 (item ∷ s.connection_history) in
      put (saved_history history)
        (put (connection_history_changed history) (record s { connection_history = history }))

  unfoldable pub attempt_reconnect : Session → Session
  attempt_reconnect s =
      if s.user_initiated_disconnect || is_empty s.last_host
      then s
      else put (called_connect s.last_host s.last_port) (
          set_status
            (qt.arg
              (qt.arg
                (qt.arg (literal "Reconnecting to %1 (Attempt %2/%3)...") s.last_connected_target)
                (qt.number s.reconnect_attempts))
              (qt.number max_reconnect_attempts))
            s)

  -- The end of `onDisconnected`: the next attempt, or none.
  unfoldable pub schedule_reconnect : Session → Session
  schedule_reconnect s =
      if not s.user_initiated_disconnect
        && (not (is_empty s.last_host) && ltb s.reconnect_attempts max_reconnect_attempts)
      then (let attempts = s.reconnect_attempts + 1 in
          let delay = delay_ms attempts in
          put (started_reconnect_timer delay) (
            set_status
              (qt.arg
                (qt.arg
                  (qt.arg (literal "Connection lost. Reconnecting in %1s (Attempt %2/%3)...")
                    (qt.number (delay / 1000)))
                  (qt.number attempts))
                (qt.number max_reconnect_attempts))
              (put (is_reconnecting_changed true) (
                put (reconnect_attempts_changed attempts)
                  (record s { reconnect_attempts = attempts; is_reconnecting = true })))))
      else set_status (literal "Disconnected")
          (record (end_reconnecting s) { last_connected_target = [] })

  -- `std::max<qint64>(0, (now - start) / 1000)`, or 0 without a start.
  unfoldable pub duration_of : ℕ → Session → ℕ
  duration_of now_ms s =
      if ltb 0 s.session_start_time_ms then (now_ms - s.session_start_time_ms) / 1000 else 0

  -- `onDisconnected` up to the reconnection: the state, and the record of the connection.
  unfoldable pub end_connection : ℕ → Text → Session → Session
  end_connection now_ms now s =
      let s1 =
        put (connection_state_changed false) (clear_buffer (record s { is_connected = false })) in
      let duration_sec = duration_of now_ms s1 in
      let s2 = record s1 { session_start_time_ms = 0 } in
      let reason =
        if s2.user_initiated_disconnect
        then literal "User Initiated"
        else literal "Network Disconnect" in
      if s.is_connected && not (is_empty s2.last_connected_target)
      then add_history_record now s2.last_connected_target (literal "Disconnected") duration_sec
          reason s2
      else s2

  unfoldable pub on_disconnected : ℕ → Text → Session → Session
  on_disconnected now_ms now s = schedule_reconnect (end_connection now_ms now s)

  -- The password is the first packet of a connection.
  unfoldable pub on_connected : Cipher → ℕ → Session → Option Session
  on_connected cipher now_ms s =
      let s1 = record s {
        is_connected = true;
        receive_buffer = [];
        received_frames = 0;
        input_sequence = 0;
        reconnect_attempts = 0;
        session_start_time_ms = now_ms;
      } in
      let s2 = put (reconnect_attempts_changed 0) (end_reconnecting s1) in
      elim (send_packet cipher auth_request (qt.to_utf8 s2.requested_password) s2) [
        | none ↦ none
        | some t ↦ some (
            put (connection_state_changed true)
              (set_status (literal "Connected to " ++ target_name t) t))
      ]
