-- ===== src/Client/Slots/Kept.antt =====
-- What a session keeps between two slots, and the slots that make or end a connection.
use remote_access_platform.Prelude.{
  ℕ, ◌/◌, leb, sym, if-true, if-false, ◌≤◌, ◌≡◌, ◌∷◌, ◌++◌, Bool, true, false, length, length-take,
  arith, if◌then◌else◌, Bool-cases, inl, inr, ◌⊎◌,
}
use mathlib.Core.Path.{subst}
use remote_access_platform.Qt.{Text, QtText, literal}
use remote_access_platform.Client.{
  Session, HistoryRecord, stopped_reconnect_timer, connection_state_changed, max_reconnect_attempts,
  put, set_status, end_reconnecting,
}
use remote_access_platform.Client.Connection.{
  clear_buffer, duration_of, disconnect_from_host, clear_connection_history, cancel_reconnect,
  connect_to_host, connect_by_p2p_id, on_error_occurred, add_history_record, attempt_reconnect,
  schedule_reconnect, end_connection, on_disconnected,
}

-- What a session keeps between two slots: the attempts and the history are bounded, and it
-- reconnects only where the user did not ask to disconnect, and after an attempt was counted.
pub record IsConsistent (s : Session) : Type 0 where
  pub few_attempts : s.reconnect_attempts ≤ max_reconnect_attempts
  pub short_history : length s.connection_history ≤ 50
  pub wanted : (s.is_reconnecting ≡ false) ⊎ (s.user_initiated_disconnect ≡ false)
  pub counted : (s.is_reconnecting ≡ false) ⊎ (1 ≤ s.reconnect_attempts)

abbrev pub Keeps : (Session → Session) → Type 0
Keeps f = (s : Session) → IsConsistent s → IsConsistent (f s)

pub set_status-IsConsistent : (text : Text) → Keeps (set_status text)
unfolding set_status
set_status-IsConsistent text s v = ground (arith, v.wanted, v.counted)

pub end_reconnecting-IsConsistent : Keeps end_reconnecting
unfolding end_reconnecting
end_reconnecting-IsConsistent s v = ground (arith, v.wanted, v.counted)

pub either-IsConsistent :
    (b : Bool) (s t : Session) → IsConsistent s → IsConsistent t → IsConsistent (if b then s else t)
either-IsConsistent true s t v w = v
either-IsConsistent false s t v w = w

-- What both ways of giving up a connection begin with.
stopped-IsConsistent : Keeps (λ s.
    end_reconnecting (put stopped_reconnect_timer (record s { user_initiated_disconnect = true })))
unfolding end_reconnecting
stopped-IsConsistent s v = ground (arith, v.wanted, v.counted)

close_if-IsConsistent :
    (close : Session → Session) → Keeps close → Keeps (λ s. if s.socket_is_open then close s else s)
close_if-IsConsistent close k s v = elim (Bool-cases s.socket_is_open) [
  | inl e ↦ subst IsConsistent (sym (if-true (close s) s e)) (k s v)
  | inr e ↦ subst IsConsistent (sym (if-false (close s) s e)) v
]

pub disconnect_from_host-IsConsistent :
    (close : Session → Session) → Keeps close → Keeps (disconnect_from_host close)
unfolding disconnect_from_host
disconnect_from_host-IsConsistent close k s v =
    close_if-IsConsistent close k
      (end_reconnecting
        (put stopped_reconnect_timer (record s { user_initiated_disconnect = true })))
      (stopped-IsConsistent s v)

pub clear_connection_history-IsConsistent : Keeps clear_connection_history
unfolding clear_connection_history
clear_connection_history-IsConsistent s v = ground (arith, v.wanted, v.counted)

pub cancel_reconnect-IsConsistent : Keeps cancel_reconnect
unfolding cancel_reconnect end_reconnecting set_status
cancel_reconnect-IsConsistent s v = ground (arith, v.wanted, v.counted)

module _ (qt : QtText) where
  pub add_history_record-IsConsistent :
      (now target status : Text) (duration : ℕ) (reason : Text)
      → Keeps (add_history_record qt now target status duration reason)
  unfolding add_history_record
  add_history_record-IsConsistent now target status duration reason s v = record {
    few_attempts = v.few_attempts;
    short_history = omega (arith, length-take 50 (record_at ∷ s.connection_history));
    wanted = v.wanted;
    counted = v.counted;
  }
    where
      record_at : HistoryRecord
      record_at = record {
        target = target;
        timestamp = now;
        duration =
            if leb 60 duration
            then qt.number (duration / 60) ++ literal " mins"
            else qt.number duration ++ literal " secs";
        status = status;
        reason = reason;
      }

  pub attempt_reconnect-IsConsistent : Keeps (attempt_reconnect qt)
  unfolding attempt_reconnect set_status
  attempt_reconnect-IsConsistent s v = ground (arith, v.wanted, v.counted)

  pub on_error_occurred-IsConsistent : (e : Text) → Keeps (on_error_occurred qt e)
  unfolding on_error_occurred set_status
  on_error_occurred-IsConsistent e s v = ground (arith, v.wanted, v.counted)

  pub schedule_reconnect-IsConsistent : Keeps (schedule_reconnect qt)
  unfolding schedule_reconnect set_status end_reconnecting
  schedule_reconnect-IsConsistent s v = ground (arith, v.wanted, v.counted)

  pub connect_to_host-IsConsistent :
      (abort : Session → Session) (host : Text) (port : ℕ) (password : Text)
      → Keeps abort
      → Keeps (connect_to_host qt abort host port password)
  unfolding connect_to_host set_status
  connect_to_host-IsConsistent abort host port password k s v =
      ground (arith, v.wanted, v.counted, k s v)

  pub connect_by_p2p_id-IsConsistent :
      (abort : Session → Session) (p2p_id password : Text)
      → Keeps abort
      → Keeps (connect_by_p2p_id qt abort p2p_id password)
  unfolding connect_by_p2p_id
  connect_by_p2p_id-IsConsistent abort p2p_id password k s v =
      let s1 = record s { last_connected_target = literal "Desk ID: " ++ p2p_id } in
      connect_to_host-IsConsistent abort (literal "127.0.0.1") 18443 password k s1 (record {
        few_attempts = v.few_attempts;
        short_history = v.short_history;
        wanted = v.wanted;
        counted = v.counted;
      })

  end_connection-IsConsistent : (now_ms : ℕ) (now : Text) → Keeps (end_connection qt now_ms now)
  unfolding end_connection duration_of
  end_connection-IsConsistent now_ms now s v =
      let s2 =
        record (put (connection_state_changed false)
          (clear_buffer (record s { is_connected = false }))) { session_start_time_ms = 0 } in
      let v2 : IsConsistent s2 = record {
        few_attempts = v.few_attempts;
        short_history = v.short_history;
        wanted = v.wanted;
        counted = v.counted;
      } in
      either-IsConsistent _ _ _
        (add_history_record-IsConsistent now s2.last_connected_target (literal "Disconnected")
          (duration_of qt now_ms s)
          (if s2.user_initiated_disconnect
            then literal "User Initiated"
            else literal "Network Disconnect")
          s2 v2)
        v2

  pub on_disconnected-IsConsistent :
      (now_ms : ℕ) (now : Text) → Keeps (on_disconnected qt now_ms now)
  unfolding on_disconnected
  on_disconnected-IsConsistent now_ms now s v =
      schedule_reconnect-IsConsistent (end_connection qt now_ms now s)
        (end_connection-IsConsistent now_ms now s v)
