-- ===== src/Client/Connection/History.antt =====
-- Which connections the history records.
use remote_access_platform.Prelude.{
  ◌&&◌, not, is_empty, ℕ, ◌/◌, leb, ◌≡◌, ◌∙◌, ◌∷◌, ◌++◌, false, take, arith, if◌then◌else◌,
}
use remote_access_platform.Qt.{Text, QtText, literal}
use remote_access_platform.Client.{Session, HistoryRecord, set_status, end_reconnecting}
use remote_access_platform.Client.Connection.{
  add_history_record, schedule_reconnect, duration_of, end_connection, on_disconnected,
  on_error_occurred,
}

set_status_history :
    (status : Text) (s : Session) → (set_status status s).connection_history ≡ s.connection_history
unfolding set_status
set_status_history status s = ground arith

end_reconnecting_history :
    (s : Session) → (end_reconnecting s).connection_history ≡ s.connection_history
unfolding end_reconnecting
end_reconnecting_history s = ground arith

module _ (qt : QtText) where
  schedule_reconnect_history :
      (s : Session) → (schedule_reconnect qt s).connection_history ≡ s.connection_history
  unfolding schedule_reconnect set_status end_reconnecting
  schedule_reconnect_history s = ground arith

  on_disconnected_history_lem :
      (now_ms : ℕ) (now : Text) (s : Session)
      → (on_disconnected qt now_ms now s).connection_history
        ≡ (end_connection qt now_ms now s).connection_history
  unfolding on_disconnected
  on_disconnected_history_lem now_ms now s =
      schedule_reconnect_history (end_connection qt now_ms now s)

  abbrev pub record_of : ℕ → Text → Session → HistoryRecord
  record_of now_ms now s =
      let seconds = duration_of qt now_ms s in
      record {
        target = s.last_connected_target;
        timestamp = now;
        duration =
            if leb 60 seconds
            then qt.number (seconds / 60) ++ literal " mins"
            else qt.number seconds ++ literal " secs";
        status = literal "Disconnected";
        reason =
            if s.user_initiated_disconnect
            then literal "User Initiated"
            else literal "Network Disconnect";
      }

  -- When the socket is disconnected, the record of a session that was connected to a target is put
  -- in front of the history, of which 50 records are kept; otherwise the history stays as it was.
  pub on_disconnected_history :
      (now_ms : ℕ) (now : Text) (s : Session)
      → (on_disconnected qt now_ms now s).connection_history ≡ (
          if s.is_connected && not (is_empty s.last_connected_target)
          then take 50 (record_of now_ms now s ∷ s.connection_history)
          else s.connection_history)
  unfolding end_connection add_history_record duration_of
  on_disconnected_history now_ms now s = on_disconnected_history_lem now_ms now s ∙ ground arith

  on_error_occurred_history :
      (error : Text) (s : Session)
      → ((on_error_occurred qt error s).is_connected ≡ false)
        × ((on_error_occurred qt error s).connection_history ≡ s.connection_history)
  unfolding on_error_occurred set_status
  on_error_occurred_history error s = ground arith

  -- A connection that ends with a socket error leaves no record in the history.
  pub on_disconnected-on_error_occurred :
      (now_ms : ℕ) (now error : Text) (s : Session)
      → (on_disconnected qt now_ms now (on_error_occurred qt error s)).connection_history
        ≡ s.connection_history
  on_disconnected-on_error_occurred now_ms now error s =
      let (unconnected, kept) = on_error_occurred_history error s in
      on_disconnected_history now_ms now (on_error_occurred qt error s)
      ∙ ground (arith, unconnected, kept)
