-- ===== src/Client/Connection/Backoff.antt =====
-- Automatic reconnection: how many attempts there are, and when.
use remote_access_platform.Prelude.{
  ℕ, ◌+◌, ◌/◌, ◌≡◌, refl, ap, ◌∙◌, List, [], ◌∷◌, ◌++◌, Bool, true, false, ◌&&◌, not, ltb, is_empty,
  arith, if◌then◌else◌,
}
use mathlib.Core.List.{append-nil}
use remote_access_platform.Qt.{Text, QtText, literal}
use remote_access_platform.Client.{
  Session, Output, wrote, called_connect, started_reconnect_timer, stopped_reconnect_timer,
  set_clipboard, updated_frame, saved_history, connection_state_changed, status_text_changed,
  is_reconnecting_changed, reconnect_attempts_changed, connection_history_changed,
  privacy_mode_changed, clipboard_text_received, chat_message_received, terminal_output_changed,
  terminal_output_received, put, set_status, end_reconnecting, max_reconnect_attempts,
}
use remote_access_platform.Client.Connection.{
  add_history_record, attempt_reconnect, schedule_reconnect, duration_of, end_connection,
  on_error_occurred, delay_ms, clear_buffer,
}

-- The delays of the timers that were started, in order.
unfoldable pub delays : List Output → List ℕ
delays [] = []
delays (started_reconnect_timer ms ∷ os) = ms ∷ delays os
delays (wrote bytes ∷ os) = delays os
delays (called_connect host port ∷ os) = delays os
delays (stopped_reconnect_timer ∷ os) = delays os
delays (set_clipboard text ∷ os) = delays os
delays (updated_frame image ∷ os) = delays os
delays (saved_history history ∷ os) = delays os
delays (connection_state_changed up ∷ os) = delays os
delays (status_text_changed text ∷ os) = delays os
delays (is_reconnecting_changed on ∷ os) = delays os
delays (reconnect_attempts_changed n ∷ os) = delays os
delays (connection_history_changed history ∷ os) = delays os
delays (privacy_mode_changed on ∷ os) = delays os
delays (clipboard_text_received text ∷ os) = delays os
delays (chat_message_received sender text time ∷ os) = delays os
delays (terminal_output_changed text ∷ os) = delays os
delays (terminal_output_received text ∷ os) = delays os

delays-append : (xs ys : List Output) → delays (xs ++ ys) ≡ delays xs ++ delays ys
unfolding delays
delays-append [] ys = refl
delays-append (x ∷ xs) ys = ground (arith, delays-append xs ys)

-- What reconnection depends on.
pub record View : Type 0 where
  pub attempts : ℕ
  pub given_up : Bool
  pub host : Text
  pub started : List ℕ

unfoldable pub view_with : List ℕ → Session → View
view_with started s = record {
  attempts = s.reconnect_attempts;
  given_up = s.user_initiated_disconnect;
  host = s.last_host;
  started = started;
}

unfoldable pub view : Session → View
unfolding view_with
view s = view_with (delays s.outputs) s

-- Outputs that start no timer.
view_puts :
    (s : Session) (os : List Output)
    → delays os ≡ []
    → view (record s { outputs = s.outputs ++ os }) ≡ view s
unfolding view view_with
view_puts s os e =
    ap (λ (l : List ℕ). view_with l s)
      (delays-append s.outputs os
        ∙ ap (λ l. delays s.outputs ++ l) e
        ∙ append-nil (delays s.outputs))

view-set_status : (status : Text) (s : Session) → view (set_status status s) ≡ view s
unfolding set_status view delays
view-set_status status s = ground (arith, view_puts s (status_text_changed status ∷ []) refl)

view-end_reconnecting : (s : Session) → view (end_reconnecting s) ≡ view s
unfolding end_reconnecting view delays
view-end_reconnecting s = ground (arith, view_puts s (is_reconnecting_changed false ∷ []) refl)

module _ (qt : QtText) where
  pub view-attempt_reconnect : (s : Session) → view (attempt_reconnect qt s) ≡ view s
  unfolding attempt_reconnect view delays
  view-attempt_reconnect s =
      let text =
        qt.arg
          (qt.arg (qt.arg (literal "Reconnecting to %1 (Attempt %2/%3)...") s.last_connected_target)
            (qt.number s.reconnect_attempts))
          (qt.number max_reconnect_attempts) in
      let s1 = set_status text s in
      ground (
        arith,
        view-set_status text s,
        view_puts s1 (called_connect s.last_host s.last_port ∷ []) refl,
      )

  pub view-on_error_occurred :
      (error : Text) (s : Session) → view (on_error_occurred qt error s) ≡ view s
  unfolding on_error_occurred view delays
  view-on_error_occurred error s =
      let text = literal "Socket Error: " ++ error in
      let s1 = clear_buffer (record s { is_connected = false }) in
      ground (
        arith,
        view-set_status text s1,
        view_puts (set_status text s1) (connection_state_changed false ∷ []) refl,
      )

  view-add_history_record :
      (now target status : Text) (seconds : ℕ) (reason : Text) (s : Session)
      → view (add_history_record qt now target status seconds reason s) ≡ view s
  unfolding add_history_record view view_with delays
  view-add_history_record now target status seconds reason s =
      let s1 = add_history_record qt now target status seconds reason s in
      ap (λ (l : List ℕ). view_with l s)
        (delays-append (s.outputs ++ (connection_history_changed s1.connection_history ∷ []))
            (saved_history s1.connection_history ∷ [])
          ∙ append-nil
              (delays (s.outputs ++ (connection_history_changed s1.connection_history ∷ [])))
          ∙ delays-append s.outputs (connection_history_changed s1.connection_history ∷ [])
          ∙ append-nil (delays s.outputs))

  pub view-end_connection :
      (now_ms : ℕ) (now : Text) (s : Session) → view (end_connection qt now_ms now s) ≡ view s
  unfolding end_connection view delays
  view-end_connection now_ms now s =
      let s0 = clear_buffer (record s { is_connected = false }) in
      let s1 = put (connection_state_changed false) s0 in
      let seconds = duration_of qt now_ms s1 in
      let s2 = record s1 { session_start_time_ms = 0 } in
      let reason =
        if s2.user_initiated_disconnect
        then literal "User Initiated"
        else literal "Network Disconnect" in
      ground (
        arith,
        view_puts s0 (connection_state_changed false ∷ []) refl,
        view-add_history_record now s2.last_connected_target (literal "Disconnected") seconds reason
            s2,
      )

  -- One more attempt, or none.
  unfoldable pub next : View → View
  next v =
      if not v.given_up && (not (is_empty v.host) && ltb v.attempts max_reconnect_attempts)
      then record v {
        attempts = v.attempts + 1;
        started = v.started ++ (delay_ms (v.attempts + 1) ∷ []);
      }
      else v

  pub view-schedule_reconnect : (s : Session) → view (schedule_reconnect qt s) ≡ next (view s)
  unfolding schedule_reconnect next view delays
  view-schedule_reconnect s =
      let attempts = s.reconnect_attempts + 1 in
      let delay = delay_ms attempts in
      let text =
        qt.arg
          (qt.arg
            (qt.arg (literal "Connection lost. Reconnecting in %1s (Attempt %2/%3)...")
              (qt.number (delay / 1000)))
            (qt.number attempts))
          (qt.number max_reconnect_attempts) in
      let s1 = record s { reconnect_attempts = attempts; is_reconnecting = true } in
      let s2 = put (reconnect_attempts_changed attempts) s1 in
      let s3 = put (is_reconnecting_changed true) s2 in
      ground (
        arith,
        view_puts s1 (reconnect_attempts_changed attempts ∷ []) refl,
        view_puts s2 (is_reconnecting_changed true ∷ []) refl,
        view-set_status text s3,
        delays-append (set_status text s3).outputs (started_reconnect_timer delay ∷ []),
        view-end_reconnecting s,
        view-set_status (literal "Disconnected")
            (record (end_reconnecting s) { last_connected_target = [] }),
      )
