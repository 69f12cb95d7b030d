-- ===== src/Client/Connection/Schedule.antt =====
-- What becomes of a connection that is lost while the host cannot be reached.
use remote_access_platform.Prelude.{
  ℕ, ◌≡◌, ◌≢◌, refl, sym, ap, ◌∙◌, [], ◌∷◌, ◌++◌, true, false, is_empty, arith,
}
use remote_access_platform.Qt.{Text, QtText}
use remote_access_platform.Client.{Session, set_status}
use remote_access_platform.Client.Connection.{
  attempt_reconnect, on_disconnected, on_error_occurred, schedule_reconnect, end_connection,
  add_history_record, delay_ms,
}
use remote_access_platform.Client.Connection.Backoff.{
  delays, View, view, view_with, next, view-attempt_reconnect, view-on_error_occurred,
  view-end_connection, view-schedule_reconnect,
}

module _ (qt : QtText) where
  -- The timer fires, and the attempt ends in an error. Of a socket that never was connected Qt reports
  -- the error, and not that it is disconnected.
  unfoldable pub fail : Text → Session → Session
  fail error_string s = on_error_occurred qt error_string (attempt_reconnect qt s)

  view-on_disconnected :
      (now_ms : ℕ) (now : Text) (s : Session)
      → view (on_disconnected qt now_ms now s) ≡ next qt (view s)
  unfolding on_disconnected
  view-on_disconnected now_ms now s =
      view-schedule_reconnect qt (end_connection qt now_ms now s)
      ∙ ap (next qt) (view-end_connection qt now_ms now s)

  -- A failed attempt starts no timer and counts nothing.
  view-fail : (error : Text) (s : Session) → view (fail error s) ≡ view s
  unfolding fail
  view-fail error s =
      view-on_error_occurred qt error (attempt_reconnect qt s) ∙ view-attempt_reconnect qt s

  next_first :
      (v : View)
      → v.given_up ≡ false
      → v.host ≢ []
      → v.attempts ≡ 0
      → next qt v ≡ record v { attempts = 1; started = v.started ++ (1000 ∷ []) }
  unfolding next delay_ms
  next_first v g h z = ground (arith, h)

  fail_reconnecting :
      (error : Text) (s : Session) → (fail error s).is_reconnecting ≡ s.is_reconnecting
  unfolding fail on_error_occurred attempt_reconnect set_status
  fail_reconnecting error s = ground arith

  end_connection_kept :
      (now_ms : ℕ) (now : Text) (s : Session)
      → ((end_connection qt now_ms now s).user_initiated_disconnect ≡ s.user_initiated_disconnect)
        × ((end_connection qt now_ms now s).last_host ≡ s.last_host)
        × ((end_connection qt now_ms now s).reconnect_attempts ≡ s.reconnect_attempts)
  unfolding end_connection add_history_record
  end_connection_kept now_ms now s = ground arith

  is_empty-false : (xs : Text) → xs ≢ [] → is_empty xs ≡ false
  is_empty-false [] h = absurd (h refl)
  is_empty-false (x ∷ xs) h = refl

  schedule_reconnect_first :
      (s : Session)
      → s.user_initiated_disconnect ≡ false
      → s.last_host ≢ []
      → s.reconnect_attempts ≡ 0
      → (schedule_reconnect qt s).is_reconnecting ≡ true
  unfolding schedule_reconnect set_status
  schedule_reconnect_first s g h z =
      rw (g, is_empty-false s.last_host h, z, schedule_reconnect) (ground arith)

  on_disconnected_first :
      (now_ms : ℕ) (now : Text) (s : Session)
      → s.user_initiated_disconnect ≡ false
      → s.last_host ≢ []
      → s.reconnect_attempts ≡ 0
      → (on_disconnected qt now_ms now s).is_reconnecting ≡ true
  unfolding on_disconnected
  on_disconnected_first now_ms now s g h z =
      let kept = end_connection_kept now_ms now s in
      schedule_reconnect_first (end_connection qt now_ms now s) (kept.0 ∙ g)
        (λ e. h (sym kept.1 ∙ e)) (kept.2 ∙ z)

  fail_connected : (error : Text) (s : Session) → (fail error s).is_connected ≡ false
  unfolding fail on_error_occurred set_status
  fail_connected error s = ground arith

  -- If a connection to a host with a name, made without an attempt being counted, is lost, not by
  -- the user, and the attempt that the timer starts ends in an error, then one timer was started,
  -- of one second, one attempt is counted, and the session goes on saying that it reconnects, with
  -- no other timer.
  pub fail-on_disconnected :
      (now_ms : ℕ) (now error_string : Text) (s : Session)
      → s.user_initiated_disconnect ≡ false
      → s.last_host ≢ []
      → s.reconnect_attempts ≡ 0
      → let t = fail error_string (on_disconnected qt now_ms now s) in
        (delays t.outputs ≡ delays s.outputs ++ (1000 ∷ []))
        × (t.reconnect_attempts ≡ 1)
        × (t.is_reconnecting ≡ true)
        × (t.is_connected ≡ false)
  unfolding view view_with fail on_error_occurred
  fail-on_disconnected now_ms now error_string s g h z =
      let whole =
        view-fail error_string (on_disconnected qt now_ms now s)
        ∙ view-on_disconnected now_ms now s
        ∙ next_first (view s) g h z in
      (
        ap (λ (u : View). u.started) whole,
        ap (λ (u : View). u.attempts) whole,
        fail_reconnecting error_string (on_disconnected qt now_ms now s)
            ∙ on_disconnected_first now_ms now s g h z,
        fail_connected error_string (on_disconnected qt now_ms now s),
      )
