-- ===== src/Client/Slots.antt =====
-- The slots of a session in any order, between changes of the socket that Qt reports, and what they keep.
pub mod Kept
pub mod Sent
pub mod Received
use remote_access_platform.Prelude.{
  ℕ, ◌≤◌, ◌≡◌, refl, sym, List, ◌++◌, [], Bool, true, Option, none, some, arith, Option-cases,
  length, inl, inr,
}
use mathlib.Core.Path.{subst}
use remote_access_platform.Qt.{Text, literal}
use remote_access_platform.Protocol.Payload.{auth_request}
use remote_access_platform.Client.{
  Session, HistoryRecord, terminal_output_changed, connection_history_changed, SocketState,
  set_status, set_render_gated, put, reconnect_attempts_changed, connection_state_changed,
  end_reconnecting, target_name,
}
use remote_access_platform.Client.Send.{
  send_packet, send_input_event, send_session_control_action, toggle_privacy_mode,
  send_clipboard_text, send_chat_message, on_clipboard_changed,
}
use remote_access_platform.Client.Connection.{
  disconnect_from_host, clear_connection_history, cancel_reconnect, connect_to_host,
  connect_by_p2p_id, on_error_occurred, attempt_reconnect, on_disconnected, on_connected,
}
use remote_access_platform.Client.Receive.{Desk, on_ready_read}
use remote_access_platform.Client.Terminal.{send_terminal_input, clear_terminal}
use remote_access_platform.Client.Slots.Kept.{
  IsConsistent, Keeps, set_status-IsConsistent, end_reconnecting-IsConsistent,
  disconnect_from_host-IsConsistent, clear_connection_history-IsConsistent,
  cancel_reconnect-IsConsistent, attempt_reconnect-IsConsistent, on_error_occurred-IsConsistent,
  connect_to_host-IsConsistent, connect_by_p2p_id-IsConsistent, on_disconnected-IsConsistent,
}
use remote_access_platform.Client.Slots.Sent.{
  Untouched, Untouched-IsConsistent, send_packet-Untouched, send_input_event-Untouched,
  send_session_control_action-Untouched, toggle_privacy_mode-Untouched,
  send_clipboard_text-Untouched, send_chat_message-Untouched, on_clipboard_changed-Untouched,
}
use remote_access_platform.Client.Start.{
  Json, new_session, banner, objects, construct, load_connection_history,
}
use remote_access_platform.Client.Slots.Received.{on_ready_read-IsConsistent}

-- One slot of a session, or a change of its socket that Qt makes between two slots. A slot that ends
-- by an exception is no step.
pub data Step (desk : Desk) (abort : Session → Session) (s t : Session) : Type 0 where
  socket_changed :
      (open_now : Bool) (state : SocketState)
      → t ≡ record s { socket_is_open = open_now; socket_state = state }
      → Step desk abort s t
  connects :
      (host : Text) (port : ℕ) (password : Text)
      → t ≡ connect_to_host desk.qt abort host port password s
      → Step desk abort s t
  connects_by_id :
      (p2p_id password : Text)
      → t ≡ connect_by_p2p_id desk.qt abort p2p_id password s
      → Step desk abort s t
  disconnects : t ≡ disconnect_from_host desk.close s → Step desk abort s t
  cancels : t ≡ cancel_reconnect s → Step desk abort s t
  timer_fires : t ≡ attempt_reconnect desk.qt s → Step desk abort s t
  connected :
      (now_ms : ℕ) → on_connected desk.qt desk.cipher now_ms s ≡ some t → Step desk abort s t
  disconnected :
      (now_ms : ℕ) (now : Text) → t ≡ on_disconnected desk.qt now_ms now s → Step desk abort s t
  fails : (error : Text) → t ≡ on_error_occurred desk.qt error s → Step desk abort s t
  reads : (time : Text) (bytes : List ℕ) → t ≡ on_ready_read desk time bytes s → Step desk abort s t
  sends_input :
      (type x y button delta keycode : ℕ)
      → send_input_event desk.cipher type x y button delta keycode s ≡ some t
      → Step desk abort s t
  sends_action :
      (action : ℕ) → send_session_control_action desk.cipher action s ≡ some t → Step desk abort s t
  toggles_privacy : toggle_privacy_mode desk.cipher s ≡ some t → Step desk abort s t
  sends_clipboard :
      (text : Text) → send_clipboard_text desk.cipher desk.qt text s ≡ some t → Step desk abort s t
  clipboard_changed :
      (text : Option Text)
      → on_clipboard_changed desk.cipher desk.qt text s ≡ some t
      → Step desk abort s t
  chats :
      (time message : Text)
      → send_chat_message desk.cipher desk.qt time message s ≡ some t
      → Step desk abort s t
  types : (command : Text) → t ≡ send_terminal_input desk.qt command s → Step desk abort s t
  clears_terminal : t ≡ clear_terminal s → Step desk abort s t
  clears_history : t ≡ clear_connection_history s → Step desk abort s t
  gates : (gated : Bool) → t ≡ set_render_gated gated s → Step desk abort s t

-- Step after step.
pub data Reachable (desk : Desk) (abort : Session → Session) (s : Session) : Session → Type 0 where
  here : Reachable desk abort s s
  after :
      {t u : Session} → Reachable desk abort s t → Step desk abort t u → Reachable desk abort s u

module _ (desk : Desk) (abort : Session → Session) (kc : Keeps desk.close) (ka : Keeps abort) where
  on_connected-IsConsistent :
      (now_ms : ℕ) (s t : Session)
      → IsConsistent s
      → on_connected desk.qt desk.cipher now_ms s ≡ some t
      → IsConsistent t
  unfolding on_connected
  on_connected-IsConsistent now_ms s t v h =
      let s1 = record s {
        is_connected = true;
        receive_buffer = [];
        received_frames = 0;
        input_sequence = 0;
        reconnect_attempts = 0;
        session_start_time_ms = now_ms;
      } in
      let s2 = put (reconnect_attempts_changed 0) (end_reconnecting s1) in
      let v2 : IsConsistent s2 = unfold end_reconnecting in ground (arith, v.wanted, v.counted) in
      elim (Option-cases
        (send_packet desk.cipher auth_request (desk.qt.to_utf8 s2.requested_password) s2)) [
          | inl e ↦ cc (rw (e, on_connected) at h)
          | inr (u, e) ↦
              (let vu =
                  Untouched-IsConsistent
                    (send_packet-Untouched desk.cipher auth_request
                      (desk.qt.to_utf8 s2.requested_password) s2 u e)
                    v2 in
                let vs = set_status-IsConsistent (literal "Connected to " ++ target_name u) u vu in
                let same : t
                    ≡ put (connection_state_changed true)
                        (set_status (literal "Connected to " ++ target_name u) u) =
                  ground (arith, e) in
                rw same (ground (arith, vs.wanted, vs.counted, vs.few_attempts, vs.short_history)))
        ]

  send_terminal_input-IsConsistent : (command : Text) → Keeps (send_terminal_input desk.qt command)
  unfolding send_terminal_input clear_terminal
  send_terminal_input-IsConsistent command s v = ground (arith, v.wanted, v.counted)

  clear_terminal-IsConsistent : Keeps clear_terminal
  unfolding clear_terminal
  clear_terminal-IsConsistent s v = ground (arith, v.wanted, v.counted)

  set_render_gated-IsConsistent : (gated : Bool) → Keeps (set_render_gated gated)
  unfolding set_render_gated
  set_render_gated-IsConsistent gated s v = ground (arith, v.wanted, v.counted)

  Step-IsConsistent : {s t : Session} → Step desk abort s t → IsConsistent s → IsConsistent t
  Step-IsConsistent {s} {t} (Step.socket_changed open_now state e) v =
      subst IsConsistent (sym e) (ground (arith, v.wanted, v.counted))
  Step-IsConsistent {s} {t} (Step.connects host port password e) v =
      subst IsConsistent (sym e)
        (connect_to_host-IsConsistent desk.qt abort host port password ka s v)
  Step-IsConsistent {s} {t} (Step.connects_by_id p2p_id password e) v =
      subst IsConsistent (sym e)
        (connect_by_p2p_id-IsConsistent desk.qt abort p2p_id password ka s v)
  Step-IsConsistent {s} {t} (Step.disconnects e) v =
      subst IsConsistent (sym e) (disconnect_from_host-IsConsistent desk.close kc s v)
  Step-IsConsistent {s} {t} (Step.cancels e) v =
      subst IsConsistent (sym e) (cancel_reconnect-IsConsistent s v)
  Step-IsConsistent {s} {t} (Step.timer_fires e) v =
      subst IsConsistent (sym e) (attempt_reconnect-IsConsistent desk.qt s v)
  Step-IsConsistent {s} {t} (Step.connected now_ms e) v = on_connected-IsConsistent now_ms s t v e
  Step-IsConsistent {s} {t} (Step.disconnected now_ms now e) v =
      subst IsConsistent (sym e) (on_disconnected-IsConsistent desk.qt now_ms now s v)
  Step-IsConsistent {s} {t} (Step.fails error e) v =
      subst IsConsistent (sym e) (on_error_occurred-IsConsistent desk.qt error s v)
  Step-IsConsistent {s} {t} (Step.reads time bytes e) v =
      subst IsConsistent (sym e) (on_ready_read-IsConsistent desk kc time bytes s v)
  Step-IsConsistent {s} {t} (Step.sends_input type x y button delta keycode e) v =
      Untouched-IsConsistent
        (send_input_event-Untouched desk.cipher type x y button delta keycode s t e) v
  Step-IsConsistent {s} {t} (Step.sends_action action e) v =
      Untouched-IsConsistent (send_session_control_action-Untouched desk.cipher action s t e) v
  Step-IsConsistent {s} {t} (Step.toggles_privacy e) v =
      Untouched-IsConsistent (toggle_privacy_mode-Untouched desk.cipher s t e) v
  Step-IsConsistent {s} {t} (Step.sends_clipboard text e) v =
      Untouched-IsConsistent (send_clipboard_text-Untouched desk.cipher desk.qt text s t e) v
  Step-IsConsistent {s} {t} (Step.clipboard_changed text e) v =
      Untouched-IsConsistent (on_clipboard_changed-Untouched desk.cipher desk.qt text s t e) v
  Step-IsConsistent {s} {t} (Step.chats time message e) v =
      Untouched-IsConsistent (send_chat_message-Untouched desk.cipher desk.qt time message s t e) v
  Step-IsConsistent {s} {t} (Step.types command e) v =
      subst IsConsistent (sym e) (send_terminal_input-IsConsistent command s v)
  Step-IsConsistent {s} {t} (Step.clears_terminal e) v =
      subst IsConsistent (sym e) (clear_terminal-IsConsistent s v)
  Step-IsConsistent {s} {t} (Step.clears_history e) v =
      subst IsConsistent (sym e) (clear_connection_history-IsConsistent s v)
  Step-IsConsistent {s} {t} (Step.gates gated e) v =
      subst IsConsistent (sym e) (set_render_gated-IsConsistent gated s v)

  -- What every step keeps, all of them keep.
  Reachable-kept : (s t : Session) → Reachable desk abort s t → IsConsistent s → IsConsistent t
  Reachable-kept s _ Reachable.here v = v
  Reachable-kept s _ (Reachable.after run step) v =
      Step-IsConsistent step (Reachable-kept s _ run v)

  abbrev shown : Session → Session
  shown s = put (terminal_output_changed banner) (record s { terminal_output = banner })

  construct_no_array :
      (json : Json) (yesterday two_days_ago : Text) (bytes : List ℕ)
      → json.from_json bytes ≡ none
      → construct json yesterday two_days_ago (some bytes) ≡ shown new_session
  unfolding construct load_connection_history
  construct_no_array json yesterday two_days_ago bytes e = rw (e, load_connection_history) refl

  construct_array :
      (json : Json) (yesterday two_days_ago : Text) (bytes : List ℕ)
      (vals : List (Option HistoryRecord))
      → json.from_json bytes ≡ some vals
      → construct json yesterday two_days_ago (some bytes)
        ≡ shown (
            put
              (connection_history_changed (objects vals))
              (record new_session { connection_history = objects vals }))
  unfolding construct load_connection_history
  construct_array json yesterday two_days_ago bytes vals e = rw (e, load_connection_history) refl

  construct-IsConsistent :
      (json : Json) (yesterday two_days_ago : Text) (file : Option (List ℕ))
      → length (construct json yesterday two_days_ago file).connection_history ≤ 50
      → IsConsistent (construct json yesterday two_days_ago file)
  unfolding construct load_connection_history
  construct-IsConsistent json yesterday two_days_ago none h = record {
    few_attempts = omega arith;
    short_history = h;
    wanted = inl refl;
    counted = inl refl;
  }
  construct-IsConsistent json yesterday two_days_ago (some bytes) h =
      elim (Option-cases (json.from_json bytes)) [
        | inl e ↦
            subst IsConsistent (sym (construct_no_array json yesterday two_days_ago bytes e))
              (record {
                few_attempts = omega arith;
                short_history = omega arith;
                wanted = inl refl;
                counted = inl refl;
              })
        | inr (vals, e) ↦
            subst IsConsistent (sym (construct_array json yesterday two_days_ago bytes vals e))
              (record {
                few_attempts = omega arith;
                short_history =
                    subst (λ (s : Session). length s.connection_history ≤ 50)
                      (construct_array json yesterday two_days_ago bytes vals e) h;
                wanted = inl refl;
                counted = inl refl;
              })
      ]

  -- From the session that the constructor makes, if it took at most 50 records from the history's
  -- file, whatever slots run and whatever happens to the socket between them, if what Qt runs
  -- inside `abort` and `disconnectFromHost` keeps it too: at most 5 attempts are counted, at most
  -- 50 records are kept, and the session reconnects only while the user has not asked to
  -- disconnect and after an attempt was counted.
  pub Reachable-IsConsistent :
      (json : Json) (yesterday two_days_ago : Text) (file : Option (List ℕ)) (t : Session)
      → length (construct json yesterday two_days_ago file).connection_history ≤ 50
      → Reachable desk abort (construct json yesterday two_days_ago file) t
      → IsConsistent t
  Reachable-IsConsistent json yesterday two_days_ago file t h run =
      Reachable-kept (construct json yesterday two_days_ago file) t run
        (construct-IsConsistent json yesterday two_days_ago file h)
