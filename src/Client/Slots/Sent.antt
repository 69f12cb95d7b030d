-- ===== src/Client/Slots/Sent.antt =====
-- The slots that send: what they do to the attempts, the history and the flags of reconnection.
use remote_access_platform.Prelude.{ℕ, ◌≡◌, ap, List, Option, none, some, length, arith}
use remote_access_platform.Qt.{Text, QtText}
use remote_access_platform.Protocol.{PayloadType}
use remote_access_platform.Security.Engine.Interface.{Cipher}
use remote_access_platform.Client.{Session}
use remote_access_platform.Client.Send.{
  send_packet, send_input_event, send_session_control_action, toggle_privacy_mode,
  send_clipboard_text, send_chat_message, on_clipboard_changed,
}
use remote_access_platform.Client.Slots.Kept.{IsConsistent}

pub record Untouched (s t : Session) : Type 0 where
  pub attempts : t.reconnect_attempts ≡ s.reconnect_attempts
  pub history : t.connection_history ≡ s.connection_history
  pub reconnecting : t.is_reconnecting ≡ s.is_reconnecting
  pub user : t.user_initiated_disconnect ≡ s.user_initiated_disconnect

pub Untouched-IsConsistent : {s t : Session} → Untouched s t → IsConsistent s → IsConsistent t
Untouched-IsConsistent u v =
    ground (arith, u.attempts, ap length u.history, u.reconnecting, u.user, v.wanted, v.counted)

module _ (cipher : Cipher) where
  pub send_packet-Untouched :
      (type : PayloadType) (plaintext : List ℕ) (s t : Session)
      → send_packet cipher type plaintext s ≡ some t
      → Untouched s t
  unfolding send_packet
  send_packet-Untouched type plaintext s t h = ground arith

  pub send_input_event-Untouched :
      (type x y button delta keycode : ℕ) (s t : Session)
      → send_input_event cipher type x y button delta keycode s ≡ some t
      → Untouched s t
  unfolding send_input_event send_packet
  send_input_event-Untouched type x y button delta keycode s t h = ground arith

  pub send_session_control_action-Untouched :
      (action_id : ℕ) (s t : Session)
      → send_session_control_action cipher action_id s ≡ some t
      → Untouched s t
  unfolding send_session_control_action send_packet
  send_session_control_action-Untouched action_id s t h = ground arith

  pub toggle_privacy_mode-Untouched :
      (s t : Session) → toggle_privacy_mode cipher s ≡ some t → Untouched s t
  unfolding toggle_privacy_mode send_session_control_action send_packet
  toggle_privacy_mode-Untouched s t h = ground arith

  pub send_clipboard_text-Untouched :
      (qt : QtText) (text : Text) (s t : Session)
      → send_clipboard_text cipher qt text s ≡ some t
      → Untouched s t
  unfolding send_clipboard_text send_packet
  send_clipboard_text-Untouched qt text s t h = ground arith

  pub send_chat_message-Untouched :
      (qt : QtText) (time message : Text) (s t : Session)
      → send_chat_message cipher qt time message s ≡ some t
      → Untouched s t
  unfolding send_chat_message send_clipboard_text send_packet
  send_chat_message-Untouched qt time message s t h = ground arith

  pub on_clipboard_changed-Untouched :
      (qt : QtText) (text : Option Text) (s t : Session)
      → on_clipboard_changed cipher qt text s ≡ some t
      → Untouched s t
  unfolding on_clipboard_changed send_clipboard_text send_packet
  on_clipboard_changed-Untouched qt none s t h = ground arith
  on_clipboard_changed-Untouched qt (some text) s t h = ground arith
