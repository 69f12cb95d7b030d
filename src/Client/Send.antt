-- ===== src/Client/Send.antt =====
-- The slots of SessionClient.cpp that send: each encrypts a plaintext under the next sequence number and
-- writes one packet. `none` is an exception of `encryptPayload`.
pub mod Delivery
use remote_access_platform.Prelude.{
  ℕ, ◌+◌, ◌%◌, ◌^◌, List, [], ◌∷◌, ◌++◌, Bool, true, false, ◌&&◌, ◌||◌, not, Option, none, some,
  replicate, if◌then◌else◌, is_empty, same,
}
use remote_access_platform.Memory.{store}
use remote_access_platform.Protocol.{PayloadType, encode}
use remote_access_platform.Protocol.Payload.{input_event, clipboard_data, session_control}
use remote_access_platform.Security.Engine.Interface.{Cipher}
use remote_access_platform.Qt.{Text, QtText, literal, byte_array}
use remote_access_platform.Agent.{nonce_of}
use remote_access_platform.Client.{
  Session, Output, wrote, privacy_mode_changed, chat_message_received, session_key, put, can_send,
}

-- The 24 bytes of an input event; bytes 2 and 3 stay 0, and the modifiers are not sent.
unfoldable pub input_plaintext : ℕ → ℕ → ℕ → ℕ → ℕ → ℕ → List ℕ
input_plaintext type x y button delta keycode =
    store 2 type
    ++ (replicate 2 0
        ++ (store 4 x ++ (store 4 y ++ (store 4 button ++ (store 4 delta ++ store 4 keycode)))))

module _ (cipher : Cipher) where
  -- `++inputSequence_`, encrypt, encode, write.
  unfoldable pub send_packet : PayloadType → List ℕ → Session → Option Session
  send_packet type plaintext s =
      let seq = (s.input_sequence + 1) % 2 ^ 64 in
      elim (cipher.encrypt plaintext session_key (nonce_of seq)) [
        | none ↦ none
        | some encrypted_payload ↦ some (
            put (wrote (byte_array (encode type seq 0 encrypted_payload)))
              (record s { input_sequence = seq }))
      ]

  unfoldable pub send_input_event : ℕ → ℕ → ℕ → ℕ → ℕ → ℕ → Session → Option Session
  send_input_event type x y button delta keycode s =
      if not (can_send s)
      then some s
      else send_packet input_event (input_plaintext type x y button delta keycode) s

  unfoldable pub send_session_control_action : ℕ → Session → Option Session
  send_session_control_action action_id s =
      if not (can_send s) then some s else send_packet session_control (store 4 action_id) s

  -- Action 4 blanks the host's screen, 5 brings it back.
  unfoldable pub toggle_privacy_mode : Session → Option Session
  toggle_privacy_mode s =
      let mode = not s.privacy_mode in
      send_session_control_action (if mode then 4 else 5)
        (put (privacy_mode_changed mode) (record s { privacy_mode = mode }))

  module _ (qt : QtText) where
    unfoldable pub send_clipboard_text : Text → Session → Option Session
    send_clipboard_text text s =
        if not (can_send s)
        then some s
        else if same text s.last_clipboard_text
        then some s
        else send_packet clipboard_data (qt.to_utf8 text) (record s { last_clipboard_text = text })

    -- The time of day is an argument.
    unfoldable pub send_chat_message : Text → Text → Session → Option Session
    send_chat_message time message s =
        let clean = qt.trimmed message in
        if is_empty clean
        then some s
        else (elim (send_clipboard_text (literal "CHAT:" ++ clean) s) [
          | none ↦ none
          | some t ↦ some (put (chat_message_received (literal "You") clean time) t)
        ])

    -- The argument is the text on the clipboard; `none` stands for no clipboard.
    unfoldable pub on_clipboard_changed : Option Text → Session → Option Session
    on_clipboard_changed none s = some s
    on_clipboard_changed (some text) s =
        if not s.is_connected
        then some s
        else if not (is_empty text) && not (same text s.last_clipboard_text)
        then send_clipboard_text text s
        else some s
