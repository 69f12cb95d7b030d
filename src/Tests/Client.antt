-- ===== src/Tests/Client.antt =====
-- The client on concrete packets.
use remote_access_platform.Prelude.{ℕ, ◌≡◌, refl, List, [], ◌∷◌, ◌++◌, true, false, some, arith}
use remote_access_platform.Protocol.{Packet, encode, decode, parsed}
use remote_access_platform.Protocol.Payload.{input_event}
use remote_access_platform.Security.Engine.{encrypt_payload}
use remote_access_platform.Security.Engine.Interface.{crypto_engine}
use remote_access_platform.Security.Chacha20.{
  rotate_left, quarter_round, quarter_round_at, double_round, rounds, add_words, chacha20_block,
  words, block_bytes, xor_bytes, chacha20_loop, chacha20_xor,
}
use remote_access_platform.Security.Poly1305.{
  gather, shift_count, shift_one, mac_loop, compute_poly1305_mac,
}
use remote_access_platform.Memory.{store, load}
use remote_access_platform.Tests.Host.{plain_text}
use remote_access_platform.Tests.Crypto.{key}
use remote_access_platform.Agent.{Host, Socket, nonce_of, handle_client_packet, injected, add}
use remote_access_platform.Client.{
  Session, connected_state, closing_state, wrote, session_key, put, can_send,
}
use remote_access_platform.Client.Send.{input_plaintext, send_packet, send_input_event}
use remote_access_platform.Client.Send.Delivery.{event, send_input_event-handle_client_packet}
use remote_access_platform.Client.Connection.{on_disconnected, on_error_occurred}
use remote_access_platform.Client.Connection.History.{
  record_of, on_disconnected_history, on_disconnected-on_error_occurred,
}
use remote_access_platform.Client.Connection.Backoff.{delays}
use remote_access_platform.Client.Connection.Schedule.{fail, fail-on_disconnected}
use remote_access_platform.Client.Receive.{Desk}
use remote_access_platform.Protocol.Payload.{frame_header}
use remote_access_platform.Capture.Backend.{FrameData, rgba8888}
use remote_access_platform.Agent.Frames.{frame_plaintext, frame_bytes}
use remote_access_platform.Client.Receive.{on_packet}
use remote_access_platform.Client.Receive.Frames.{shown, on_packet-frame_bytes}
use remote_access_platform.Qt.{byte_array}

abbrev pub desk : Desk
desk = record {
  cipher = crypto_engine 1;
  qt = plain_text;
  uncompress = λ bytes. bytes;
  has_frame_provider = true;
  has_clipboard = true;
  close = λ s. record s { socket_state = closing_state };
}

abbrev pub session : Session
session = record {
  socket_is_open = true;
  socket_state = connected_state;
  is_connected = true;
  render_gated = false;
  status_text = [];
  last_connected_target = b'x' ∷ [];
  requested_password = [];
  receive_buffer = [];
  received_frames = 0;
  input_sequence = 0;
  last_clipboard_text = [];
  is_reconnecting = false;
  reconnect_attempts = 0;
  user_initiated_disconnect = false;
  last_host = b'h' ∷ [];
  last_port = 18443;
  connection_history = [];
  session_start_time_ms = 1000;
  privacy_mode = false;
  terminal_output = [];
  outputs = [];
}

on_disconnected_history_example :
    (on_disconnected plain_text 63000 [] session).connection_history
    ≡ record_of plain_text 63000 [] session ∷ []
on_disconnected_history_example = on_disconnected_history plain_text 63000 [] session

on_disconnected-on_error_occurred_example :
    (on_disconnected plain_text 63000 []
      (on_error_occurred plain_text [] session)).connection_history
    ≡ []
on_disconnected-on_error_occurred_example =
    on_disconnected-on_error_occurred plain_text 63000 [] [] session

abbrev unreachable : Session
unreachable = fail plain_text (b'e' ∷ []) (on_disconnected plain_text 63000 [] session)

fail-on_disconnected_example :
    (delays unreachable.outputs ≡ 1000 ∷ [])
    × (unreachable.reconnect_attempts ≡ 1)
    × (unreachable.is_reconnecting ≡ true)
    × (unreachable.is_connected ≡ false)
unfolding delays
fail-on_disconnected_example =
    fail-on_disconnected plain_text 63000 [] (b'e' ∷ []) session refl (λ e. cc) refl

-- The mouse moves to (10, 20).
abbrev sealed_move : List ℕ
sealed_move =
    93 ∷ 183 ∷ 63 ∷ 136 ∷ 218 ∷ 249 ∷ 110 ∷ 20 ∷ 134 ∷ 113 ∷ 149 ∷ 15 ∷ 86 ∷ 221 ∷ 105 ∷ 188 ∷ 178
    ∷ 223 ∷ 193 ∷ 214 ∷ 168 ∷ 201 ∷ 12 ∷ 39 ∷ 221 ∷ 201 ∷ 140 ∷ 152 ∷ 206 ∷ 212 ∷ 124 ∷ 0 ∷ 69 ∷ 243
    ∷ 91 ∷ 214 ∷ 115 ∷ 160 ∷ 233 ∷ 184 ∷ []

encrypt_move :
    encrypt_payload 1 (input_plaintext 1 10 20 0 0 0) session_key (nonce_of 1) ≡ some sealed_move
unfolding input_plaintext nonce_of encrypt_payload chacha20_xor chacha20_loop words load store
    chacha20_block rounds double_round quarter_round_at quarter_round rotate_left add_words
    block_bytes xor_bytes compute_poly1305_mac mac_loop gather shift_count shift_one
encrypt_move = refl

abbrev moved : Session
moved = put (wrote (encode input_event 1 0 sealed_move)) (record session { input_sequence = 1 })

send_move : send_input_event (crypto_engine 1) 1 10 20 0 0 0 session ≡ some moved
unfolding send_input_event send_packet can_send byte_array encode store
send_move = rw (encrypt_move, send_packet) refl

abbrev agent : Host
agent = record {
  cipher = crypto_engine 1;
  qt = plain_text;
  session_key = key;
  dynamic_otp = [];
  has_input_backend = true;
  has_clipboard = true;
}

abbrev agent_socket : Socket
agent_socket = record { authenticated = true; is_loopback = false; effects = [] }

send_input_event-handle_client_packet_example :
    (bytes : List ℕ) × (moved.outputs ≡ session.outputs ++ (wrote bytes ∷ []))
    × (p : Packet) × (decode bytes ≡ parsed p)
    × (handle_client_packet agent agent_socket p
        ≡ some (add (injected (event 1 10 20 0 0 0)) agent_socket))
send_input_event-handle_client_packet_example =
    send_input_event-handle_client_packet agent 1 10 20 0 0 0 session moved agent_socket
      (record {
        type_fits = omega arith;
        x_fits = omega arith;
        y_fits = omega arith;
        button_fits = omega arith;
        delta_fits = omega arith;
        keycode_fits = omega arith;
      })
      (unfold can_send in refl)
      (record { same_key = refl; input_backend = refl; let_in = refl; remote = refl }) send_move

-- A frame of one pixel, with a compression that changes nothing.
abbrev one_pixel : FrameData
one_pixel = record {
  stride = 4;
  format = rgba8888;
  width = 1;
  height = 1;
  pixel_data = 9 ∷ 8 ∷ 7 ∷ 255 ∷ [];
  frame_number = 1;
  timestamp_us = 5000;
}

abbrev sealed_frame : List ℕ
sealed_frame =
    93 ∷ 183 ∷ 63 ∷ 136 ∷ 209 ∷ 249 ∷ 110 ∷ 20 ∷ 150 ∷ 113 ∷ 149 ∷ 15 ∷ 95 ∷ 213 ∷ 110 ∷ 67 ∷ 101
    ∷ 20 ∷ 177 ∷ 183 ∷ 41 ∷ 227 ∷ 90 ∷ 134 ∷ 129 ∷ 71 ∷ 141 ∷ 118 ∷ 150 ∷ 202 ∷ 153 ∷ 38 ∷ []

capture_pixel :
    frame_bytes (crypto_engine 1) (λ bytes. bytes) session_key one_pixel
    ≡ some (encode frame_header 1 5 sealed_frame)
unfolding frame_bytes frame_plaintext byte_array encode nonce_of encrypt_payload chacha20_xor
    chacha20_loop words load store chacha20_block rounds double_round quarter_round_at quarter_round
    rotate_left add_words block_bytes xor_bytes compute_poly1305_mac mac_loop gather shift_count
    shift_one
capture_pixel = refl

on_packet-frame_bytes_example :
    (p : Packet) × (decode (encode frame_header 1 5 sealed_frame) ≡ parsed p)
    × (on_packet desk [] p session ≡ shown desk (λ bytes. bytes) one_pixel session)
on_packet-frame_bytes_example =
    on_packet-frame_bytes desk (λ bytes. bytes) one_pixel [] (encode frame_header 1 5 sealed_frame)
      session
      (record {
        row_fits = omega arith;
        height_fits = omega arith;
        number_fits = omega arith;
        time_fits = omega arith;
        size_fits = omega arith;
        whole = omega arith;
        has_width = omega arith;
        has_height = omega arith;
        has_pixels = refl;
      })
      refl refl refl capture_pixel
