-- ===== src/Tests/Login.antt =====
-- A login with the password 42.
use remote_access_platform.Prelude.{
  ℕ, ◌≡◌, refl, List, [], ◌∷◌, ◌++◌, true, false, some, arith, same,
}
use remote_access_platform.Protocol.{encode}
use remote_access_platform.Protocol.Payload.{auth_request}
use remote_access_platform.Security.Engine.{encrypt_payload}
use remote_access_platform.Security.Engine.Interface.{crypto_engine}
use remote_access_platform.Security.Chacha20.{
  rotate_left, quarter_round, quarter_round_at, double_round, rounds, add_words, chacha20_block,
  words, block_bytes, xor_bytes, chacha20_loop, chacha20_xor,
}
use remote_access_platform.Security.Poly1305.{
  gather, shift_count, shift_one, mac_loop, compute_poly1305_mac,
}
use remote_access_platform.Memory.{store, load}
use remote_access_platform.Qt.{literal, byte_array}
use remote_access_platform.Tests.Host.{plain_text, host, far, far_away, sealed_password}
use remote_access_platform.Tests.Client.{session, desk}
use remote_access_platform.Agent.{
  accept, nonce_of, wrote as agent_wrote, ready_read, auth_success, request_password,
}
use remote_access_platform.Client.{
  Session, Output, wrote, reconnect_attempts_changed, status_text_changed, connection_state_changed,
  set_status, end_reconnecting, target_name,
}
use remote_access_platform.Client.Send.{send_packet}
use remote_access_platform.Client.Connection.{on_connected}
use remote_access_platform.Client.Receive.{on_ready_read}
use remote_access_platform.Client.Login.Answer.{verified}
use remote_access_platform.Client.Login.{on_connected-ready_read-on_ready_read}

abbrev asker : Session
asker = record session { requested_password = b'4' ∷ b'2' ∷ [] }

abbrev asked : Session
asked = record asker {
  input_sequence = 1;
  session_start_time_ms = 7;
  status_text = literal "Connected to x";
  outputs =
      reconnect_attempts_changed 0
      ∷ wrote (encode auth_request 1 0 sealed_password)
      ∷ status_text_changed (literal "Connected to x")
      ∷ connection_state_changed true
      ∷ [];
}

asks : on_connected plain_text (crypto_engine 1) 7 asker ≡ some asked
unfolding on_connected send_packet byte_array encode end_reconnecting set_status target_name same
    nonce_of encrypt_payload chacha20_xor chacha20_loop words load store chacha20_block rounds
    double_round quarter_round_at quarter_round rotate_left add_words block_bytes xor_bytes
    compute_poly1305_mac mac_loop gather shift_count shift_one
asks = refl

passes : auth_success host (b'4' ∷ b'2' ∷ []) ≡ true
unfolding auth_success request_password same
passes = refl

on_connected-ready_read-on_ready_read_example :
    (request answer : List ℕ) × (before after : List Output) × (asked.outputs
      ≡ before ++ (wrote request ∷ after))
    × (ready_read host (accept host far) request
        ≡ some (record {
          authenticated = true;
          is_loopback = false;
          effects = agent_wrote answer ∷ [];
        }))
    × ((on_ready_read desk [] answer asked).status_text ≡ verified asked)
on_connected-ready_read-on_ready_read_example =
    on_connected-ready_read-on_ready_read host desk [] 7 asker asked far far_away refl refl
      (λ e. cc) (omega arith) passes asks
