-- ===== src/Tests/Host.antt =====
-- The agent on concrete packets.
use remote_access_platform.Prelude.{
  ℕ, Bool, ◌&&◌, ◌||◌, ◌==◌, ◌≡◌, refl, List, [], ◌∷◌, ◌++◌, true, false, some, arith, drop, take,
  same,
}
use remote_access_platform.Qt.{Text, QtText, literal}
use remote_access_platform.Protocol.{encode, decode, parsed}
use remote_access_platform.Protocol.Payload.{auth_request, auth_response, input_event}
use remote_access_platform.Protocol.RoundTrip.{packet_of}
use remote_access_platform.Security.Engine.{encrypt_payload}
use remote_access_platform.Security.Engine.Laws.{decrypt_payload-encrypt_payload}
use remote_access_platform.Security.Engine.Interface.{crypto_engine}
use remote_access_platform.Security.Chacha20.{
  rotate_left, quarter_round, quarter_round_at, double_round, rounds, add_words, chacha20_block,
  words, block_bytes, xor_bytes, chacha20_loop, chacha20_xor,
}
use remote_access_platform.Security.Poly1305.{
  gather, shift_count, shift_one, mac_loop, compute_poly1305_mac,
}
use remote_access_platform.Memory.{store, load}
use remote_access_platform.Tests.Crypto.{key}
use remote_access_platform.Agent.{
  Host, Socket, wrote, nonce_of, new_socket, PeerAddress, is_loopback_peer, decrypted, auth_success,
  request_password, authenticate, auth_response_bytes, handle_auth_request, ready_read,
}
use remote_access_platform.Agent.Gate.{answered}
use remote_access_platform.Agent.Outcomes.{auth_code, handle_auth_request-answer}
use remote_access_platform.Agent.Packets.{Message, bytes_of, received, Fits}
use remote_access_platform.Agent.Reading.{ready_read_incomplete}

abbrev is_front : Text → Text → Bool
is_front [] text = true
is_front (x ∷ xs) [] = false
is_front (x ∷ xs) (y ∷ ys) = x == y && is_front xs ys

abbrev pub has_part : Text → Text → Bool
has_part [] part = is_front part []
has_part (x ∷ xs) part = is_front part (x ∷ xs) || has_part xs part

-- A stand-in for Qt on ASCII text without spaces.
abbrev pub plain_text : QtText
plain_text = record {
  from_utf8 = λ bytes. bytes;
  to_utf8 = λ text. text;
  trimmed = λ text. text;
  remove_spaces = λ text. text;
  contains = has_part;
  starts_with = λ text prefix. false;
  mid = λ text n. drop n text;
  number = λ n. n ∷ [];
  arg = λ text value. text ++ value;
}

-- The one-time password is 42.
abbrev pub host : Host
host = record {
  cipher = crypto_engine 1;
  qt = plain_text;
  session_key = key;
  dynamic_otp = b'4' ∷ b'2' ∷ [];
  has_input_backend = true;
  has_clipboard = true;
}

-- A peer that neither Qt nor the agent takes for its own machine.
abbrev pub far : PeerAddress
far = record { is_loopback = false; text = literal "10.0.0.15" }

pub far_away : is_loopback_peer host far ≡ false
unfolding is_loopback_peer
far_away = refl

-- A peer on another machine whose address has 127. in it.
taken_for_own :
    is_loopback_peer host (record { is_loopback = false; text = literal "10.127.0.5" }) ≡ true
unfolding is_loopback_peer
taken_for_own = refl

-- The password 42 as the client sends it with sequence number 1.
abbrev pub sealed_password : List ℕ
sealed_password =
    104 ∷ 133 ∷ 13 ∷ 224 ∷ 84 ∷ 69 ∷ 23 ∷ 2 ∷ 0 ∷ 0 ∷ 173 ∷ 149 ∷ 12 ∷ 253 ∷ 46 ∷ 4 ∷ 0 ∷ 0 ∷ []

-- The answer's code 0.
abbrev sealed_code : List ℕ
sealed_code = 92 ∷ 13 ∷ 200 ∷ 38 ∷ 133 ∷ 1 ∷ 0 ∷ 0 ∷ 0 ∷ 125 ∷ 57 ∷ 152 ∷ 246 ∷ 2 ∷ 0 ∷ 0 ∷ 0 ∷ []

encrypt_password : encrypt_payload 1 (b'4' ∷ b'2' ∷ []) key (nonce_of 1) ≡ some sealed_password
unfolding nonce_of encrypt_payload chacha20_xor chacha20_loop words load store chacha20_block rounds
    double_round quarter_round_at quarter_round rotate_left add_words block_bytes xor_bytes
    compute_poly1305_mac mac_loop gather shift_count shift_one
encrypt_password = refl

abbrev login : Message
login = record {
  type = auth_request;
  sequence_number = 1;
  timestamp_ms = 0;
  payload = sealed_password;
}

decrypt_password : decrypted host (received login) ≡ some (b'4' ∷ b'2' ∷ [])
unfolding decrypted
decrypt_password =
    decrypt_payload-encrypt_payload 1 (b'4' ∷ b'2' ∷ []) key (nonce_of 1) sealed_password
      encrypt_password

abbrev let_in : Socket
let_in = record {
  authenticated = true;
  is_loopback = false;
  effects = wrote (encode auth_response 1 0 sealed_code) ∷ [];
}

answer_login : authenticate host (new_socket false) 1 (b'4' ∷ b'2' ∷ []) ≡ some let_in
unfolding authenticate auth_success request_password same auth_response_bytes new_socket encode
    nonce_of encrypt_payload chacha20_xor chacha20_loop words load store chacha20_block rounds
    double_round quarter_round_at quarter_round rotate_left add_words block_bytes xor_bytes
    compute_poly1305_mac mac_loop gather shift_count shift_one
answer_login = refl

handle_login : handle_auth_request host (new_socket false) (received login) ≡ some let_in
unfolding handle_auth_request
handle_login = rw (decrypt_password, handle_auth_request) answer_login

login-Fits : Fits login
login-Fits = record {
  type_fits = omega arith;
  sequence_number_fits = omega arith;
  timestamp_ms_fits = omega arith;
  payload_fits = omega arith;
}

handle_auth_request-answer_example :
    (let_in.authenticated ≡ auth_success host (b'4' ∷ b'2' ∷ []))
    × (bytes : List ℕ) × (let_in
        ≡ answered host (new_socket false) (auth_success host (b'4' ∷ b'2' ∷ [])) bytes)
    × (c : List ℕ) × (decode bytes ≡ parsed (packet_of auth_response 1 0 c))
    × (host.cipher.decrypt c host.session_key (nonce_of 1)
        ≡ some (auth_code host (auth_success host (b'4' ∷ b'2' ∷ [])) ∷ []))
handle_auth_request-answer_example =
    handle_auth_request-answer host (new_socket false) let_in (received login) (b'4' ∷ b'2' ∷ [])
      decrypt_password (λ c. cc) (omega arith) handle_login

-- An input event before the login.
abbrev early : Message
early = record {
  type = input_event;
  sequence_number = 2;
  timestamp_ms = 0;
  payload = sealed_password;
}

ready_read_incomplete_example :
    ready_read host (new_socket false) (take 30 (bytes_of login)) ≡ some (new_socket false)
ready_read_incomplete_example =
    ready_read_incomplete host (new_socket false) login (take 30 (bytes_of login))
      (drop 30 (bytes_of login)) login-Fits (unfold encode store in refl)
      (unfold encode store in omega arith)
