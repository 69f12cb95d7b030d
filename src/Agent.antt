-- ===== src/Agent.antt =====
-- apps/agent/src/AgentPacketHandler.h: what the agent does with a packet of a client, and the loop in
-- apps/agent/src/main.cpp that takes packets out of the bytes a socket delivers.
pub mod Frames
pub mod Gate
pub mod Outcomes
pub mod Observers
pub mod Packets
pub mod Reading
pub mod Spec
pub mod Startup
use remote_access_platform.Prelude.{
  ℕ, zero, suc, ◌+◌, List, [], ◌∷◌, ◌++◌, Bool, true, false, ◌&&◌, ◌||◌, not, Option, none, some,
  length, drop, replicate, ltb, leb, ◌==◌, if◌then◌else◌, is_empty, same,
}
use remote_access_platform.Memory.{store, load}
use remote_access_platform.Protocol.{Packet, encode, decode, parsed, failed}
use remote_access_platform.Protocol.Payload.{
  input_event, clipboard_data, auth_request, auth_response, session_control,
}
use remote_access_platform.Security.Engine.Interface.{Cipher}
use remote_access_platform.Qt.{Text, QtText, literal}

-- `rap::input::InputEvent`; an `int32_t` is its bit pattern.
pub record InputEvent : Type 0 where
  pub type : ℕ
  pub x : ℕ
  pub y : ℕ
  pub button : ℕ
  pub delta : ℕ
  pub keycode : ℕ
  pub modifiers : ℕ

-- What the handler does to the world, in order.
pub data Effect : Type 0 where
  -- `clientSocket->write`, then `flush`
  wrote : List ℕ → Effect
  -- `clientSocket->disconnectFromHost`
  disconnected : Effect
  -- `inputBackend->injectEvent`
  injected : InputEvent → Effect
  -- `cb->setText`
  set_clipboard : Text → Effect
  -- the lock command given to `::system`
  locked_workstation : Effect

-- A client's socket: the two properties that the agent keeps on it, and what was done for it.
pub record Socket : Type 0 where
  pub authenticated : Bool
  pub is_loopback : Bool
  pub effects : List Effect

-- What the handler is given, or finds in the process.
pub record Host : Type 0 where
  pub cipher : Cipher
  pub qt : QtText
  pub session_key : List ℕ
  pub dynamic_otp : Text
  pub has_input_backend : Bool
  pub has_clipboard : Bool

abbrev pub add : Effect → Socket → Socket
add e s = record s { effects = s.effects ++ (e ∷ []) }

-- `std::vector<uint8_t> nonce(12, 0)` with the sequence number copied to its front.
unfoldable pub nonce_of : ℕ → List ℕ
nonce_of sequence_number = store 8 sequence_number ++ replicate 4 0

-- "admin123"
abbrev pub master_password : Text
master_password = b'a' ∷ b'd' ∷ b'm' ∷ b'i' ∷ b'n' ∷ b'1' ∷ b'2' ∷ b'3' ∷ []

unfoldable pub input_event_of : List ℕ → InputEvent
input_event_of plaintext = record {
  type = load 2 plaintext;
  x = load 4 (drop 4 plaintext);
  y = load 4 (drop 8 plaintext);
  button = load 4 (drop 12 plaintext);
  delta = load 4 (drop 16 plaintext);
  keycode = load 4 (drop 20 plaintext);
  modifiers = 0;
}

module _ (host : Host) where
  open host use {cipher, qt, session_key, dynamic_otp, has_input_backend, has_clipboard}

  -- `decryptPayload(packet.payload, sessionKey, nonce)`
  unfoldable pub decrypted : Packet → Option (List ℕ)
  decrypted packet =
      cipher.decrypt packet.payload session_key (nonce_of packet.header.sequence_number)

  unfoldable pub request_password : List ℕ → Text
  request_password plaintext = qt.remove_spaces (qt.trimmed (qt.from_utf8 plaintext))

  unfoldable pub auth_success : List ℕ → Bool
  auth_success plaintext =
      let password = request_password plaintext in
      same password (qt.remove_spaces dynamic_otp)
      || same password master_password
      || is_empty password

  -- The answer to an authentication request; `none` is an exception of `encryptPayload`.
  unfoldable pub auth_response_bytes : ℕ → Bool → Option (List ℕ)
  auth_response_bytes sequence_number success =
      elim (cipher.encrypt ((if success then 0 else 1) ∷ []) session_key
        (nonce_of sequence_number)) [
          | none ↦ none
          | some encrypted ↦ some (encode auth_response sequence_number 0 encrypted)
        ]

  unfoldable pub authenticate : Socket → ℕ → List ℕ → Option Socket
  authenticate socket sequence_number plaintext =
      let success = auth_success plaintext in
      let socket1 = record socket { authenticated = success } in
      elim (auth_response_bytes sequence_number success) [
        | none ↦ none
        | some bytes ↦
            (let socket2 = add (wrote bytes) socket1 in
              some (if success then socket2 else add disconnected socket2))
      ]

  unfoldable pub handle_auth_request : Socket → Packet → Option Socket
  handle_auth_request socket packet = elim (decrypted packet) [
    | none ↦ some socket
    | some plaintext ↦
        if is_empty plaintext
        then some socket
        else authenticate socket packet.header.sequence_number plaintext
  ]

  unfoldable pub handle_input_event : Socket → Packet → Socket
  handle_input_event socket packet =
      if socket.authenticated
      then (elim (decrypted packet) [
        | none ↦ socket
        | some plaintext ↦
            if leb 24 (length plaintext) && has_input_backend && not socket.is_loopback
            then add (injected (input_event_of plaintext)) socket
            else socket
      ])
      else socket

  unfoldable pub handle_clipboard_data : Socket → Packet → Socket
  handle_clipboard_data socket packet =
      if socket.authenticated
      then (elim (decrypted packet) [
        | none ↦ socket
        | some plaintext ↦
            if not (is_empty plaintext) && has_clipboard
            then add (set_clipboard (qt.from_utf8 plaintext)) socket
            else socket
      ])
      else socket

  -- Actions 1 and 3 are only logged.
  unfoldable pub handle_session_control : Socket → Packet → Socket
  handle_session_control socket packet =
      if socket.authenticated
      then (elim (decrypted packet) [
        | none ↦ socket
        | some plaintext ↦
            if leb 4 (length plaintext) && load 4 plaintext == 2
            then add locked_workstation socket
            else socket
      ])
      else socket

  unfoldable pub handle_client_packet : Socket → Packet → Option Socket
  handle_client_packet socket packet =
      let type = packet.header.type in
      let has_payload = not (is_empty packet.payload) in
      if type == auth_request && has_payload
      then handle_auth_request socket packet
      else if type == input_event && has_payload
      then some (handle_input_event socket packet)
      else if type == clipboard_data && has_payload
      then some (handle_clipboard_data socket packet)
      else if type == session_control && has_payload
      then some (handle_session_control socket packet)
      else some socket

  -- The loop of the `readyRead` handler over the bytes that `readAll` returned. What is left when it
  -- ends is dropped with the handler's local buffer. The first argument bounds the rounds; `none` is
  -- an exception, or a round more than the bound.
  unfoldable pub read_loop : ℕ → Socket → List ℕ → Option Socket
  read_loop zero socket buffer = if ltb (length buffer) 28 then some socket else none
  read_loop (suc fuel) socket buffer =
      if ltb (length buffer) 28 then some socket else (elim (decode buffer) [
        | failed e ↦ some socket
        | parsed packet ↦ elim (handle_client_packet socket packet) [
          | none ↦ none
          | some socket' ↦ read_loop fuel socket' (drop (28 + packet.header.payload_size) buffer)
        ]
      ])

  -- Every round takes 28 bytes at least, so that as many rounds as bytes are enough.
  unfoldable pub ready_read : Socket → List ℕ → Option Socket
  ready_read socket bytes = read_loop (length bytes) socket bytes

-- A socket just taken from the server, for a peer that is taken for loopback or not: the loopback
-- peer is authenticated at once.
unfoldable pub new_socket : Bool → Socket
new_socket is_loopback = record {
  authenticated = is_loopback;
  is_loopback = is_loopback;
  effects = [];
}

-- `peerAddress()`: what Qt says of it, and its text.
pub record PeerAddress : Type 0 where
  pub is_loopback : Bool
  pub text : Text

module _ (host : Host) where
  -- The test for a client on the agent's own machine.
  unfoldable pub is_loopback_peer : PeerAddress → Bool
  is_loopback_peer peer =
      peer.is_loopback
      || host.qt.contains peer.text (literal "127.")
      || host.qt.contains peer.text (literal "::1")
      || host.qt.contains peer.text (literal "localhost")
      || is_empty peer.text

  unfoldable pub accept : PeerAddress → Socket
  accept peer = new_socket (is_loopback_peer peer)
