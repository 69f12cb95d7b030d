-- ===== src/Client/Login.antt =====
-- From the password in the client to its being told that it is in.
pub mod Request
pub mod Answer
use remote_access_platform.Prelude.{
  ℕ, ◌+◌, ◌%◌, ◌^◌, ◌≤◌, ◌<◌, ◌≡◌, ◌≢◌, inl, inr, refl, sym, ap, ◌∙◌, List, [], ◌∷◌, ◌++◌, Bool,
  true, false, Option, none, some, length, same, same_iff, is_empty, if◌then◌else◌, ◌==◌, get_or,
  arith, Option-cases, Bool-cases, if-false,
}
use mathlib.Core.Path.{subst}
use mathlib.Core.List.{append-nil, append_assoc}
use remote_access_platform.Protocol.{Packet, encode, decode, parsed}
use remote_access_platform.Protocol.Payload.{auth_request, auth_response}
use remote_access_platform.Protocol.RoundTrip.{packet_of, decode-encode, length-encode}
use remote_access_platform.Qt.{Text, QtText, literal}
use remote_access_platform.Security.Engine.Interface.{Cipher}
use remote_access_platform.Agent.{
  Host, Socket, wrote, nonce_of, accept, new_socket, PeerAddress, is_loopback_peer, decrypted,
  auth_success, auth_response_bytes, authenticate, handle_auth_request, handle_client_packet,
  ready_read,
}
use remote_access_platform.Agent.Gate.{
  answered, authenticate-eq_some, handle_client_packet-auth_request,
}
use remote_access_platform.Agent.Outcomes.{
  auth_code, auth_response_bytes-eq_some, authenticate-ne-none,
}
use remote_access_platform.Agent.Packets.{Message, Fits, stream, received, bytes_of}
use remote_access_platform.Agent.Reading.{handle_all, ready_read-stream}
use remote_access_platform.Client.{
  Session, Output, session_key, put, set_status, target_name, wrote as client_wrote,
  status_text_changed, connection_state_changed, reconnect_attempts_changed, end_reconnecting,
}
use remote_access_platform.Client.Send.{send_packet}
use remote_access_platform.Client.Send.Delivery.{Delivered, send_packet-Delivered}
use remote_access_platform.Client.Connection.{on_connected}
use remote_access_platform.Client.Receive.{
  Desk, opened, with_plaintext, on_auth_response, on_packet, on_ready_read,
}
use remote_access_platform.Client.Receive.Buffer.{with_buffer, LeavesBuffer}
use remote_access_platform.Client.Receive.Single.{on_ready_read_single}
use remote_access_platform.Client.Login.Request.{Asked, on_connected-Asked}
use remote_access_platform.Client.Login.Answer.{
  verified, status_text-set_status, handle_client_packet_grants, ready_read_single,
  on_ready_read-verified,
}

-- The packet that the client begins with.
abbrev pub first_message : List ℕ → Message
first_message payload = record {
  type = auth_request;
  sequence_number = 1;
  timestamp_ms = 0;
  payload = payload;
}

module _ (host : Host) (desk : Desk) (time : Text) where
  -- If the password of a client is one that the agent's host, with the same cipher and the
  -- client's key, lets in, is not empty and is below 2 ^ 31 bytes with its tag and header, its
  -- slot for a new connection, if it returns, has written a packet that makes the agent let it in,
  -- from a peer that the agent does not take for its own machine, and write one answer, on which
  -- the client shows that its session is verified.
  pub on_connected-ready_read-on_ready_read :
      (now_ms : ℕ) (s t : Session) (peer : PeerAddress)
      → is_loopback_peer host peer ≡ false
      → host.cipher ≡ desk.cipher
      → host.session_key ≡ session_key
      → desk.qt.to_utf8 s.requested_password ≢ []
      → length (desk.qt.to_utf8 s.requested_password) + 44 < 2 ^ 31
      → auth_success host (desk.qt.to_utf8 s.requested_password) ≡ true
      → on_connected desk.qt desk.cipher now_ms s ≡ some t
      → (request answer : List ℕ) × (before after : List Output) × (t.outputs
          ≡ before ++ (client_wrote request ∷ after))
        × (ready_read host (accept host peer) request
            ≡ some
                (record { authenticated = true; is_loopback = false; effects = wrote answer ∷ [] }))
        × ((on_ready_read desk time answer t).status_text ≡ verified t)
  unfolding decrypted accept new_socket
  on_connected-ready_read-on_ready_read now_ms s t peer far same_cipher same_key ne fits passes h =
      let password = desk.qt.to_utf8 s.requested_password in
      let a = on_connected-Asked desk.cipher desk.qt now_ms s t fits h in
      let m = first_message a.payload in
      let opens : decrypted host (received m) ≡ some password =
        rw (same_cipher, same_key) a.decrypts in
      let (answer, sealed, let_in) =
        handle_client_packet_grants host m password refl a.has_payload (ap length same_key) opens ne
          passes in
      let (c, code, bytes) = auth_response_bytes-eq_some host 1 true answer sealed in
      let sealed_code : desk.cipher.encrypt (0 ∷ []) session_key (nonce_of 1) ≡ some c =
        ap (λ (k : Cipher). k.encrypt (0 ∷ []) session_key (nonce_of 1)) (sym same_cipher)
        ∙ ap (λ k. host.cipher.encrypt (0 ∷ []) k (nonce_of 1)) (sym same_key)
        ∙ code in
      (
        bytes_of m,
        answer,
        a.before,
        a.after,
        a.wrote_it,
        ap (λ q. ready_read host (new_socket q) (bytes_of m)) far
            ∙ ready_read_single host m (answered host (new_socket false) true answer)
                (record {
                  type_fits = omega arith;
                  sequence_number_fits = omega arith;
                  timestamp_ms_fits = omega arith;
                  payload_fits = omega (arith, a.size);
                })
                let_in
            ∙ refl,
        ap (λ b. (on_ready_read desk time b t).status_text) bytes
            ∙ ap (λ k. k.status_text)
                (on_ready_read-verified desk time 1 c t (omega arith) a.buffer_is_empty sealed_code)
            ∙ status_text-set_status (verified t) t,
      )
