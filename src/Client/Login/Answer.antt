-- ===== src/Client/Login/Answer.antt =====
-- The agent's answer to a password that passes, and what the client shows on it.
use remote_access_platform.Prelude.{
  ℕ, ◌^◌, ◌≤◌, ◌<◌, ◌≡◌, ◌≢◌, inl, inr, refl, sym, ap, ◌∙◌, List, [], ◌∷◌, ◌++◌, true, false, some,
  length, same, same_iff, is_empty, arith, Option-cases, Bool-cases, if-false,
}
use mathlib.Core.List.{append-nil}
use remote_access_platform.Protocol.{Packet, encode, decode, parsed}
use remote_access_platform.Protocol.Payload.{auth_request, auth_response}
use remote_access_platform.Protocol.RoundTrip.{packet_of, decode-encode, length-encode}
use remote_access_platform.Qt.{Text, literal}
use remote_access_platform.Agent.{
  Host, Socket, nonce_of, new_socket, decrypted, auth_success, auth_response_bytes, authenticate,
  handle_auth_request, handle_client_packet, ready_read,
}
use remote_access_platform.Agent.Gate.{
  answered, authenticate-eq_some, handle_client_packet-auth_request,
}
use remote_access_platform.Agent.Outcomes.{authenticate-ne-none}
use remote_access_platform.Agent.Packets.{Message, Fits, received, bytes_of}
use remote_access_platform.Agent.Reading.{handle_all, ready_read-stream}
use remote_access_platform.Client.{Session, session_key, set_status, target_name}
use remote_access_platform.Client.Receive.{
  Desk, opened, with_plaintext, on_auth_response, on_packet, on_ready_read,
}
use remote_access_platform.Client.Receive.Buffer.{
  with_buffer, LeavesBuffer, set_status-LeavesBuffer,
}
use remote_access_platform.Client.Receive.Single.{on_ready_read_single}

abbrev pub verified : Session → Text
verified s =
    literal "Connected to "
    ++ (target_name s ++ (literal " " ++ (0x2014 ∷ literal " Session Verified")))

pub status_text-set_status : (text : Text) (s : Session) → (set_status text s).status_text ≡ text
unfolding set_status
status_text-set_status text s = elim (Bool-cases (same s.status_text text)) [
  | inl e ↦ rw e ((same_iff s.status_text text).0 e)
  | inr e ↦ rw e refl
]

module _ (host : Host) where
  handle_auth_request-decrypted :
      (s : Socket) (p : Packet) (d : List ℕ)
      → decrypted host p ≡ some d
      → d ≢ []
      → handle_auth_request host s p ≡ authenticate host s p.header.sequence_number d
  unfolding handle_auth_request
  handle_auth_request-decrypted s p [] e ne = absurd (ne refl)
  handle_auth_request-decrypted s p (b ∷ d) e ne = rw (e, handle_auth_request) refl

  -- A message that decrypts to a password that passes lets the client in.
  pub handle_client_packet_grants :
      (m : Message) (d : List ℕ)
      → m.type ≡ auth_request
      → is_empty m.payload ≡ false
      → length host.session_key ≡ 32
      → decrypted host (received m) ≡ some d
      → d ≢ []
      → auth_success host d ≡ true
      → (bytes : List ℕ) × (auth_response_bytes host m.sequence_number true ≡ some bytes)
        × (handle_client_packet host (new_socket false) (received m)
            ≡ some (answered host (new_socket false) true bytes))
  handle_client_packet_grants m d a full k e ne y =
      let goes =
        handle_client_packet-auth_request host (new_socket false) (received m) a
        ∙ if-false (some (new_socket false))
            (handle_auth_request host (new_socket false) (received m)) full
        ∙ handle_auth_request-decrypted (new_socket false) (received m) d e ne in
      elim (Option-cases (authenticate host (new_socket false) m.sequence_number d)) [
        | inl none_there ↦
            absurd (authenticate-ne-none host (new_socket false) m.sequence_number d k none_there)
        | inr (t, there) ↦
            (let (bytes, eb, same_t) =
                authenticate-eq_some host (new_socket false) t m.sequence_number d there in
              (
                bytes,
                ap (auth_response_bytes host m.sequence_number) (sym y) ∙ eb,
                goes
                    ∙ there
                    ∙ ap some (same_t ∙ ap (λ q. answered host (new_socket false) q bytes) y),
              ))
      ]

module _ (host : Host) where
  -- One message in one read.
  pub ready_read_single :
      (m : Message) (t : Socket)
      → Fits m
      → handle_client_packet host (new_socket false) (received m) ≡ some t
      → ready_read host (new_socket false) (bytes_of m) ≡ some t
  unfolding handle_all
  ready_read_single m t fits h =
      ap (ready_read host (new_socket false)) (sym (append-nil (bytes_of m)))
      ∙ ready_read-stream host (new_socket false) (m ∷ []) (fits, tt)
      ∙ rw (h, handle_all) refl

module _ (desk : Desk) (time : Text) where
  same_buffer :
      (p : Packet)
      → ((u : Session) → on_packet desk time p u ≡ set_status (verified u) u)
      → LeavesBuffer (on_packet desk time p)
  unfolding target_name
  same_buffer p all b u =
      all (with_buffer b u)
      ∙ set_status-LeavesBuffer (verified u) b u
      ∙ ap (with_buffer b) (sym (all u))

  -- A client that has no bytes left over reads an answer that carries the code 0.
  pub on_ready_read-verified :
      (n : ℕ) (c : List ℕ) (s : Session)
      → n < 2 ^ 64
      → s.receive_buffer ≡ []
      → desk.cipher.encrypt (0 ∷ []) session_key (nonce_of n) ≡ some c
      → on_ready_read desk time (encode auth_response n 0 c) s
        ≡ with_buffer [] (set_status (verified s) s)
  unfolding on_packet with_plaintext opened on_auth_response
  on_ready_read-verified n c s fits e sealed =
      let size = desk.cipher.length-encrypt (0 ∷ []) session_key (nonce_of n) c sealed in
      let opens = desk.cipher.decrypt-encrypt (0 ∷ []) session_key (nonce_of n) c sealed in
      let full : is_empty c ≡ false = nonempty c (omega (arith, size)) in
      let parses : decode (encode auth_response n 0 c) ≡ parsed (packet_of auth_response n 0 c) =
        rw (← append-nil (encode auth_response n 0 c)) (
          decode-encode auth_response n 0 c [] (record {
            type_fits = omega arith;
            sequence_number_fits = fits;
            timestamp_ms_fits = omega arith;
            payload_fits = omega (arith, size);
          })) in
      let done : (u : Session)
          → on_packet desk time (packet_of auth_response n 0 c) u ≡ set_status (verified u) u =
        λ u. ground (arith, full, opens) in
      on_ready_read_single desk time (encode auth_response n 0 c) (packet_of auth_response n 0 c) s
        (same_buffer (packet_of auth_response n 0 c) done) e parses
        (length-encode auth_response n 0 c (omega (arith, size)))
      ∙ ap (with_buffer []) (done s)
    where
      nonempty : (c : List ℕ) → 1 ≤ length c → is_empty c ≡ false
      nonempty [] l = absurd (omega arith)
      nonempty (x ∷ c) l = refl
