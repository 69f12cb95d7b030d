-- ===== src/Client/Login/Request.antt =====
-- The packet with which the client begins a connection: the password, under sequence number 1.
use remote_access_platform.Prelude.{
  ℕ, ◌+◌, ◌%◌, ◌^◌, ◌<◌, ◌≡◌, inl, inr, refl, sym, ap, ◌∙◌, List, [], ◌∷◌, ◌++◌, true, false, some,
  length, same, is_empty, arith, Option-cases, Bool-cases,
}
use mathlib.Core.Path.{subst}
use mathlib.Core.List.{append-nil, append_assoc}
use remote_access_platform.Protocol.{encode}
use remote_access_platform.Protocol.Payload.{auth_request}
use remote_access_platform.Qt.{Text, QtText, literal}
use remote_access_platform.Security.Engine.Interface.{Cipher}
use remote_access_platform.Agent.{nonce_of}
use remote_access_platform.Client.{
  Session, Output, session_key, put, set_status, target_name, wrote as client_wrote,
  status_text_changed, connection_state_changed, reconnect_attempts_changed, end_reconnecting,
}
use remote_access_platform.Client.Send.{send_packet}
use remote_access_platform.Client.Send.Delivery.{send_packet-Delivered}
use remote_access_platform.Client.Connection.{on_connected}

set_status_outputs :
    (text : Text) (s : Session)
    → (rest : List Output) × ((set_status text s).outputs ≡ s.outputs ++ rest)
unfolding set_status
set_status_outputs text s = elim (Bool-cases (same s.status_text text)) [
  | inl e ↦ ([], rw e (sym (append-nil s.outputs)))
  | inr e ↦ (status_text_changed text ∷ [], rw e refl)
]

set_status_buffer :
    (text : Text) (s : Session) → (set_status text s).receive_buffer ≡ s.receive_buffer
unfolding set_status
set_status_buffer text s = ground arith

-- What the client has done once it is connected: the password went out in its first packet.
pub record Asked (cipher : Cipher) (password : List ℕ) (t : Session) : Type 0 where
  pub payload : List ℕ
  pub before : List Output
  pub after : List Output
  pub wrote_it : t.outputs ≡ before ++ (client_wrote (encode auth_request 1 0 payload) ∷ after)
  pub decrypts : cipher.decrypt payload session_key (nonce_of 1) ≡ some password
  pub has_payload : is_empty payload ≡ false
  pub size : length payload ≡ length password + 16
  pub buffer_is_empty : t.receive_buffer ≡ []

module _ (cipher : Cipher) (qt : QtText) where
  abbrev fresh : ℕ → Session → Session
  fresh now_ms s = put (reconnect_attempts_changed 0) (
      end_reconnecting (record s {
        is_connected = true;
        receive_buffer = [];
        received_frames = 0;
        input_sequence = 0;
        reconnect_attempts = 0;
        session_start_time_ms = now_ms;
      }))

  fresh_lem :
      (now_ms : ℕ) (s : Session)
      → ((fresh now_ms s).input_sequence ≡ 0)
        × ((fresh now_ms s).receive_buffer ≡ [])
        × ((fresh now_ms s).requested_password ≡ s.requested_password)
  unfolding end_reconnecting
  fresh_lem now_ms s = ground arith

  on_connected-eq_some :
      (now_ms : ℕ) (s t : Session)
      → on_connected qt cipher now_ms s ≡ some t
      → (u : Session) × (send_packet cipher auth_request
            (qt.to_utf8 s.requested_password)
            (fresh now_ms s)
          ≡ some u)
        × (t
            ≡ put
                (connection_state_changed true)
                (set_status (literal "Connected to " ++ target_name u) u))
  unfolding on_connected
  on_connected-eq_some now_ms s t h =
      elim (Option-cases (
        send_packet cipher auth_request (qt.to_utf8 (fresh now_ms s).requested_password)
          (fresh now_ms s))) [
            | inl e ↦ cc (rw (e, on_connected) at h)
            | inr (u, e) ↦ (
              u,
              subst (λ w. send_packet cipher auth_request (qt.to_utf8 w) (fresh now_ms s) ≡ some u)
                  (fresh_lem now_ms s).2 e,
              ground (arith, e),
            )
          ]

  pub on_connected-Asked :
      (now_ms : ℕ) (s t : Session)
      → length (qt.to_utf8 s.requested_password) + 44 < 2 ^ 31
      → on_connected qt cipher now_ms s ≡ some t
      → Asked cipher (qt.to_utf8 s.requested_password) t
  on_connected-Asked now_ms s t fits h =
      let (u, sent, same_t) = on_connected-eq_some now_ms s t h in
      let password = qt.to_utf8 s.requested_password in
      let state = fresh_lem now_ms s in
      let d =
        send_packet-Delivered cipher auth_request password (fresh now_ms s) u (omega arith) fits
          sent in
      let one : ((fresh now_ms s).input_sequence + 1) % 2 ^ 64 ≡ 1 = omega (arith, state.0) in
      let (rest, grown) = set_status_outputs (literal "Connected to " ++ target_name u) u in
      let opens =
        subst (λ n. cipher.decrypt d.payload session_key (nonce_of n) ≡ some password) one
          d.decrypts in
      record {
        payload = d.payload;
        before = (fresh now_ms s).outputs;
        after = rest ++ (connection_state_changed true ∷ []);
        wrote_it =
            ap (λ k. k.outputs) same_t
            ∙ ap (λ k. k ++ (connection_state_changed true ∷ []))
                (grown
                  ∙ ap (λ k. k.outputs ++ rest) d.sent
                  ∙ ap
                      (λ n.
                        ((fresh now_ms s).outputs
                          ++ (client_wrote (encode auth_request n 0 d.payload) ∷ []))
                        ++ rest)
                      one)
            ∙ simp (append_assoc) refl;
        decrypts = opens;
        has_payload = d.has_payload;
        size =
            cipher.length-encrypt password session_key (nonce_of 1) d.payload
              (cipher.encrypt-decrypt d.payload session_key (nonce_of 1) password opens);
        buffer_is_empty =
            ap (λ k. k.receive_buffer) same_t
            ∙ set_status_buffer (literal "Connected to " ++ target_name u) u
            ∙ ap (λ k. k.receive_buffer) d.sent
            ∙ state.1;
      }
