-- ===== src/Client/Send/Delivery.antt =====
-- What the client sends is what the agent acts on.
use remote_access_platform.Prelude.{
  ℕ, ◌+◌, ◌%◌, ◌^◌, ◌≤◌, ◌<◌, ◌≡◌, inl, inr, refl, sym, ap, ◌∙◌, List, [], ◌∷◌, ◌++◌, true, false,
  some, length, replicate, length-append, arith, is_empty, Option-cases,
}
use mathlib.Core.List.{append-nil}
use remote_access_platform.Memory.{store, load, load-store, length-store}
use remote_access_platform.Protocol.{PayloadType, Packet, encode, decode, parsed}
use remote_access_platform.Protocol.Payload.{input_event}
use remote_access_platform.Protocol.RoundTrip.{packet_of, decode-encode, length-encode}
use remote_access_platform.Qt.{byte_array_whole}
use remote_access_platform.Security.Engine.Interface.{Cipher}
use remote_access_platform.Agent.{
  Host, Socket, InputEvent, injected, add, nonce_of, input_event_of, decrypted, handle_input_event,
  handle_client_packet,
}
use remote_access_platform.Client.{Session, wrote, session_key, put, can_send}
use remote_access_platform.Client.Send.{input_plaintext, send_packet, send_input_event}

-- The session after a packet, and the packet as the agent reads it.
pub record Delivered (cipher : Cipher) (type : PayloadType) (plaintext : List ℕ) (s t : Session)
    : Type 0 where
  pub payload : List ℕ
  pub sent :
      t
      ≡ put
          (wrote (encode type ((s.input_sequence + 1) % 2 ^ 64) 0 payload))
          (record s { input_sequence = (s.input_sequence + 1) % 2 ^ 64 })
  pub parses :
      decode (encode type ((s.input_sequence + 1) % 2 ^ 64) 0 payload)
      ≡ parsed (packet_of type ((s.input_sequence + 1) % 2 ^ 64) 0 payload)
  pub decrypts :
      cipher.decrypt payload session_key (nonce_of ((s.input_sequence + 1) % 2 ^ 64))
      ≡ some plaintext
  pub has_payload : is_empty payload ≡ false

module _ (cipher : Cipher) where
  pub send_packet-Delivered :
      (type : PayloadType) (plaintext : List ℕ) (s t : Session)
      → type < 2 ^ 16
      → length plaintext + 44 < 2 ^ 31
      → send_packet cipher type plaintext s ≡ some t
      → Delivered cipher type plaintext s t
  unfolding send_packet
  send_packet-Delivered type plaintext s t ht hp h =
      let n = (s.input_sequence + 1) % 2 ^ 64 in
      elim (Option-cases (cipher.encrypt plaintext session_key (nonce_of n))) [
        | inl e ↦ cc (rw (e, send_packet) at h)
        | inr (c, e) ↦
            (let size = cipher.length-encrypt plaintext session_key (nonce_of n) c e in
              let whole =
                byte_array_whole (encode type n 0 c)
                  (omega (arith, length-encode type n 0 c (omega (arith, size)), size)) in
              record {
                payload = c;
                sent = ground (arith, e, whole);
                parses = rw (← append-nil (encode type n 0 c)) (
                    decode-encode type n 0 c [] (record {
                      type_fits = ht;
                      sequence_number_fits = omega arith;
                      timestamp_ms_fits = omega arith;
                      payload_fits = omega (arith, size);
                    }));
                decrypts = cipher.decrypt-encrypt plaintext session_key (nonce_of n) c e;
                has_payload = nonempty c (omega (arith, size));
              })
      ]
    where
      nonempty : (c : List ℕ) → 16 ≤ length c → is_empty c ≡ false
      nonempty [] l = absurd (omega arith)
      nonempty (x ∷ c) l = refl

length-input_plaintext :
    (type x y button delta keycode : ℕ)
    → length (input_plaintext type x y button delta keycode) ≡ 24
unfolding input_plaintext
length-input_plaintext type x y button delta keycode = simp (length-append, length-store) refl

abbrev pub event : ℕ → ℕ → ℕ → ℕ → ℕ → ℕ → InputEvent
event type x y button delta keycode = record {
  type = type;
  x = x;
  y = y;
  button = button;
  delta = delta;
  keycode = keycode;
  modifiers = 0;
}

event_cong :
    {t t' x x' y y' b b' d d' k k' : ℕ}
    → t ≡ t'
    → x ≡ x'
    → y ≡ y'
    → b ≡ b'
    → d ≡ d'
    → k ≡ k'
    → event t x y b d k ≡ event t' x' y' b' d' k'
event_cong e1 e2 e3 e4 e5 e6 = cc

-- Fields of the sizes that the client's parameters have.
pub record FitsEvent (type x y button delta keycode : ℕ) : Type 0 where
  pub type_fits : type < 2 ^ 16
  pub x_fits : x < 2 ^ 32
  pub y_fits : y < 2 ^ 32
  pub button_fits : button < 2 ^ 32
  pub delta_fits : delta < 2 ^ 32
  pub keycode_fits : keycode < 2 ^ 32

load-store_end : (v : ℕ) → v < 2 ^ 32 → load 4 (store 4 v) ≡ v
load-store_end v h =
    ap (load 4) (sym (append-nil (store 4 v))) ∙ load-store 4 v [] (omega (arith, h))

input_event_of-input_plaintext :
    (type x y button delta keycode : ℕ)
    → FitsEvent type x y button delta keycode
    → input_event_of (input_plaintext type x y button delta keycode)
      ≡ event type x y button delta keycode
unfolding input_event_of input_plaintext store
input_event_of-input_plaintext type x y button delta keycode f =
    let r4 = store 4 delta ++ store 4 keycode in
    let r3 = store 4 button ++ r4 in
    let r2 = store 4 y ++ r3 in
    let r1 = store 4 x ++ r2 in
    event_cong (load-store 2 type (replicate 2 0 ++ r1) (omega (arith, f.type_fits)))
      (load-store 4 x r2 (omega (arith, f.x_fits))) (load-store 4 y r3 (omega (arith, f.y_fits)))
      (load-store 4 button r4 (omega (arith, f.button_fits)))
      (load-store 4 delta (store 4 keycode) (omega (arith, f.delta_fits)))
      (load-store_end keycode f.keycode_fits)

module _ (host : Host) where
  -- A socket that the agent takes input events from.
  pub record TakesInput (socket : Socket) : Type 0 where
    pub same_key : host.session_key ≡ session_key
    pub input_backend : host.has_input_backend ≡ true
    pub let_in : socket.authenticated ≡ true
    pub remote : socket.is_loopback ≡ false

  handle_input_event_lem :
      (socket : Socket) (p : Packet) (d : List ℕ)
      → TakesInput socket
      → length d ≡ 24
      → is_empty p.payload ≡ false
      → p.header.type ≡ input_event
      → decrypted host p ≡ some d
      → handle_client_packet host socket p ≡ some (add (injected (input_event_of d)) socket)
  unfolding handle_client_packet handle_input_event
  handle_input_event_lem socket p d k l n t e = ground (arith, k.input_backend, k.let_in, k.remote)

  -- If the client can send, and its slot returns from an input event whose fields have the sizes
  -- of its parameters, then it has written one packet, and the agent, which has the same key and
  -- an input backend, injects that event for it, without its modifiers, if it is authenticated and
  -- not on the same machine.
  pub send_input_event-handle_client_packet :
      (type x y button delta keycode : ℕ) (s t : Session) (socket : Socket)
      → FitsEvent type x y button delta keycode
      → can_send s ≡ true
      → TakesInput socket
      → send_input_event host.cipher type x y button delta keycode s ≡ some t
      → (bytes : List ℕ) × (t.outputs ≡ s.outputs ++ (wrote bytes ∷ []))
        × (p : Packet) × (decode bytes ≡ parsed p)
        × (handle_client_packet host socket p
            ≡ some (add (injected (event type x y button delta keycode)) socket))
  unfolding send_input_event decrypted
  send_input_event-handle_client_packet type x y button delta keycode s t socket f c k h =
      let plaintext = input_plaintext type x y button delta keycode in
      let size = length-input_plaintext type x y button delta keycode in
      let n = (s.input_sequence + 1) % 2 ^ 64 in
      let sent : send_packet host.cipher input_event plaintext s ≡ some t = ground arith in
      let d =
        send_packet-Delivered host.cipher input_event plaintext s t (omega arith)
          (omega (arith, size)) sent in
      let p = packet_of input_event n 0 d.payload in
      let opened : decrypted host p ≡ some plaintext =
        ap (λ key. host.cipher.decrypt d.payload key (nonce_of n)) k.same_key ∙ d.decrypts in
      (
        encode input_event n 0 d.payload,
        ap (λ (u : Session). u.outputs) d.sent,
        p,
        d.parses,
        handle_input_event_lem socket p plaintext k size d.has_payload refl opened
            ∙ ap (λ e. some (add (injected e) socket))
                (input_event_of-input_plaintext type x y button delta keycode f),
      )
