-- ===== src/Agent/Outcomes.antt =====
-- What the handler does with an authentication request, and when it fails.
use remote_access_platform.Prelude.{
  ℕ, ◌^◌, ◌<◌, ◌≡◌, ◌≢◌, inl, inr, refl, List, [], ◌∷◌, Bool, none, some, length, arith,
  if◌then◌else◌, same, Option-cases,
}
use mathlib.Core.List.{append-nil}
use remote_access_platform.Protocol.{Packet, encode, decode, parsed}
use remote_access_platform.Protocol.Payload.{auth_response}
use remote_access_platform.Protocol.RoundTrip.{packet_of, decode-encode}
use remote_access_platform.Agent.{
  Socket, Host, nonce_of, decrypted, auth_success, auth_response_bytes, authenticate,
  handle_auth_request, handle_client_packet,
}
use remote_access_platform.Agent.Gate.{answered, authenticate-eq_some, length-nonce_of}

module _ (host : Host) where
  -- The code that an answer carries.
  abbrev pub auth_code : Bool → ℕ
  auth_code success = if success then 0 else 1

  -- With a 32-byte session key the answer can always be encrypted.
  auth_response_bytes-ne-none :
      (n : ℕ) (success : Bool)
      → length host.session_key ≡ 32
      → auth_response_bytes host n success ≢ none
  unfolding auth_response_bytes
  auth_response_bytes-ne-none n success k =
      let total =
        host.cipher.encrypt_total (auth_code success ∷ []) host.session_key (nonce_of n) k
          (length-nonce_of n) in
      λ h. cc (rw (total.1, auth_response_bytes) at h)

  pub authenticate-ne-none :
      (s : Socket) (n : ℕ) (d : List ℕ)
      → length host.session_key ≡ 32
      → authenticate host s n d ≢ none
  unfolding authenticate
  authenticate-ne-none s n d k =
      ground (arith, auth_response_bytes-ne-none n (auth_success host d) k)

  handle_auth_request-ne-none :
      (s : Socket) (p : Packet) → length host.session_key ≡ 32 → handle_auth_request host s p ≢ none
  unfolding handle_auth_request
  handle_auth_request-ne-none s p k = elim (Option-cases (decrypted host p)) [
    | inl e ↦ rw (e, handle_auth_request) (λ h. cc)
    | inr (d, e) ↦
        rw (e, handle_auth_request)
          (ground (arith, authenticate-ne-none s p.header.sequence_number d k))
  ]

  -- With a 32-byte session key no packet makes the handler throw.
  pub handle_client_packet_total :
      (s : Socket) (p : Packet)
      → length host.session_key ≡ 32
      → (t : Socket) × (handle_client_packet host s p ≡ some t)
  unfolding handle_client_packet
  handle_client_packet_total s p k = elim (Option-cases (handle_client_packet host s p)) [
    | inl e ↦ absurd (ground (arith, handle_auth_request-ne-none s p k))
    | inr r ↦ r
  ]

  pub auth_response_bytes-eq_some :
      (n : ℕ) (success : Bool) (bytes : List ℕ)
      → auth_response_bytes host n success ≡ some bytes
      → (c : List ℕ) × (host.cipher.encrypt (auth_code success ∷ []) host.session_key (nonce_of n)
          ≡ some c)
        × (bytes ≡ encode auth_response n 0 c)
  unfolding auth_response_bytes
  auth_response_bytes-eq_some n success bytes h =
      elim (Option-cases
        (host.cipher.encrypt (auth_code success ∷ []) host.session_key (nonce_of n))) [
          | inl e ↦ cc (rw (e, auth_response_bytes) at h)
          | inr (c, e) ↦ (c, e, ground (arith, e))
        ]

  -- The client reads the code out of the answer.
  auth_response_bytes-readable :
      (n : ℕ) (success : Bool) (bytes : List ℕ)
      → n < 2 ^ 64
      → auth_response_bytes host n success ≡ some bytes
      → (c : List ℕ) × (decode bytes ≡ parsed (packet_of auth_response n 0 c))
        × (host.cipher.decrypt c host.session_key (nonce_of n) ≡ some (auth_code success ∷ []))
  auth_response_bytes-readable n success bytes fits h =
      let (c, e, same) = auth_response_bytes-eq_some n success bytes h in
      let size =
        host.cipher.length-encrypt (auth_code success ∷ []) host.session_key (nonce_of n) c e in
      (
        c,
        rw (same, ← append-nil (encode auth_response n 0 c))
            (decode-encode auth_response n 0 c [] (record {
              type_fits = omega arith;
              sequence_number_fits = fits;
              timestamp_ms_fits = omega arith;
              payload_fits = omega (arith, size);
            })),
        host.cipher.decrypt-encrypt (auth_code success ∷ []) host.session_key (nonce_of n) c e,
      )

  -- A request that decrypts to a password, under a sequence number of 64 bits, and that the
  -- handler returns from, sets the client's flag to whether the password passed and is answered by
  -- a packet that parses and decrypts to the code 0 or 1; a client whose password did not pass is
  -- cut off after the answer.
  pub handle_auth_request-answer :
      (s t : Socket) (p : Packet) (d : List ℕ)
      → decrypted host p ≡ some d
      → d ≢ []
      → p.header.sequence_number < 2 ^ 64
      → handle_auth_request host s p ≡ some t
      → (t.authenticated ≡ auth_success host d)
        × (bytes : List ℕ) × (t ≡ answered host s (auth_success host d) bytes)
        × (c : List ℕ) × (decode bytes
            ≡ parsed (packet_of auth_response p.header.sequence_number 0 c))
        × (host.cipher.decrypt c host.session_key (nonce_of p.header.sequence_number)
            ≡ some (auth_code (auth_success host d) ∷ []))
  unfolding handle_auth_request
  handle_auth_request-answer s t p [] e ne fits h = absurd (ne refl)
  handle_auth_request-answer s t p (b ∷ d) e ne fits h =
      let n = p.header.sequence_number in
      let success = auth_success host (b ∷ d) in
      let (bytes, eb, same) =
        authenticate-eq_some host s t n (b ∷ d) (rw (e, handle_auth_request) at h) in
      let (c, ed, ec) = auth_response_bytes-readable n success bytes fits eb in
      (ground (arith, same), bytes, same, c, ed, ec)
