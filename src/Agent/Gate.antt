-- ===== src/Agent/Gate.antt =====
-- Which packets have an effect on the host, and what it takes to be let in.
use remote_access_platform.Prelude.{
  ℕ, ◌≡◌, ◌≢◌, ◌⊎◌, inl, inr, refl, sym, ◌∙◌, List, [], ◌∷◌, ◌++◌, Bool, true, false, Option, none,
  some, length, length-append, replicate, All, All-append, arith, if◌then◌else◌, is_empty, same,
  Option-cases, Bool-cases, if-true, if-false,
}
use native.Mathlib.Decide.{ℕ_discrete}
use mathlib.Core.Path.{subst}
use remote_access_platform.Memory.{store, length-store}
use remote_access_platform.Protocol.{Packet}
use remote_access_platform.Protocol.Payload.{auth_request}
use remote_access_platform.Agent.{
  Socket, Host, Effect, wrote, disconnected, injected, set_clipboard, locked_workstation, add,
  nonce_of, decrypted, auth_success, auth_response_bytes, authenticate, handle_auth_request,
  handle_input_event, handle_clipboard_data, handle_session_control, handle_client_packet,
}

-- An effect that reaches the host behind the socket.
abbrev pub IsAnswer : Effect → Type 0
IsAnswer (wrote bytes) = Unit {0}
IsAnswer disconnected = Unit {0}
IsAnswer (injected e) = ⊥
IsAnswer (set_clipboard t) = ⊥
IsAnswer locked_workstation = ⊥

pub length-nonce_of : (n : ℕ) → length (nonce_of n) ≡ 12
unfolding nonce_of
length-nonce_of n = omega (arith, length-append (store 8 n) (replicate 4 0), length-store 8 n)

module _ (host : Host) where
  -- Until a client is let in, a packet of any type but an authentication request changes nothing.
  pub handle_client_packet_locked :
      (s : Socket) (p : Packet)
      → s.authenticated ≡ false
      → p.header.type ≢ auth_request
      → handle_client_packet host s p ≡ some s
  unfolding handle_client_packet handle_input_event handle_clipboard_data handle_session_control
  handle_client_packet_locked s p a t = ground arith

  -- A request that lets a client in.
  abbrev pub IsGrant : Packet → Type 0
  IsGrant p =
      (p.header.type ≡ auth_request)
      × (d : List ℕ) × (decrypted host p ≡ some d)
      × (d ≢ [])
      × (auth_success host d ≡ true)

  pub record Quiet (s : Socket) : Type 0 where
    pub locked : s.authenticated ≡ false
    pub answers : All IsAnswer s.effects

  -- The socket after a request was answered.
  abbrev pub answered : Socket → Bool → List ℕ → Socket
  answered s success bytes =
      let s' = add (wrote bytes) (record s { authenticated = success }) in
      if success then s' else add disconnected s'

  pub authenticate-eq_some :
      (s t : Socket) (n : ℕ) (d : List ℕ)
      → authenticate host s n d ≡ some t
      → (bytes : List ℕ) × (auth_response_bytes host n (auth_success host d) ≡ some bytes)
        × (t ≡ answered s (auth_success host d) bytes)
  unfolding authenticate
  authenticate-eq_some s t n d h =
      elim (Option-cases (auth_response_bytes host n (auth_success host d))) [
        | inl e ↦ cc (rw (e, authenticate) at h)
        | inr (bytes, e) ↦ (bytes, e, ground (arith, e))
      ]

  answered-Quiet : (s : Socket) (bytes : List ℕ) → Quiet s → Quiet (answered s false bytes)
  answered-Quiet s bytes q = record {
    locked = refl;
    answers =
        All-append IsAnswer (s.effects ++ (wrote bytes ∷ [])) (disconnected ∷ [])
          (All-append IsAnswer s.effects (wrote bytes ∷ []) q.answers (tt, tt)) (tt, tt);
  }

  authenticate-Quiet :
      (s t : Socket) (n : ℕ) (d : List ℕ)
      → Quiet s
      → authenticate host s n d ≡ some t
      → auth_success host d ≡ false
      → Quiet t
  authenticate-Quiet s t n d q h f =
      let (bytes, e, same) = authenticate-eq_some s t n d h in
      rw (same, f) (answered-Quiet s bytes q)

  -- A request is ignored, or decrypts to a password, which is answered.
  pub handle_auth_request-eq_some :
      (s t : Socket) (p : Packet)
      → handle_auth_request host s p ≡ some t
      → (t ≡ s)
        ⊎ ((d : List ℕ) × (decrypted host p ≡ some d)
            × (d ≢ [])
            × (authenticate host s p.header.sequence_number d ≡ some t))
  unfolding handle_auth_request
  handle_auth_request-eq_some s t p h = split (decrypted host p) refl
    where
      split :
          (o : Option (List ℕ))
          → decrypted host p ≡ o
          → (t ≡ s)
            ⊎ ((d : List ℕ) × (decrypted host p ≡ some d)
                × (d ≢ [])
                × (authenticate host s p.header.sequence_number d ≡ some t))
      split none e = inl (ground arith)
      split (some []) e = inl (ground arith)
      split (some (b ∷ d)) e = inr (b ∷ d, e, (λ c. cc), ground arith)

  request-Quiet :
      (s t : Socket) (p : Packet)
      → p.header.type ≡ auth_request
      → Quiet s
      → handle_auth_request host s p ≡ some t
      → Quiet t ⊎ IsGrant p
  request-Quiet s t p a q h = elim (handle_auth_request-eq_some s t p h) [
    | inl e ↦ inl (rw e q)
    | inr (d, e, ne, st) ↦ elim (Bool-cases (auth_success host d)) [
      | inl y ↦ inr (a, d, e, ne, y)
      | inr n ↦ inl (authenticate-Quiet s t p.header.sequence_number d q st n)
    ]
  ]

  -- The three other kinds of packet never fail, and an authentication request goes to its handler.
  pub handle_client_packet-auth_request :
      (s : Socket) (p : Packet)
      → p.header.type ≡ auth_request
      → handle_client_packet host s p
        ≡ (if is_empty p.payload then some s else handle_auth_request host s p)
  unfolding handle_client_packet
  handle_client_packet-auth_request s p a = ground arith

  -- One packet: the client stays out, or the packet lets it in.
  pub handle_client_packet-Quiet :
      (s t : Socket) (p : Packet)
      → Quiet s
      → handle_client_packet host s p ≡ some t
      → Quiet t ⊎ IsGrant p
  handle_client_packet-Quiet s t p q h = elim (ℕ_discrete p.header.type auth_request) [
    | yes a ↦ elim (Bool-cases (is_empty p.payload)) [
      | inl e ↦ inl (
          unchanged (
            sym (
              handle_client_packet-auth_request s p a
              ∙ if-true (some s) (handle_auth_request host s p) e)
            ∙ h))
      | inr f ↦ request-Quiet s t p a q (
          sym (
            handle_client_packet-auth_request s p a
            ∙ if-false (some s) (handle_auth_request host s p) f)
          ∙ h)
    ]
    | no a ↦ inl (unchanged (sym (handle_client_packet_locked s p q.locked a) ∙ h))
  ]
    where
      unchanged : some s ≡ some t → Quiet t
      unchanged e = let same : s ≡ t = cc in subst Quiet same q
