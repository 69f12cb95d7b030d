-- ===== src/Agent/Reading.antt =====
-- The loop over the bytes of one read, and what that means for a stream of packets.
use remote_access_platform.Prelude.{
  ℕ, zero, suc, ◌+◌, ◌<◌, ◌≤◌, arith, if-true, lt→ltb, length-drop, ◌≡◌, ◌⊎◌, inl, inr, refl, ap,
  ◌∙◌, List, [], ◌∷◌, ◌++◌, Option, none, some, length, drop, ltb, All, Option-cases, Bool-cases,
  map,
}
use native.Mathlib.Nat.{le_refl}
use remote_access_platform.Agent.Outcomes.{handle_client_packet_total}
use remote_access_platform.Protocol.{Packet, decode}
use remote_access_platform.Agent.{Socket, Host, handle_client_packet, read_loop, ready_read}
use remote_access_platform.Agent.Gate.{IsGrant}
use remote_access_platform.Agent.Packets.{
  ParseResult-cases, packet_fits, packets_in, packets_in-stream, packets_in-failed,
  incomplete-not_parsed, Message, bytes_of, received, Fits, stream,
}

module _ (host : Host) where
  unfoldable pub handle_all : Socket → List Packet → Option Socket
  handle_all s [] = some s
  handle_all s (p ∷ ps) = elim (handle_client_packet host s p) [
    | none ↦ none
    | some t ↦ handle_all t ps
  ]

  -- The loop hands the packets over, one after the other.
  read_loop-handle_all :
      (fuel : ℕ) (s : Socket) (buffer : List ℕ)
      → length buffer ≤ fuel
      → read_loop host fuel s buffer ≡ handle_all s (packets_in fuel buffer)
  unfolding read_loop handle_all packets_in
  read_loop-handle_all zero s buffer enough =
      if-true (some s) none (lt→ltb (length buffer) 28 (omega arith))
  read_loop-handle_all (suc fuel) s buffer enough = elim (Bool-cases (ltb (length buffer) 28)) [
    | inl short ↦ rw short
    | inr long ↦ rw long (elim (ParseResult-cases (decode buffer)) [
      | inl (e, bad) ↦ rw bad
      | inr (p, good) ↦ rw good (elim (Option-cases (handle_client_packet host s p)) [
        | inl thrown ↦ rw (thrown, handle_all)
        | inr (t, done) ↦
            rw (done, handle_all)
              (read_loop-handle_all fuel t (drop (28 + p.header.payload_size) buffer) (
                omega (
                  arith,
                  packet_fits buffer p good,
                  length-drop (28 + p.header.payload_size) buffer,
                )))
      ])
    ])
  ]

  pub ready_read-handle_all :
      (s : Socket) (bytes : List ℕ)
      → ready_read host s bytes ≡ handle_all s (packets_in (length bytes) bytes)
  unfolding ready_read
  ready_read-handle_all s bytes = read_loop-handle_all (length bytes) s bytes (le_refl _)

  pub ready_read-stream :
      (s : Socket) (ms : List Message)
      → All Fits ms
      → ready_read host s (stream ms) ≡ handle_all s (map received ms)
  ready_read-stream s ms h =
      ready_read-handle_all s (stream ms)
      ∙ ap (handle_all s) (packets_in-stream (length (stream ms)) ms h (le_refl _))

  -- With a 32-byte session key the loop ends on every input without an exception.
  handle_all_total :
      (s : Socket) (ps : List Packet)
      → length host.session_key ≡ 32
      → (t : Socket) × (handle_all s ps ≡ some t)
  unfolding handle_all
  handle_all_total s [] k = (s, refl)
  handle_all_total s (p ∷ ps) k =
      let (t, e) = handle_client_packet_total host s p k in
      rw (e, handle_all) (handle_all_total t ps k)

  pub ready_read_total :
      (s : Socket) (bytes : List ℕ)
      → length host.session_key ≡ 32
      → (t : Socket) × (ready_read host s bytes ≡ some t)
  ready_read_total s bytes k =
      rw (ready_read-handle_all s bytes) (handle_all_total s (packets_in (length bytes) bytes) k)

  -- One packet of a list lets the client in.
  abbrev pub SomeGrant : List Packet → Type 0
  SomeGrant [] = ⊥
  SomeGrant (p ∷ ps) = IsGrant host p ⊎ SomeGrant ps

  -- A read that ends inside its first packet changes nothing: the handler drops the bytes.
  pub ready_read_incomplete :
      (s : Socket) (m : Message) (front back : List ℕ)
      → Fits m
      → bytes_of m ≡ front ++ back
      → 0 < length back
      → ready_read host s front ≡ some s
  ready_read_incomplete s m front back h e l = elim (ParseResult-cases (decode front)) [
    | inl (x, bad) ↦
        ready_read-handle_all s front
        ∙ rw (packets_in-failed (length front) front x bad) (unfold handle_all in refl)
    | inr (p, good) ↦ absurd (incomplete-not_parsed m front back p h e l good)
  ]
