-- ===== src/Agent/Packets.antt =====
-- The packets at the front of a buffer, as the agent's loop takes them out.
use remote_access_platform.Prelude.{
  ℕ, zero, suc, ◌+◌, ◌≤◌, ◌<◌, ◌≡◌, ◌⊎◌, inl, inr, refl, sym, ap, ◌∙◌, List, [], ◌∷◌, ◌++◌, length,
  drop, length-append, length-drop, drop-append, arith, ltb, if◌then◌else◌, All, Bool-cases, map,
  if-true, if-false, lt→ltb, ltb-false,
}
use mathlib.Core.Path.{subst}
use mathlib.Core.List.{append-nil}
use remote_access_platform.Protocol.{
  Packet, ParseResult, ParseError, encode, decode, parsed, failed,
}
use remote_access_platform.Protocol.RoundTrip.{packet_of, decode-encode, IsEncodable, length-encode}
use remote_access_platform.Protocol.Framing.{decode-parsed, decode-append}

pub ParseResult-cases :
    (r : ParseResult) → ((e : ParseError) × (r ≡ failed e)) ⊎ ((p : Packet) × (r ≡ parsed p))
ParseResult-cases (parsed p) = inr (p, refl)
ParseResult-cases (failed e) = inl (e, refl)

-- A parsed packet takes 28 bytes at least, and no more than there are.
pub packet_fits :
    (buffer : List ℕ) (p : Packet)
    → decode buffer ≡ parsed p
    → 28 + p.header.payload_size ≤ length buffer
packet_fits buffer p h = let (e, m, v, fits) = decode-parsed buffer p h in rw e fits

-- The packets at the front of a buffer, up to the first that is not whole.
unfoldable pub packets_in : ℕ → List ℕ → List Packet
packets_in zero buffer = []
packets_in (suc fuel) buffer = if ltb (length buffer) 28 then [] else (elim (decode buffer) [
  | failed e ↦ []
  | parsed p ↦ p ∷ packets_in fuel (drop (28 + p.header.payload_size) buffer)
])

-- As many rounds as bytes are enough: more change nothing.
pub packets_in_fuel :
    (n m : ℕ) (buffer : List ℕ)
    → length buffer ≤ n
    → length buffer ≤ m
    → packets_in n buffer ≡ packets_in m buffer
unfolding packets_in
packets_in_fuel zero zero buffer p q = refl
packets_in_fuel zero (suc m) buffer p q =
    sym (if-true [] _ (lt→ltb (length buffer) 28 (omega arith)))
packets_in_fuel (suc n) zero buffer p q = if-true [] _ (lt→ltb (length buffer) 28 (omega arith))
packets_in_fuel (suc n) (suc m) buffer p q = elim (Bool-cases (ltb (length buffer) 28)) [
  | inl short ↦ rw short
  | inr long ↦ rw long (elim (ParseResult-cases (decode buffer)) [
    | inl (e, bad) ↦ rw bad
    | inr (k, good) ↦ rw good (
        ap (◌∷◌ k) (
          packets_in_fuel n m (drop (28 + k.header.payload_size) buffer)
            (omega
              (arith, packet_fits buffer k good, length-drop (28 + k.header.payload_size) buffer))
            (omega
              (arith, packet_fits buffer k good, length-drop (28 + k.header.payload_size) buffer))))
  ])
]

-- The fields of a packet that a sender encodes.
pub record Message : Type 0 where
  pub type : ℕ
  pub sequence_number : ℕ
  pub timestamp_ms : ℕ
  pub payload : List ℕ

abbrev pub bytes_of : Message → List ℕ
bytes_of m = encode m.type m.sequence_number m.timestamp_ms m.payload

abbrev pub received : Message → Packet
received m = packet_of m.type m.sequence_number m.timestamp_ms m.payload

abbrev pub Fits : Message → Type 0
Fits m = IsEncodable m.type m.sequence_number m.timestamp_ms m.payload

-- Messages sent one after the other.
abbrev pub stream : List Message → List ℕ
stream [] = []
stream (m ∷ ms) = bytes_of m ++ stream ms

pub packets_in-step :
    (n : ℕ) (m : Message) (rest : List ℕ)
    → Fits m
    → packets_in (suc n) (bytes_of m ++ rest) ≡ received m ∷ packets_in n rest
unfolding packets_in
packets_in-step n m rest h =
    let size = length-encode m.type m.sequence_number m.timestamp_ms m.payload h.payload_fits in
    let whole = length-append (bytes_of m) rest in
    if-false [] _ (ltb-false (length (bytes_of m ++ rest)) 28 (omega arith))
    ∙ rw (decode-encode m.type m.sequence_number m.timestamp_ms m.payload rest h) (
        ap (λ k. received m ∷ packets_in n k)
          (drop-append (28 + length m.payload) (bytes_of m) rest (sym size)))

pub stream_grows :
    (m : Message) (ms : List Message) → Fits m → length (stream ms) + 28 ≤ length (stream (m ∷ ms))
stream_grows m ms h = omega (
  arith,
  length-append (bytes_of m) (stream ms),
  length-encode m.type m.sequence_number m.timestamp_ms m.payload h.payload_fits,
)

pub packets_in-stream :
    (n : ℕ) (ms : List Message)
    → All Fits ms
    → length (stream ms) ≤ n
    → packets_in n (stream ms) ≡ map received ms
packets_in-stream zero [] h l = unfold packets_in in refl
packets_in-stream (suc n) [] h l = unfold packets_in in refl
packets_in-stream zero (m ∷ ms) h l = absurd (omega (arith, stream_grows m ms h.0))
packets_in-stream (suc n) (m ∷ ms) h l =
    packets_in-step n m (stream ms) h.0
    ∙ ap (◌∷◌ (received m)) (packets_in-stream n ms h.1 (omega (arith, stream_grows m ms h.0)))

pub packets_in-failed :
    (n : ℕ) (buffer : List ℕ) (e : ParseError) → decode buffer ≡ failed e → packets_in n buffer ≡ []
unfolding packets_in
packets_in-failed zero buffer e h = refl
packets_in-failed (suc n) buffer e h = ground (arith, h)

-- A proper front of a packet is not a packet.
pub incomplete-not_parsed :
    (m : Message) (front back : List ℕ) (p : Packet)
    → Fits m
    → bytes_of m ≡ front ++ back
    → 0 < length back
    → ¬ (decode front ≡ parsed p)
incomplete-not_parsed m front back p h e l good =
    let longer : decode (front ++ back) ≡ parsed p =
      decode-append front back (λ c. cc) (λ c. cc) ∙ good in
    let whole : decode (front ++ back) ≡ parsed (received m) =
      ap decode (sym e ∙ sym (append-nil (bytes_of m)))
      ∙ decode-encode m.type m.sequence_number m.timestamp_ms m.payload [] h in
    let same : p ≡ received m = cc in
    omega (
      arith,
      subst (λ k. 28 + k.header.payload_size ≤ length front) same (packet_fits front p good),
      ap length e,
      length-append front back,
      length-encode m.type m.sequence_number m.timestamp_ms m.payload h.payload_fits,
    )
