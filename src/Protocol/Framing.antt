-- ===== src/Protocol/Framing.antt =====
-- What `decode` does with any buffer, well formed or not.
use remote_access_platform.Prelude.{
  ℕ, ◌+◌, ◌≤◌, ◌<◌, ◌≡◌, ◌≢◌, ◌↔◌, refl, ◌∙◌, List, ◌++◌, arith, length, take, drop, length-append,
  length-take, length-drop, take-append_le, drop-append_le, take-append-drop, drop-drop, All,
  All-drop, ltb, not, ◌==◌, if◌then◌else◌,
}
use remote_access_platform.Memory.{store, load, IsByte, load-append, store-load, load-lt}
use remote_access_platform.Protocol.{
  Packet, ParseError, parsed, failed, encode, decode, magic_header, protocol_version,
}
use remote_access_platform.Protocol.RoundTrip.{IsEncodable, wire, encode-wire}

-- The fields at their offsets in a buffer.
abbrev pub magic_at : List ℕ → ℕ
magic_at buffer = load 4 buffer

abbrev pub version_at : List ℕ → ℕ
version_at buffer = load 2 (drop 4 buffer)

abbrev pub payload_size_at : List ℕ → ℕ
payload_size_at buffer = load 4 (drop 24 buffer)

abbrev pub packet_at : List ℕ → Packet
packet_at buffer = record {
  header = record {
    magic = magic_at buffer;
    version = version_at buffer;
    type = load 2 (drop 6 buffer);
    sequence_number = load 8 (drop 8 buffer);
    timestamp_ms = load 8 (drop 16 buffer);
    payload_size = payload_size_at buffer;
  };
  payload = take (payload_size_at buffer) (drop 28 buffer);
}

-- `decode` without the moving pointer.
pub decode_fields :
    (buffer : List ℕ)
    → decode buffer ≡ (
        if ltb (length buffer) 28
        then failed ParseError.incomplete_header
        else if not (magic_at buffer == magic_header)
        then failed ParseError.invalid_magic_header
        else if not (version_at buffer == protocol_version)
        then failed ParseError.unsupported_version
        else if ltb (length buffer) (28 + payload_size_at buffer)
        then failed ParseError.incomplete_payload
        else parsed (packet_at buffer))
unfolding decode
decode_fields buffer = simp drop-drop

-- Each result of `decode` stands for exactly one state of the buffer: too short for a header,
-- another magic number, another version, too short for the payload, or the packet at its front.
pub decode_cases :
    (buffer : List ℕ)
    → ((decode buffer ≡ failed ParseError.incomplete_header) ↔ (length buffer < 28))
      × ((decode buffer ≡ failed ParseError.invalid_magic_header)
          ↔ ((28 ≤ length buffer) × (magic_at buffer ≢ magic_header)))
      × ((decode buffer ≡ failed ParseError.unsupported_version) ↔ (
          (28 ≤ length buffer)
          × (magic_at buffer ≡ magic_header)
          × (version_at buffer ≢ protocol_version)))
      × ((decode buffer ≡ failed ParseError.incomplete_payload) ↔ (
          (28 ≤ length buffer)
          × (magic_at buffer ≡ magic_header)
          × (version_at buffer ≡ protocol_version)
          × (length buffer < 28 + payload_size_at buffer)))
      × ((decode buffer ≡ parsed (packet_at buffer)) ↔ (
          (28 ≤ length buffer)
          × (magic_at buffer ≡ magic_header)
          × (version_at buffer ≡ protocol_version)
          × (28 + payload_size_at buffer ≤ length buffer)))
decode_cases buffer = rw decode_fields (ground arith)

-- A successful result is the packet at the buffer's front.
pub decode-parsed :
    (buffer : List ℕ) (p : Packet)
    → decode buffer ≡ parsed p
    → (p ≡ packet_at buffer)
      × (magic_at buffer ≡ magic_header)
      × (version_at buffer ≡ protocol_version)
      × (28 + payload_size_at buffer ≤ length buffer)
decode-parsed buffer p h = ground (arith, decode_fields buffer)

load-drop-append :
    (n k : ℕ) (buffer more : List ℕ)
    → k + n ≤ length buffer
    → load n (drop k (buffer ++ more)) ≡ load n (drop k buffer)
load-drop-append n k buffer more h =
    rw (drop-append_le k buffer more (omega arith))
      (load-append n (drop k buffer) more (omega (arith, length-drop k buffer)))

packet_at-append :
    (buffer more : List ℕ)
    → 28 + payload_size_at buffer ≤ length buffer
    → packet_at (buffer ++ more) ≡ packet_at buffer
packet_at-append buffer more h = rw (
  load-append 4 buffer more (omega arith),
  load-drop-append 2 4 buffer more (omega arith),
  load-drop-append 2 6 buffer more (omega arith),
  load-drop-append 8 8 buffer more (omega arith),
  load-drop-append 8 16 buffer more (omega arith),
  load-drop-append 4 24 buffer more (omega arith),
  drop-append_le 28 buffer more (omega arith),
  take-append_le (payload_size_at buffer) (drop 28 buffer) more
      (omega (arith, length-drop 28 buffer)),
)

enough_for_header :
    (buffer : List ℕ) → decode buffer ≢ failed ParseError.incomplete_header → 28 ≤ length buffer
enough_for_header buffer h = ground (arith, decode_fields buffer)

enough_for_payload :
    (buffer : List ℕ)
    → decode buffer ≢ failed ParseError.incomplete_payload
    → 28 ≤ length buffer
    → magic_at buffer ≡ magic_header
    → version_at buffer ≡ protocol_version
    → 28 + payload_size_at buffer ≤ length buffer
enough_for_payload buffer h l m v = ground (arith, decode_fields buffer)

-- A result that does not ask for more bytes stays when more bytes come.
pub decode-append :
    (buffer more : List ℕ)
    → decode buffer ≢ failed ParseError.incomplete_header
    → decode buffer ≢ failed ParseError.incomplete_payload
    → decode (buffer ++ more) ≡ decode buffer
decode-append buffer more hh hp =
    let long = enough_for_header buffer hh in
    rw
      (
        decode_fields (buffer ++ more),
        decode_fields buffer,
        load-append 4 buffer more (omega arith),
        load-drop-append 2 4 buffer more (omega arith),
        load-drop-append 4 24 buffer more (omega arith),
      )
      (ground (
        arith,
        length-append buffer more,
        packet_at-append buffer more,
        enough_for_payload buffer hp,
      ))

length-payload_at :
    (buffer : List ℕ)
    → 28 + payload_size_at buffer ≤ length buffer
    → length (packet_at buffer).payload ≡ payload_size_at buffer
length-payload_at buffer h =
    omega (arith, length-take (payload_size_at buffer) (drop 28 buffer), length-drop 28 buffer)

packet_at-IsEncodable :
    (buffer : List ℕ)
    → All IsByte buffer
    → 28 + payload_size_at buffer ≤ length buffer
    → let p = packet_at buffer in
      IsEncodable p.header.type p.header.sequence_number p.header.timestamp_ms p.payload
packet_at-IsEncodable buffer b h = record {
  type_fits = load-lt 2 (drop 6 buffer) (All-drop IsByte 6 buffer b);
  sequence_number_fits = load-lt 8 (drop 8 buffer) (All-drop IsByte 8 buffer b);
  timestamp_ms_fits = load-lt 8 (drop 16 buffer) (All-drop IsByte 16 buffer b);
  payload_fits =
      rw (length-payload_at buffer h) (load-lt 4 (drop 24 buffer) (All-drop IsByte 24 buffer b));
}

-- Storing a field back where it was read, in front of what follows it.
field_back :
    (n k m : ℕ) (buffer : List ℕ)
    → m ≡ k + n
    → m ≤ length buffer
    → All IsByte buffer
    → store n (load n (drop k buffer)) ++ drop m buffer ≡ drop k buffer
field_back n k m buffer e h b =
    rw (e, ← drop-drop n k buffer)
      (store-load n (drop k buffer) (omega (arith, length-drop k buffer))
        (All-drop IsByte k buffer b))

wire-packet_at :
    (buffer : List ℕ)
    → All IsByte buffer
    → magic_at buffer ≡ magic_header
    → version_at buffer ≡ protocol_version
    → 28 + payload_size_at buffer ≤ length buffer
    → let p = packet_at buffer in
      wire p.header.type p.header.sequence_number p.header.timestamp_ms p.payload
        (drop (28 + payload_size_at buffer) buffer)
      ≡ buffer
unfolding wire
wire-packet_at buffer b m v h =
    rw
      (
        length-payload_at buffer h,
        ← drop-drop (payload_size_at buffer) 28 buffer,
        take-append-drop (payload_size_at buffer) (drop 28 buffer),
        field_back 4 24 28 buffer refl (omega arith) b,
        field_back 8 16 24 buffer refl (omega arith) b,
        field_back 8 8 16 buffer refl (omega arith) b,
        field_back 2 6 8 buffer refl (omega arith) b,
        ← v,
        field_back 2 4 6 buffer refl (omega arith) b,
        ← m,
      )
      (field_back 4 0 4 buffer refl (omega arith) b)

encode-packet_at :
    (buffer : List ℕ)
    → All IsByte buffer
    → magic_at buffer ≡ magic_header
    → version_at buffer ≡ protocol_version
    → 28 + payload_size_at buffer ≤ length buffer
    → let p = packet_at buffer in
      encode p.header.type p.header.sequence_number p.header.timestamp_ms p.payload
        ++ drop (28 + payload_size_at buffer) buffer
      ≡ buffer
encode-packet_at buffer b m v h =
    let p = packet_at buffer in
    let fits = (packet_at-IsEncodable buffer b h).payload_fits in
    encode-wire p.header.type p.header.sequence_number p.header.timestamp_ms p.payload
      (drop (28 + payload_size_at buffer) buffer) fits
    ∙ wire-packet_at buffer b m v h

-- What `decode` accepts in a buffer of bytes is the encoding of what it returns, whose fields fit
-- the format, followed by the bytes that are left.
pub encode-decode :
    (buffer : List ℕ) (p : Packet)
    → All IsByte buffer
    → decode buffer ≡ parsed p
    → IsEncodable p.header.type p.header.sequence_number p.header.timestamp_ms p.payload
      × (encode p.header.type p.header.sequence_number p.header.timestamp_ms p.payload
            ++ drop (28 + p.header.payload_size) buffer
          ≡ buffer)
encode-decode buffer p b h =
    let (e, m, v, fits) = decode-parsed buffer p h in
    rw e (packet_at-IsEncodable buffer b fits, encode-packet_at buffer b m v fits)
