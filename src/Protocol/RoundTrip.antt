-- ===== src/Protocol/RoundTrip.antt =====
-- `encode` and `decode` against one another.
use remote_access_platform.Prelude.{
  ℕ, ◌+◌, ◌^◌, ◌<◌, ◌≡◌, refl, List, ◌++◌, arith, length, length-append, length-take, take-append,
  take-all,
}
use remote_access_platform.Memory.{store, load-store, drop-store, length-store}
use remote_access_platform.Protocol.{
  PayloadType, Packet, parsed, encode, decode, magic_header, protocol_version,
}
use mathlib.Core.List.{append_assoc}
use native.Mathlib.Nat.{mod-eq_of_lt, le_refl}

-- The packet that a sender means.
abbrev pub packet_of : PayloadType → ℕ → ℕ → List ℕ → Packet
packet_of type sequence_number timestamp_ms payload = record {
  header = record {
    magic = magic_header;
    version = protocol_version;
    type = type;
    sequence_number = sequence_number;
    timestamp_ms = timestamp_ms;
    payload_size = length payload;
  };
  payload = payload;
}

-- The fields that the wire format can hold.
pub record IsEncodable (type sequence_number timestamp_ms : ℕ) (payload : List ℕ) : Type 0 where
  pub type_fits : type < 2 ^ 16
  pub sequence_number_fits : sequence_number < 2 ^ 64
  pub timestamp_ms_fits : timestamp_ms < 2 ^ 64
  pub payload_fits : length payload < 2 ^ 32

pub length-encode :
    (type sequence_number timestamp_ms : ℕ) (payload : List ℕ)
    → length payload < 2 ^ 32
    → length (encode type sequence_number timestamp_ms payload) ≡ 28 + length payload
unfolding encode
length-encode t s m p h = simp (length-append, length-store, length-take) (omega arith)

-- The bytes of an encoded packet whose payload fits, followed by `rest`.
unfoldable pub wire : ℕ → ℕ → ℕ → List ℕ → List ℕ → List ℕ
wire type sequence_number timestamp_ms payload rest =
    store 4 magic_header
    ++ (store 2 protocol_version
        ++ (store 2 type
            ++ (store 8 sequence_number
                ++ (store 8 timestamp_ms ++ (store 4 (length payload) ++ (payload ++ rest))))))

pub encode-wire :
    (type sequence_number timestamp_ms : ℕ) (payload rest : List ℕ)
    → length payload < 2 ^ 32
    → encode type sequence_number timestamp_ms payload ++ rest
      ≡ wire type sequence_number timestamp_ms payload rest
unfolding encode wire
encode-wire t s m p rest h =
    rw (mod-eq_of_lt h, take-all (length p) p (le_refl _)) (simp append_assoc)

length-wire :
    (type sequence_number timestamp_ms : ℕ) (payload rest : List ℕ)
    → length (wire type sequence_number timestamp_ms payload rest)
      ≡ 28 + (length payload + length rest)
unfolding wire
length-wire t s m p rest = simp (length-append, length-store) (omega arith)

decode-wire :
    (type sequence_number timestamp_ms : ℕ) (payload rest : List ℕ)
    → IsEncodable type sequence_number timestamp_ms payload
    → decode (wire type sequence_number timestamp_ms payload rest)
      ≡ parsed (packet_of type sequence_number timestamp_ms payload)
unfolding decode
decode-wire t s m p rest h =
    let r6 = p ++ rest in
    let r5 = store 4 (length p) ++ r6 in
    let r4 = store 8 m ++ r5 in
    let r3 = store 8 s ++ r4 in
    let r2 = store 2 t ++ r3 in
    let r1 = store 2 protocol_version ++ r2 in
    rw length-wire (
      unfold wire in
      rw
        (
          drop-store,
          drop-store,
          drop-store,
          drop-store,
          drop-store,
          drop-store,
          load-store 4 magic_header r1 (omega arith),
          load-store 2 protocol_version r2 (omega arith),
          load-store 2 t r3 (omega (arith, h.type_fits)),
          load-store 8 s r4 (omega (arith, h.sequence_number_fits)),
          load-store 8 m r5 (omega (arith, h.timestamp_ms_fits)),
          load-store 4 (length p) r6 (omega (arith, h.payload_fits)),
          take-append (length p) p rest refl,
        )
        (ground arith))

-- A packet whose fields fit the format is read back as it was written, whatever bytes follow it.
pub decode-encode :
    (type sequence_number timestamp_ms : ℕ) (payload rest : List ℕ)
    → IsEncodable type sequence_number timestamp_ms payload
    → decode (encode type sequence_number timestamp_ms payload ++ rest)
      ≡ parsed (packet_of type sequence_number timestamp_ms payload)
decode-encode t s m p rest h =
    rw (encode-wire t s m p rest h.payload_fits) (decode-wire t s m p rest h)
