-- ===== src/Protocol.antt =====
-- libs/protocol: the packet format of include/ProtocolCodec.h and src/ProtocolCodec.cpp.
-- A byte vector is a list of numbers below 256, and a pointer that advances is what is left of it.
pub mod Payload
pub mod RoundTrip
pub mod Stun
pub mod Framing
use remote_access_platform.Prelude.{
  ℕ, ◌+◌, ◌%◌, ◌^◌, List, [], ◌++◌, Bool, arith, length, take, drop, ltb, ◌==◌, not, if◌then◌else◌,
}
use remote_access_platform.Memory.{store, load}

abbrev pub magic_header : ℕ
magic_header = 0x52415030

abbrev pub protocol_version : ℕ
protocol_version = 1

-- `enum class PayloadType : uint16_t`: the cast from a `uint16_t` is unchecked, so that every number
-- below 2 ^ 16 is a value of the type. The enumerators are in `Payload`.
abbrev pub PayloadType : Type 0
PayloadType = ℕ

pub data ParseError : Type 0 where
  no_error invalid_magic_header unsupported_version incomplete_header : ParseError
  incomplete_payload corrupted_payload : ParseError

pub record PacketHeader : Type 0 where
  pub magic : ℕ
  pub version : ℕ
  pub type : PayloadType
  pub sequence_number : ℕ
  pub timestamp_ms : ℕ
  pub payload_size : ℕ

pub record Packet : Type 0 where
  pub header : PacketHeader
  pub payload : List ℕ

-- `std::variant<Packet, ParseError>`
pub data ParseResult : Type 0 where
  parsed : Packet → ParseResult
  failed : ParseError → ParseResult

abbrev pub header_size : ℕ
header_size = 4 + 2 + 2 + 8 + 8 + 4

-- The buffer as it is filled from front to back. The payload's size is cast to `uint32_t`.
unfoldable pub encode : PayloadType → ℕ → ℕ → List ℕ → List ℕ
encode type sequence_number timestamp_ms payload =
    let payload_size = length payload % 2 ^ 32 in
    store 4 magic_header
    ++ (store 2 protocol_version
        ++ (store 2 type
            ++ (store 8 sequence_number
                ++ (store 8 timestamp_ms ++ (store 4 payload_size ++ take payload_size payload)))))

-- The part of `decode` behind the version check; the pointer is at the payload type.
decode_body : ℕ → ℕ → ℕ → List ℕ → ParseResult
decode_body size magic version ptr =
    let type = load 2 ptr in
    let ptr2 = drop 2 ptr in
    let sequence_number = load 8 ptr2 in
    let ptr3 = drop 8 ptr2 in
    let timestamp_ms = load 8 ptr3 in
    let ptr4 = drop 8 ptr3 in
    let payload_size = load 4 ptr4 in
    let ptr5 = drop 4 ptr4 in
    if ltb size (header_size + payload_size)
    then failed ParseError.incomplete_payload
    else parsed (record {
      header = record {
        magic = magic;
        version = version;
        type = type;
        sequence_number = sequence_number;
        timestamp_ms = timestamp_ms;
        payload_size = payload_size;
      };
      payload = take payload_size ptr5;
    })

unfoldable pub decode : List ℕ → ParseResult
unfolding decode_body
decode buffer =
    let size = length buffer in
    let magic = load 4 buffer in
    let ptr = drop 4 buffer in
    let version = load 2 ptr in
    if ltb size header_size
    then failed ParseError.incomplete_header
    else if not (magic == magic_header)
    then failed ParseError.invalid_magic_header
    else if not (version == protocol_version)
    then failed ParseError.unsupported_version
    else decode_body size magic version (drop 2 ptr)
