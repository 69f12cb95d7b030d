-- ===== src/Mobile.antt =====
-- libs/common/src/rap_mobile_c_api.cpp: the packet functions for the mobile apps. A pointer that may be
-- null is an Option, a buffer that is filled a result, and a pointer that is only tested a Bool.
pub mod RoundTrip
use remote_access_platform.Prelude.{
  ℕ, ◌%◌, ◌^◌, List, [], Bool, not, Option, none, some, length, ltb, if◌then◌else◌, is_empty,
}
use remote_access_platform.Protocol.{Packet, encode, decode, parsed, failed}

-- The return values 0, -1 and -2.
pub data Status : Type 0 where
  success bad_argument failure : Status

-- `rap_c_packet_t`
pub record CPacket : Type 0 where
  pub payload_type : ℕ
  pub sequence_num : ℕ
  pub timestamp_ms : ℕ
  pub payload_size : ℕ
  pub payload_data : Option (List ℕ)

abbrev pub bytes_at : Option (List ℕ) → List ℕ
bytes_at none = []
bytes_at (some bytes) = bytes

-- `has_outputs` is whether neither `out_buf` nor `written_len` is null. The payload's type is cast from
-- 32 bits to 16. With the status come the bytes that are written out.
unfoldable pub encode_packet : ℕ → ℕ → ℕ → Option (List ℕ) → Bool → ℕ → Status × Option (List ℕ)
encode_packet payload_type sequence_num timestamp_ms payload_data has_outputs max_out_len =
    let encoded =
      encode (payload_type % 2 ^ 16) sequence_num timestamp_ms (bytes_at payload_data) in
    if not has_outputs
    then (bad_argument, none)
    else if ltb max_out_len (length encoded)
    then (failure, none)
    else (success, some encoded)

unfoldable pub c_packet_of : Packet → CPacket
c_packet_of pkt = record {
  payload_type = pkt.header.type;
  sequence_num = pkt.header.sequence_number;
  timestamp_ms = pkt.header.timestamp_ms;
  payload_size = length pkt.payload;
  payload_data = if is_empty pkt.payload then none else some pkt.payload;
}

-- `has_packet` is whether `out_packet` is not null. `malloc` is taken to succeed.
unfoldable pub decode_packet : Option (List ℕ) → Bool → Status × Option CPacket
decode_packet none has_packet = (bad_argument, none)
decode_packet (some bytes) has_packet =
    if not has_packet
    then (bad_argument, none)
    else if ltb (length bytes) 28
    then (bad_argument, none)
    else (elim (decode bytes) [
      | failed e ↦ (failure, none)
      | parsed pkt ↦ (success, some (c_packet_of pkt))
    ])

-- The pointer is cleared with the memory; the size stays.
unfoldable pub free_packet : CPacket → CPacket
free_packet packet = record packet { payload_data = none }
