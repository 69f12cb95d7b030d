-- ===== src/Mobile/RoundTrip.antt =====
-- What the mobile functions write and read back, and their statuses.
use remote_access_platform.Prelude.{
  ℕ, ◌+◌, ◌≤◌, ◌≡◌, refl, sym, ap, ◌∙◌, List, [], true, Option, none, some, is_empty, if◌then◌else◌,
  length, arith, if-false, ltb-false,
}
use native.Mathlib.Nat.{mod-eq_of_lt}
use mathlib.Core.List.{append-nil}
use remote_access_platform.Protocol.{encode, decode, parsed}
use remote_access_platform.Protocol.RoundTrip.{packet_of, decode-encode, length-encode, IsEncodable}
use remote_access_platform.Mobile.{success, bytes_at, encode_packet, decode_packet, c_packet_of}

-- The mobile function for encoding succeeds on fields that fit the format and a buffer of 28 bytes
-- more than the payload, writes that many bytes, and the one for decoding reads from them the same
-- type, sequence number, timestamp, payload and its size; of an empty payload the pointer is null.
pub decode_packet-encode_packet :
    (type sequence_num timestamp_ms max_out_len : ℕ) (payload : Option (List ℕ))
    → IsEncodable type sequence_num timestamp_ms (bytes_at payload)
    → 28 + length (bytes_at payload) ≤ max_out_len
    → (bytes : List ℕ) × (encode_packet type sequence_num timestamp_ms payload true max_out_len
        ≡ (success, some bytes))
      × (length bytes ≡ 28 + length (bytes_at payload))
      × (decode_packet (some bytes) true ≡ (
        success,
        some (record {
          payload_type = type;
          sequence_num = sequence_num;
          timestamp_ms = timestamp_ms;
          payload_size = length (bytes_at payload);
          payload_data = if is_empty (bytes_at payload) then none else some (bytes_at payload);
        }),
      ))
unfolding encode_packet decode_packet c_packet_of
decode_packet-encode_packet type n t max_out_len payload h room =
    let d = bytes_at payload in
    let bytes = encode type n t d in
    let size = length-encode type n t d h.payload_fits in
    let read : decode bytes ≡ parsed (packet_of type n t d) =
      ap decode (sym (append-nil bytes)) ∙ decode-encode type n t d [] h in
    (
      bytes,
      rw (mod-eq_of_lt h.type_fits)
          (if-false _ _ (ltb-false max_out_len (length bytes) (omega arith))),
      size,
      if-false _ _ (ltb-false (length bytes) 28 (omega arith)) ∙ rw read refl,
    )
