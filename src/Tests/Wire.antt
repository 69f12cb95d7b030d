-- ===== src/Tests/Wire.antt =====
-- The packet format on concrete packets.
use remote_access_platform.Prelude.{
  ℕ, ◌+◌, ◌<◌, ◌≡◌, ◌↔◌, refl, List, [], ◌∷◌, ◌++◌, arith, length, take, drop,
}
use remote_access_platform.Memory.{store, load}
use remote_access_platform.Protocol.{ParseError, parsed, failed, encode, decode}
use remote_access_platform.Protocol.RoundTrip.{packet_of, IsEncodable, decode-encode}
use remote_access_platform.Protocol.Framing.{decode_cases, decode-append, encode-decode}

abbrev pub heartbeat_fits : IsEncodable 5 7 9 (1 ∷ 2 ∷ [])
heartbeat_fits = record {
  type_fits = omega arith;
  sequence_number_fits = omega arith;
  timestamp_ms_fits = omega arith;
  payload_fits = omega arith;
}

-- A heartbeat with two bytes of payload.
abbrev pub heartbeat_bytes : List ℕ
heartbeat_bytes =
    0x30 ∷ 0x50 ∷ 0x41 ∷ 0x52 ∷ 1 ∷ 0 ∷ 5 ∷ 0 ∷ 7 ∷ 0 ∷ 0 ∷ 0 ∷ 0 ∷ 0 ∷ 0 ∷ 0 ∷ 9 ∷ 0 ∷ 0 ∷ 0 ∷ 0
    ∷ 0 ∷ 0 ∷ 0 ∷ 2 ∷ 0 ∷ 0 ∷ 0 ∷ 1 ∷ 2 ∷ []

encode_heartbeat : encode 5 7 9 (1 ∷ 2 ∷ []) ≡ heartbeat_bytes
unfolding encode store
encode_heartbeat = refl

pub decode_heartbeat : decode heartbeat_bytes ≡ parsed (packet_of 5 7 9 (1 ∷ 2 ∷ []))
unfolding decode load
decode_heartbeat = refl

decode_bad_magic : decode (0 ∷ drop 1 heartbeat_bytes) ≡ failed ParseError.invalid_magic_header
unfolding decode load
decode_bad_magic = refl

decode_short_payload : decode (take 29 heartbeat_bytes) ≡ failed ParseError.incomplete_payload
unfolding decode load
decode_short_payload = refl

decode-encode_example :
    decode (encode 5 7 9 (1 ∷ 2 ∷ []) ++ (3 ∷ [])) ≡ parsed (packet_of 5 7 9 (1 ∷ 2 ∷ []))
decode-encode_example = decode-encode 5 7 9 (1 ∷ 2 ∷ []) (3 ∷ []) heartbeat_fits

encode-decode_example :
    IsEncodable 5 7 9 (1 ∷ 2 ∷ [])
    × (encode 5 7 9 (1 ∷ 2 ∷ []) ++ drop (28 + 2) heartbeat_bytes ≡ heartbeat_bytes)
encode-decode_example =
    encode-decode heartbeat_bytes (packet_of 5 7 9 (1 ∷ 2 ∷ [])) (omega arith) decode_heartbeat

decode_cases_example : (decode [] ≡ failed ParseError.incomplete_header) ↔ (length {A = ℕ} [] < 28)
decode_cases_example = (decode_cases []).0

decode-append_example : decode (heartbeat_bytes ++ (3 ∷ [])) ≡ decode heartbeat_bytes
decode-append_example =
    decode-append heartbeat_bytes (3 ∷ []) (rw decode_heartbeat (λ e. cc))
      (rw decode_heartbeat (λ e. cc))
