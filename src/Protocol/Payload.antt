-- ===== src/Protocol/Payload.antt =====
-- The enumerators of `PayloadType`, libs/protocol/include/ProtocolCodec.h.
use remote_access_platform.Prelude.{ℕ}

abbrev pub unspecified : ℕ
unspecified = 0

abbrev pub handshake_req : ℕ
handshake_req = 1

abbrev pub handshake_resp : ℕ
handshake_resp = 2

abbrev pub frame_header : ℕ
frame_header = 3

abbrev pub input_event : ℕ
input_event = 4

abbrev pub heartbeat : ℕ
heartbeat = 5

abbrev pub clipboard_data : ℕ
clipboard_data = 6

abbrev pub file_transfer_request : ℕ
file_transfer_request = 7

abbrev pub file_transfer_response : ℕ
file_transfer_response = 8

abbrev pub file_chunk_payload : ℕ
file_chunk_payload = 9

abbrev pub file_transfer_control : ℕ
file_transfer_control = 10

abbrev pub directory_list_request : ℕ
directory_list_request = 11

abbrev pub directory_list_response : ℕ
directory_list_response = 12

abbrev pub auth_request : ℕ
auth_request = 13

abbrev pub auth_response : ℕ
auth_response = 14

abbrev pub session_control : ℕ
session_control = 15

abbrev pub audio_frame : ℕ
audio_frame = 16

abbrev pub terminal_data : ℕ
terminal_data = 17
