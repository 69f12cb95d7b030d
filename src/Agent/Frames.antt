-- ===== src/Agent/Frames.antt =====
-- The callback that apps/agent/src/main.cpp gives to the capture: one frame for every client.
use remote_access_platform.Prelude.{
  ℕ, ◌/◌, ◌%◌, ◌^◌, List, ◌++◌, map, Bool, ◌&&◌, Option, none, some, length, take, if◌then◌else◌,
  is_empty,
}
use remote_access_platform.Memory.{store}
use remote_access_platform.Protocol.{encode}
use remote_access_platform.Protocol.Payload.{frame_header}
use remote_access_platform.Qt.{byte_array}
use remote_access_platform.Security.Engine.Interface.{Cipher}
use remote_access_platform.Capture.Backend.{FrameData}
use remote_access_platform.Agent.{Socket, wrote, add, nonce_of}

-- A client of the list: whether its socket is open, and the socket.
pub record Peer : Type 0 where
  pub is_open : Bool
  pub socket : Socket

-- `compress` is `qCompress` at level 1.
module _ (cipher : Cipher) (compress : List ℕ → List ℕ) (session_key : List ℕ) where
  unfoldable pub frame_plaintext : FrameData → List ℕ
  frame_plaintext frame =
      let compressed_pixels = compress frame.pixel_data in
      let raw_size = length frame.pixel_data % 2 ^ 32 in
      let comp_size = length compressed_pixels % 2 ^ 32 in
      store 4 frame.width
      ++ (store 4 frame.height ++ (store 4 raw_size ++ take comp_size compressed_pixels))

  unfoldable pub frame_bytes : FrameData → Option (List ℕ)
  frame_bytes frame =
      elim (cipher.encrypt (frame_plaintext frame) session_key (nonce_of frame.frame_number)) [
        | none ↦ none
        | some encrypted_payload ↦ some (
            byte_array (
              encode frame_header frame.frame_number (frame.timestamp_us / 1000) encrypted_payload))
      ]

  unfoldable pub send_frame : List ℕ → Peer → Peer
  send_frame bytes peer =
      if peer.is_open && peer.socket.authenticated
      then record peer { socket = add (wrote bytes) peer.socket }
      else peer

  -- `none` is an exception of `encryptPayload`.
  unfoldable pub on_frame_captured : FrameData → List Peer → Option (List Peer)
  on_frame_captured frame clients =
      if is_empty clients then some clients else (elim (frame_bytes frame) [
        | none ↦ none
        | some bytes ↦ some (map (send_frame bytes) clients)
      ])
