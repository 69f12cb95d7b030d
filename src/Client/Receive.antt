-- ===== src/Client/Receive.antt =====
-- `onReadyRead` of SessionClient.cpp: the packets that the agent sends, out of a buffer that is kept from
-- one read to the next.
pub mod Buffer
pub mod Chunking
pub mod Frames
pub mod Single
use remote_access_platform.Prelude.{
  ℕ, zero, suc, ◌+◌, ◌*◌, ◌%◌, ◌^◌, List, [], ◌∷◌, ◌++◌, Bool, true, false, ◌&&◌, not, Option, none,
  some, length, take, drop, ltb, leb, ◌==◌, if◌then◌else◌, is_empty, get_or,
}
use remote_access_platform.Memory.{load}
use remote_access_platform.Protocol.{Packet, ParseError, decode, parsed, failed}
use remote_access_platform.Protocol.Payload.{
  frame_header, clipboard_data, auth_response, terminal_data,
}
use remote_access_platform.Security.Engine.Interface.{Cipher}
use remote_access_platform.Qt.{Text, QtText, literal}
use remote_access_platform.Agent.{nonce_of}
use remote_access_platform.Client.{
  Session, Image, Output, updated_frame, clipboard_text_received, set_clipboard,
  chat_message_received, terminal_output_changed, terminal_output_received, session_key, put,
  set_status, target_name,
}
use remote_access_platform.Client.Connection.{disconnect_from_host}

-- What the slot finds in the process: `qUncompress`, whether there is a frame provider and a clipboard,
-- and what Qt does when a socket is disconnected.
pub record Desk : Type 0 where
  pub cipher : Cipher
  pub qt : QtText
  pub uncompress : List ℕ → List ℕ
  pub has_frame_provider : Bool
  pub has_clipboard : Bool
  pub close : Session → Session

module _ (desk : Desk) where
  open desk use {cipher, qt, uncompress, has_frame_provider, has_clipboard, close}

  unfoldable pub opened : Packet → Option (List ℕ)
  opened packet = cipher.decrypt packet.payload session_key (nonce_of packet.header.sequence_number)

  -- The pixels of a decrypted frame: uncompressed, or else raw from byte 8 on.
  unfoldable pub pixels_of : List ℕ → List ℕ
  pixels_of plaintext =
      let width = load 4 plaintext in
      let height = load 4 (drop 4 plaintext) in
      let pixels = uncompress (drop 12 plaintext) in
      if is_empty pixels && leb ((8 + width * height * 4) % 2 ^ 64) (length plaintext)
      then take (width * height * 4 % 2 ^ 32) (drop 8 plaintext)
      else pixels

  -- `QImage` over lines of `width * 4` bytes, copied. Sizes that no `int` holds make a null image; what
  -- is read behind too few pixels is undefined, and nothing here.
  unfoldable pub image_of : List ℕ → ℕ → ℕ → Image
  image_of pixels width height =
      if ltb (width * 4) (2 ^ 31) && ltb height (2 ^ 31)
      then record { pixels = take (width * 4 * height) pixels; width = width; height = height }
      else record { pixels = []; width = 0; height = 0 }

  unfoldable pub show_frame : List ℕ → Session → Session
  show_frame plaintext s =
      let width = load 4 plaintext in
      let height = load 4 (drop 4 plaintext) in
      let pixels = pixels_of plaintext in
      if (ltb 0 width && (ltb 0 height && not (is_empty pixels))) && has_frame_provider
      then put (updated_frame (image_of pixels width height))
          (record s { received_frames = (s.received_frames + 1) % 2 ^ 64 })
      else s

  unfoldable pub on_frame : List ℕ → Session → Session
  on_frame plaintext s = if leb 12 (length plaintext) then show_frame plaintext s else s

  -- The time of day is an argument.
  unfoldable pub on_clipboard_data : Text → List ℕ → Session → Session
  on_clipboard_data time plaintext s =
      let text = qt.from_utf8 plaintext in
      if is_empty plaintext
      then s
      else if qt.starts_with text (literal "CHAT:")
      then put (chat_message_received (literal "Remote Host") (qt.mid text 5) time) s
      else (let s1 = record s { last_clipboard_text = text } in
          put (clipboard_text_received text)
            (if has_clipboard then put (set_clipboard text) s1 else s1))

  -- " — Session Verified"; the dash is U+2014.
  unfoldable pub on_auth_response : List ℕ → Session → Session
  on_auth_response plaintext s =
      if is_empty plaintext
      then s
      else if get_or plaintext 0 0 == 0
      then set_status
          (literal "Connected to "
            ++ (target_name s ++ (literal " " ++ (0x2014 ∷ literal " Session Verified"))))
          s
      else disconnect_from_host close
          (set_status (literal "Authentication Failed: Invalid Remote Password") s)

  unfoldable pub on_terminal_data : List ℕ → Session → Session
  on_terminal_data plaintext s =
      let text = qt.from_utf8 plaintext in
      let output = s.terminal_output ++ text in
      if is_empty plaintext
      then s
      else put (terminal_output_received text)
          (put (terminal_output_changed output) (record s { terminal_output = output }))

  -- A packet of the type that is opened, or nothing.
  unfoldable pub with_plaintext : (List ℕ → Session → Session) → Packet → Session → Session
  with_plaintext handle packet s = elim (opened packet) [
    | none ↦ s
    | some plaintext ↦ handle plaintext s
  ]

  -- Audio packets are only logged.
  unfoldable pub on_packet : Text → Packet → Session → Session
  on_packet time packet s =
      let type = packet.header.type in
      if is_empty packet.payload
      then s
      else if type == frame_header
      then (if s.render_gated then s else with_plaintext on_frame packet s)
      else if type == clipboard_data
      then with_plaintext (on_clipboard_data time) packet s
      else if type == auth_response
      then with_plaintext on_auth_response packet s
      else if type == terminal_data
      then with_plaintext on_terminal_data packet s
      else s

  -- Which errors of the decoder wait for more bytes; behind the others one byte is dropped.
  abbrev pub waits_for_more : ParseError → Bool
  waits_for_more ParseError.incomplete_header = true
  waits_for_more ParseError.incomplete_payload = true
  waits_for_more ParseError.no_error = false
  waits_for_more ParseError.invalid_magic_header = false
  waits_for_more ParseError.unsupported_version = false
  waits_for_more ParseError.corrupted_payload = false

  -- `receiveBuffer_.remove(0, n)`
  abbrev pub remove_front : ℕ → Session → Session
  remove_front n s = record s { receive_buffer = drop n s.receive_buffer }

  -- The first argument bounds the rounds.
  unfoldable pub receive_loop : Text → ℕ → Session → Session
  receive_loop time zero s = s
  receive_loop time (suc fuel) s =
      if ltb (length s.receive_buffer) 28 then s else (elim (decode s.receive_buffer) [
        | failed e ↦ if waits_for_more e then s else receive_loop time fuel (remove_front 1 s)
        | parsed packet ↦
            receive_loop time fuel
              (remove_front (28 + packet.header.payload_size) (on_packet time packet s))
      ])

  -- Every round takes a byte at least, so that as many rounds as bytes are enough.
  unfoldable pub on_ready_read : Text → List ℕ → Session → Session
  on_ready_read time bytes s =
      let s1 = record s { receive_buffer = s.receive_buffer ++ bytes } in
      receive_loop time (length s1.receive_buffer) s1
