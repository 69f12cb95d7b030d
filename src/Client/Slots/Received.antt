-- ===== src/Client/Slots/Received.antt =====
-- Receiving, and what a session keeps between two slots.
use remote_access_platform.Prelude.{
  ℕ, zero, suc, ◌+◌, refl, sym, List, ◌∷◌, length, arith, Option-cases, inl, inr, ltb, is_empty,
  get_or, ◌==◌, ◌++◌,
}
use mathlib.Core.Path.{subst}
use remote_access_platform.Qt.{Text, literal}
use remote_access_platform.Protocol.{Packet, decode}
use remote_access_platform.Protocol.Payload.{
  frame_header, clipboard_data, auth_response, terminal_data,
}
use remote_access_platform.Agent.Packets.{ParseResult-cases}
use remote_access_platform.Client.{Session, set_status, target_name}
use remote_access_platform.Client.Receive.{
  Desk, opened, show_frame, on_frame, on_clipboard_data, on_auth_response, on_terminal_data,
  with_plaintext, on_packet, waits_for_more, remove_front, receive_loop, on_ready_read,
}
use remote_access_platform.Client.Slots.Kept.{
  either-IsConsistent, IsConsistent, Keeps, set_status-IsConsistent,
  disconnect_from_host-IsConsistent,
}

module _ (desk : Desk) (k : Keeps desk.close) (time : Text) where
  on_frame-IsConsistent : (d : List ℕ) → Keeps (on_frame desk d)
  unfolding on_frame show_frame
  on_frame-IsConsistent d s v = ground (arith, v.wanted, v.counted)

  on_clipboard_data-IsConsistent : (d : List ℕ) → Keeps (on_clipboard_data desk time d)
  unfolding on_clipboard_data
  on_clipboard_data-IsConsistent d s v = ground (arith, v.wanted, v.counted)

  on_terminal_data-IsConsistent : (d : List ℕ) → Keeps (on_terminal_data desk d)
  unfolding on_terminal_data
  on_terminal_data-IsConsistent d s v = ground (arith, v.wanted, v.counted)

  on_auth_response-IsConsistent : (d : List ℕ) → Keeps (on_auth_response desk d)
  unfolding on_auth_response
  on_auth_response-IsConsistent d s v =
      let refused = set_status (literal "Authentication Failed: Invalid Remote Password") s in
      either-IsConsistent (is_empty d) s _ v (
        either-IsConsistent (get_or d 0 0 == 0) _ _
          (set_status-IsConsistent
            (literal "Connected to "
              ++ (target_name s ++ (literal " " ++ (0x2014 ∷ literal " Session Verified"))))
            s v)
          (disconnect_from_host-IsConsistent desk.close k refused (
            set_status-IsConsistent (literal "Authentication Failed: Invalid Remote Password") s
              v)))

  with_plaintext-IsConsistent :
      (handle : List ℕ → Session → Session) (p : Packet)
      → ((d : List ℕ) → Keeps (handle d))
      → Keeps (with_plaintext desk handle p)
  unfolding with_plaintext
  with_plaintext-IsConsistent handle p l s v = elim (Option-cases (opened desk p)) [
    | inl e ↦ subst IsConsistent (sym (rw (e, with_plaintext) refl)) v
    | inr (d, e) ↦ subst IsConsistent (sym (rw (e, with_plaintext) refl)) (l d s v)
  ]

  on_packet-IsConsistent : (p : Packet) → Keeps (on_packet desk time p)
  unfolding on_packet
  on_packet-IsConsistent p s v =
      let type = p.header.type in
      let frame = with_plaintext-IsConsistent (on_frame desk) p on_frame-IsConsistent s v in
      let clipboard =
        with_plaintext-IsConsistent (on_clipboard_data desk time) p on_clipboard_data-IsConsistent s
          v in
      let answer =
        with_plaintext-IsConsistent (on_auth_response desk) p on_auth_response-IsConsistent s v in
      let terminal =
        with_plaintext-IsConsistent (on_terminal_data desk) p on_terminal_data-IsConsistent s v in
      either-IsConsistent (is_empty p.payload) s _ v (
        either-IsConsistent (type == frame_header) _ _
          (either-IsConsistent s.render_gated s _ v frame)
          (either-IsConsistent (type == clipboard_data) _ _ clipboard (
            either-IsConsistent (type == auth_response) _ _ answer
              (either-IsConsistent (type == terminal_data) _ s terminal v))))

  remove_front-IsConsistent : (n : ℕ) → Keeps (remove_front desk n)
  remove_front-IsConsistent n s v = ground (arith, v.wanted, v.counted)

  receive_loop-IsConsistent : (n : ℕ) → Keeps (receive_loop desk time n)
  unfolding receive_loop
  receive_loop-IsConsistent zero s v = v
  receive_loop-IsConsistent (suc n) s v =
      either-IsConsistent (ltb (length s.receive_buffer) 28) s _ v
        (elim (ParseResult-cases (decode s.receive_buffer)) [
          | inl (e, bad) ↦ rw bad (
              either-IsConsistent (waits_for_more desk e) s _ v (
                receive_loop-IsConsistent n (remove_front desk 1 s)
                  (remove_front-IsConsistent 1 s v)))
          | inr (p, good) ↦ rw good (
              receive_loop-IsConsistent n
                (remove_front desk (28 + p.header.payload_size) (on_packet desk time p s))
                (remove_front-IsConsistent (28 + p.header.payload_size) (on_packet desk time p s)
                  (on_packet-IsConsistent p s v)))
        ])

  pub on_ready_read-IsConsistent : (bytes : List ℕ) → Keeps (on_ready_read desk time bytes)
  unfolding on_ready_read
  on_ready_read-IsConsistent bytes s v =
      receive_loop-IsConsistent (length (s.receive_buffer ++ bytes))
        (record s { receive_buffer = s.receive_buffer ++ bytes })
        (ground (arith, v.wanted, v.counted))
