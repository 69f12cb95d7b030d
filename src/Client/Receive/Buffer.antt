-- ===== src/Client/Receive/Buffer.antt =====
-- What a packet that does not end the connection does is independent of the buffer.
use remote_access_platform.Prelude.{
  ℕ, get_or, some, ◌≡◌, inl, inr, refl, List, ◌∷◌, ◌++◌, same, arith, Bool-cases, Option-cases,
}
use native.Mathlib.Decide.{ℕ_discrete}
use remote_access_platform.Protocol.{Packet}
use remote_access_platform.Protocol.Payload.{auth_response}
use remote_access_platform.Qt.{Text, literal}
use remote_access_platform.Client.{Session, set_status, target_name}
use remote_access_platform.Client.Receive.{
  Desk, opened, show_frame, on_frame, on_clipboard_data, on_auth_response, on_terminal_data,
  with_plaintext, on_packet,
}

abbrev pub with_buffer : List ℕ → Session → Session
with_buffer b s = record s { receive_buffer = b }

-- A function that neither reads nor changes the buffer.
abbrev pub LeavesBuffer : (Session → Session) → Type 0
LeavesBuffer f = (b : List ℕ) (s : Session) → f (with_buffer b s) ≡ with_buffer b (f s)

pub set_status-LeavesBuffer : (status : Text) → LeavesBuffer (set_status status)
unfolding set_status
set_status-LeavesBuffer status b s = elim (Bool-cases (same s.status_text status)) [
  | inl e ↦ rw e refl
  | inr e ↦ rw e refl
]

module _ (desk : Desk) where
  -- A packet that is no refusal: an answer that can be opened has the code 0, or is empty.
  abbrev pub IsHarmless : Packet → Type 0
  IsHarmless p =
      p.header.type ≡ auth_response → (d : List ℕ) → opened desk p ≡ some d → get_or d 0 0 ≡ 0

  on_frame-LeavesBuffer : (d : List ℕ) → LeavesBuffer (on_frame desk d)
  unfolding on_frame show_frame
  on_frame-LeavesBuffer d b s = ground arith

  on_clipboard_data-LeavesBuffer :
      (time : Text) (d : List ℕ) → LeavesBuffer (on_clipboard_data desk time d)
  unfolding on_clipboard_data
  on_clipboard_data-LeavesBuffer time d b s = ground arith

  on_auth_response-LeavesBuffer :
      (d : List ℕ) → get_or d 0 0 ≡ 0 → LeavesBuffer (on_auth_response desk d)
  unfolding on_auth_response target_name
  on_auth_response-LeavesBuffer d code b s = ground (
    arith,
    code,
    set_status-LeavesBuffer
        (literal "Connected to "
          ++ (target_name s ++ (literal " " ++ (0x2014 ∷ literal " Session Verified"))))
        b s,
  )

  on_terminal_data-LeavesBuffer : (d : List ℕ) → LeavesBuffer (on_terminal_data desk d)
  unfolding on_terminal_data
  on_terminal_data-LeavesBuffer d b s = ground arith

  with_plaintext-LeavesBuffer :
      (handle : List ℕ → Session → Session) (p : Packet)
      → ((d : List ℕ) → opened desk p ≡ some d → LeavesBuffer (handle d))
      → LeavesBuffer (with_plaintext desk handle p)
  unfolding with_plaintext
  with_plaintext-LeavesBuffer handle p l b s = elim (Option-cases (opened desk p)) [
    | inl e ↦ rw (e, with_plaintext) refl
    | inr (d, e) ↦ rw (e, with_plaintext) (l d e b s)
  ]

  -- An answer leaves the buffer alone if it is no refusal.
  answer-LeavesBuffer :
      (p : Packet)
      → IsHarmless p
      → p.header.type ≡ auth_response
      → LeavesBuffer (with_plaintext desk (on_auth_response desk) p)
  answer-LeavesBuffer p k t =
      with_plaintext-LeavesBuffer (on_auth_response desk) p
        (λ d e. on_auth_response-LeavesBuffer d (k t d e))

  pub on_packet-LeavesBuffer :
      (time : Text) (p : Packet) → IsHarmless p → LeavesBuffer (on_packet desk time p)
  unfolding on_packet
  on_packet-LeavesBuffer time p k b s =
      let frame =
        with_plaintext-LeavesBuffer (on_frame desk) p (λ d e. on_frame-LeavesBuffer d) b s in
      let clip =
        with_plaintext-LeavesBuffer (on_clipboard_data desk time) p
          (λ d e. on_clipboard_data-LeavesBuffer time d) b s in
      let terminal =
        with_plaintext-LeavesBuffer (on_terminal_data desk) p
          (λ d e. on_terminal_data-LeavesBuffer d) b s in
      elim (ℕ_discrete p.header.type auth_response) [
        | yes t ↦ ground (arith, t, frame, clip, terminal, answer-LeavesBuffer p k t b s)
        | no n ↦ ground (arith, frame, clip, terminal)
      ]
