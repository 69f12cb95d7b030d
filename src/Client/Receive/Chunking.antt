-- ===== src/Client/Receive/Chunking.antt =====
-- The buffer of `onReadyRead` joins what arrives in parts.
use remote_access_platform.Prelude.{ℕ, ◌≤◌, ◌<◌, ◌≡◌, List, ◌++◌, true, false, length, drop}
use remote_access_platform.Protocol.{Packet, ParseError, decode, parsed, failed}
use remote_access_platform.Qt.{Text}
use remote_access_platform.Client.{Session}
use remote_access_platform.Client.Receive.{Desk, waits_for_more, receive_loop}
use remote_access_platform.Client.Receive.Buffer.{with_buffer, IsHarmless}

module _ (desk : Desk) (time : Text) where
  -- No packet that begins anywhere in the bytes is a refusal.
  abbrev pub NoRefusal : List ℕ → Type 0
  NoRefusal x = (k : ℕ) (p : Packet) → decode (drop k x) ≡ parsed p → IsHarmless desk p

  run : ℕ → Session → List ℕ → Session
  run n s x = receive_loop desk time n (with_buffer x s)

  -- One round, seen from the buffer: it waits, drops a byte, or takes a packet.
  data Round (s : Session) (x : List ℕ) : Type 0 where
    short : length x < 28 → Round s x
    waits :
        (e : ParseError)
        → 28 ≤ length x
        → decode x ≡ failed e
        → waits_for_more desk e ≡ true
        → Round s x
    skips :
        (e : ParseError)
        → 28 ≤ length x
        → decode x ≡ failed e
        → waits_for_more desk e ≡ false
        → Round s x
    takes : (p : Packet) → 28 ≤ length x → decode x ≡ parsed p → Round s x

  -- More bytes for what is left in the buffer.
  resume : Session → List ℕ → Session
  resume t b = run (length (t.receive_buffer ++ b)) t (t.receive_buffer ++ b)
