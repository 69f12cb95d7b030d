-- ===== src/Client/Receive/Single.antt =====
-- A read of exactly one packet.
use remote_access_platform.Prelude.{
  ℕ, zero, suc, ◌+◌, ◌≤◌, ◌≡◌, refl, ap, ◌∙◌, List, [], ◌++◌, length, arith, ltb-false, drop-all,
}
use remote_access_platform.Protocol.{Packet, decode, parsed}
use remote_access_platform.Qt.{Text}
use remote_access_platform.Client.{Session}
use remote_access_platform.Client.Receive.{Desk, on_packet, receive_loop, on_ready_read}
use remote_access_platform.Client.Receive.Buffer.{with_buffer, LeavesBuffer}

module _ (desk : Desk) (time : Text) where
  receive_loop_empty :
      (n : ℕ) (s : Session) → receive_loop desk time n (with_buffer [] s) ≡ with_buffer [] s
  unfolding receive_loop
  receive_loop_empty zero s = refl
  receive_loop_empty (suc n) s = refl

  receive_loop_single :
      (n : ℕ) (x : List ℕ) (p : Packet) (s : Session)
      → LeavesBuffer (on_packet desk time p)
      → decode x ≡ parsed p
      → length x ≡ 28 + p.header.payload_size
      → receive_loop desk time (suc n) (with_buffer x s) ≡ with_buffer [] (on_packet desk time p s)
  unfolding receive_loop
  receive_loop_single n x p s k d l =
      rw (ltb-false (length x) 28 (omega arith), d, k x s)
        (ap (λ b. receive_loop desk time n (with_buffer b (on_packet desk time p s)))
            (drop-all (28 + p.header.payload_size) x (omega arith))
          ∙ receive_loop_empty n (on_packet desk time p s))

  pub on_ready_read_single :
      (x : List ℕ) (p : Packet) (s : Session)
      → LeavesBuffer (on_packet desk time p)
      → s.receive_buffer ≡ []
      → decode x ≡ parsed p
      → length x ≡ 28 + p.header.payload_size
      → on_ready_read desk time x s ≡ with_buffer [] (on_packet desk time p s)
  unfolding on_ready_read
  on_ready_read_single x p s k e d l =
      ap (λ b. receive_loop desk time (length (b ++ x)) (with_buffer (b ++ x) s)) e
      ∙ fueled (length x) (omega arith)
    where
      fueled :
          (n : ℕ)
          → 28 ≤ n
          → receive_loop desk time n (with_buffer x s) ≡ with_buffer [] (on_packet desk time p s)
      fueled zero m = absurd (omega arith)
      fueled (suc n) m = receive_loop_single n x p s k d l
