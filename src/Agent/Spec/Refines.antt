-- ===== src/Agent/Spec/Refines.antt =====
-- The handler does nothing but what the specification allows.
use remote_access_platform.Prelude.{◌≡◌, List, ◌++◌, not, some}
use remote_access_platform.Protocol.{Packet}
use remote_access_platform.Protocol.Payload.{
  input_event, clipboard_data, auth_request, session_control,
}
use remote_access_platform.Agent.{
  Host, Socket, Effect, handle_auth_request, handle_input_event, handle_clipboard_data,
  handle_session_control,
}
use remote_access_platform.Agent.Spec.{Allowed}

module _ (host : Host) where
  -- The effects of a packet, and the specification's leave for them.
  record Permitted (s : Socket) (p : Packet) (t : Socket) : Type 0 where
    effects : List Effect
    added : t.effects ≡ s.effects ++ effects
    same_peer : t.is_loopback ≡ s.is_loopback
    allowed : Allowed host (not s.is_loopback) s.authenticated p effects t.authenticated

  -- Which handler a packet goes to.
  data Goes (s : Socket) (p : Packet) (t : Socket) : Type 0 where
    nowhere : t ≡ s → Goes s p t
    to_auth : p.header.type ≡ auth_request → handle_auth_request host s p ≡ some t → Goes s p t
    to_input : p.header.type ≡ input_event → t ≡ handle_input_event host s p → Goes s p t
    to_clipboard : p.header.type ≡ clipboard_data → t ≡ handle_clipboard_data host s p → Goes s p t
    to_control : p.header.type ≡ session_control → t ≡ handle_session_control host s p → Goes s p t
