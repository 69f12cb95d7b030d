-- ===== src/Agent/Spec.antt =====
-- What the agent promises a host about one client, without the code: which packets may do what, in which
-- state of the client.
pub mod Refines
use remote_access_platform.Prelude.{
  ℕ, ◌≤◌, ◌≡◌, ◌≢◌, List, [], ◌∷◌, ◌++◌, Bool, true, false, some, length,
}
use remote_access_platform.Memory.{load}
use remote_access_platform.Protocol.{Packet}
use remote_access_platform.Protocol.Payload.{
  input_event, clipboard_data, auth_request, session_control,
}
use remote_access_platform.Agent.{
  Host, Effect, wrote, disconnected, injected, set_clipboard, locked_workstation, input_event_of,
  decrypted, auth_success,
}

module _ (host : Host) where
  -- `Allowed remote before p effects after`: a packet of a client that is let in or not before, and
  -- after; `remote` is whether it is on another machine.
  pub data Allowed (remote before : Bool) (p : Packet) (effects : List Effect) (after : Bool)
      : Type 0 where
    ignored : effects ≡ [] → after ≡ before → Allowed remote before p effects after
    granted :
        (d answer : List ℕ)
        → p.header.type ≡ auth_request
        → decrypted host p ≡ some d
        → d ≢ []
        → auth_success host d ≡ true
        → effects ≡ wrote answer ∷ []
        → after ≡ true
        → Allowed remote before p effects after
    refused :
        (d answer : List ℕ)
        → p.header.type ≡ auth_request
        → decrypted host p ≡ some d
        → d ≢ []
        → auth_success host d ≡ false
        → effects ≡ wrote answer ∷ disconnected ∷ []
        → after ≡ false
        → Allowed remote before p effects after
    entered :
        (d : List ℕ)
        → before ≡ true
        → remote ≡ true
        → p.header.type ≡ input_event
        → decrypted host p ≡ some d
        → 24 ≤ length d
        → effects ≡ injected (input_event_of d) ∷ []
        → after ≡ true
        → Allowed remote before p effects after
    pasted :
        (d : List ℕ)
        → before ≡ true
        → p.header.type ≡ clipboard_data
        → decrypted host p ≡ some d
        → effects ≡ set_clipboard (host.qt.from_utf8 d) ∷ []
        → after ≡ true
        → Allowed remote before p effects after
    locked :
        (d : List ℕ)
        → before ≡ true
        → p.header.type ≡ session_control
        → decrypted host p ≡ some d
        → load 4 d ≡ 2
        → effects ≡ locked_workstation ∷ []
        → after ≡ true
        → Allowed remote before p effects after

  -- Packet after packet.
  pub data Run (remote : Bool) : Bool → List Packet → List Effect → Bool → Type 0 where
    done : {a : Bool} → Run remote a [] [] a
    step :
        {a b c : Bool} {p : Packet} {ps : List Packet} {es fs : List Effect}
        → Allowed remote a p es b
        → Run remote b ps fs c
        → Run remote a (p ∷ ps) (es ++ fs) c
