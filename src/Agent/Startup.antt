-- ===== src/Agent/Startup.antt =====
-- The start of apps/agent/src/main.cpp, up to the server that listens.
use remote_access_platform.Prelude.{
  ℕ, ◌-◌, ◌≡◌, List, [], ◌∷◌, ◌++◌, Bool, not, Option, none, some, length, take, drop,
  if◌then◌else◌, arith,
}
use remote_access_platform.Security.Engine.Interface.{Cipher}
use remote_access_platform.Qt.{Text, QtText, literal}
use remote_access_platform.Agent.{Host, Socket, ready_read}
use remote_access_platform.Agent.Reading.{ready_read_total}

-- The key that `main` writes out.
abbrev pub main_session_key : List ℕ
main_session_key =
    0x01 ∷ 0x02 ∷ 0x03 ∷ 0x04 ∷ 0x05 ∷ 0x06 ∷ 0x07 ∷ 0x08 ∷ 0x09 ∷ 0x0A ∷ 0x0B ∷ 0x0C ∷ 0x0D ∷ 0x0E
    ∷ 0x0F ∷ 0x10 ∷ 0x11 ∷ 0x12 ∷ 0x13 ∷ 0x14 ∷ 0x15 ∷ 0x16 ∷ 0x17 ∷ 0x18 ∷ 0x19 ∷ 0x1A ∷ 0x1B
    ∷ 0x1C ∷ 0x1D ∷ 0x1E ∷ 0x1F ∷ 0x20 ∷ []

-- The password as it is shown: `left(3) + " " + right(3)`.
unfoldable pub formatted_otp : Text → Text
formatted_otp dynamic_otp =
    take 3 dynamic_otp ++ (literal " " ++ drop (length dynamic_otp - 3) dynamic_otp)

-- What `main` finds: whether the capture can be initialized, whether there are an input backend and a
-- clipboard, and whether the port is free.
pub record Machine : Type 0 where
  pub captures : Bool
  pub has_input_backend : Bool
  pub has_clipboard : Bool
  pub listens : Bool

-- The host that the server then works for; `none` is the exit code 1. `otp_num` is the random number.
unfoldable pub start_up : Cipher → QtText → Machine → ℕ → Option Host
start_up cipher qt machine otp_num =
    if not machine.captures
    then none
    else if not machine.listens
    then none
    else some (record {
      cipher = cipher;
      qt = qt;
      session_key = main_session_key;
      dynamic_otp = qt.number otp_num;
      has_input_backend = machine.has_input_backend;
      has_clipboard = machine.has_clipboard;
    })

-- Where `main` gets as far as listening, the handler of a read ends without an exception, whatever
-- any client sends.
start_up-ready_read :
    (cipher : Cipher) (qt : QtText) (machine : Machine) (otp_num : ℕ) (host : Host) (s : Socket)
    (bytes : List ℕ)
    → start_up cipher qt machine otp_num ≡ some host
    → (t : Socket) × (ready_read host s bytes ≡ some t)
unfolding start_up
start_up-ready_read cipher qt machine otp_num host s bytes h =
    ready_read_total host s bytes (ground arith)
