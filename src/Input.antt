-- ===== src/Input.antt =====
-- libs/input: what the agent's input backends make of an event. An `int32_t` is its bit pattern.
pub mod Windows
use remote_access_platform.Prelude.{
  ℕ, ◌^◌, List, [], ◌∷◌, ◌++◌, Bool, true, false, ◌&&◌, ◌||◌, not, ltb, ◌==◌, if◌then◌else◌,
}
use remote_access_platform.Agent.{InputEvent}

-- Enumerators of `InputEventType`.
abbrev pub mouse_move : ℕ
mouse_move = 1

abbrev pub mouse_down : ℕ
mouse_down = 2

abbrev pub mouse_up : ℕ
mouse_up = 3

abbrev pub mouse_wheel : ℕ
mouse_wheel = 4

abbrev pub key_down : ℕ
key_down = 5

abbrev pub key_up : ℕ
key_up = 6

-- Calls of the XTest extension, all with the current time.
pub data XCall : Type 0 where
  fake_motion : ℕ → ℕ → XCall
  fake_button : ℕ → Bool → XCall
  fake_key : ℕ → Bool → XCall
  flush : XCall

pub record LinuxX11Input : Type 0 where
  pub has_display : Bool
  pub xtest_supported : Bool

-- The arguments are whether `XOpenDisplay` and `XTestQueryExtension` succeed.
unfoldable pub initialize : Bool → Bool → LinuxX11Input → LinuxX11Input
initialize opens supports b =
    if opens
    then record { has_display = true; xtest_supported = supports }
    else record b { has_display = false }

-- A positive `int32_t`.
abbrev pub is_positive : ℕ → Bool
is_positive v = ltb 0 v && ltb v (2 ^ 31)

-- The calls for an event; the function always returns true. The first argument is whether injection is
-- switched off in the environment.
unfoldable pub inject_event : Bool → LinuxX11Input → InputEvent → List XCall
inject_event disabled b event =
    if disabled || not (b.has_display && b.xtest_supported)
    then []
    else if event.type == mouse_move
    then fake_motion event.x event.y ∷ flush ∷ []
    else if event.type == mouse_down
    then fake_motion event.x event.y ∷ fake_button event.button true ∷ flush ∷ []
    else if event.type == mouse_up
    then fake_button event.button false ∷ flush ∷ []
    else if event.type == mouse_wheel
    then (let btn = if is_positive event.delta then 4 else 5 in
        fake_button btn true ∷ fake_button btn false ∷ flush ∷ [])
    else if event.type == key_down
    then (if ltb 0 event.keycode then fake_key event.keycode true ∷ flush ∷ [] else [])
    else if event.type == key_up
    then (if ltb 0 event.keycode then fake_key event.keycode false ∷ flush ∷ [] else [])
    else []
