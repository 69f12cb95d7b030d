-- ===== src/Input/Windows.antt =====
-- libs/input/src/WindowsSendInputBackend.cpp: the record that is given to `SendInput`.
use remote_access_platform.Prelude.{
  ℕ, ◌-◌, ◌*◌, ◌/◌, ◌%◌, ◌^◌, Bool, true, false, Option, none, some, ltb, leb, ◌==◌, if◌then◌else◌,
}
use remote_access_platform.Agent.{InputEvent}
use remote_access_platform.Input.{mouse_move, mouse_down, mouse_up, mouse_wheel, key_down, key_up}

-- The flags of `MOUSEINPUT` that the backend sets.
pub data MouseFlags : Type 0 where
  absolute_move left_down right_down middle_down left_up right_up middle_up wheel : MouseFlags

pub data Input : Type 0 where
  -- `dx`, `dy`, `mouseData`
  mouse : MouseFlags → ℕ → ℕ → ℕ → Input
  -- `wVk`, and whether the key goes up
  keyboard : ℕ → Bool → Input

-- `(v * 65535) / size` in 32-bit integers, for a size above 0; `none` is a product that overflows, which
-- C++ leaves undefined.
unfoldable pub scaled : ℕ → ℕ → Option ℕ
scaled v size =
    if ltb v (2 ^ 31)
    then (if ltb (v * 65535) (2 ^ 31) then some (v * 65535 / size) else none)
    else (let below = 2 ^ 32 - v in
        if leb (below * 65535) (2 ^ 31)
        then some ((2 ^ 32 - below * 65535 / size) % 2 ^ 32)
        else none)

abbrev pub move_input : Option ℕ → Option ℕ → Option (Option Input)
move_input none dy = none
move_input (some dx) none = none
move_input (some dx) (some dy) = some (some (mouse absolute_move dx dy 0))

abbrev pub button_flags : ℕ → MouseFlags → MouseFlags → MouseFlags → MouseFlags
button_flags button left right middle =
    if button == 1 then left else if button == 3 then right else middle

-- The event's record on a screen of a size, if there is one; `none` outside is undefined.
unfoldable pub inject_event : ℕ → ℕ → InputEvent → Option (Option Input)
inject_event screen_width screen_height event =
    if event.type == mouse_move
    then move_input (scaled event.x screen_width) (scaled event.y screen_height)
    else if event.type == mouse_down
    then some (some (mouse (button_flags event.button left_down right_down middle_down) 0 0 0))
    else if event.type == mouse_up
    then some (some (mouse (button_flags event.button left_up right_up middle_up) 0 0 0))
    else if event.type == mouse_wheel
    then some (some (mouse wheel 0 0 event.delta))
    else if event.type == key_down
    then some (some (keyboard (event.keycode % 2 ^ 16) false))
    else if event.type == key_up
    then some (some (keyboard (event.keycode % 2 ^ 16) true))
    else some none
