-- ===== src/Capture/X11/Monitors.antt =====
-- Which screens of a display can be chosen, and what is captured then.
use remote_access_platform.Prelude.{
  ℕ, zero, suc, ◌+◌, ◌%◌, ◌^◌, ◌<◌, ◌≡◌, refl, true, false, ◌&&◌, none, some, ltb, leb,
  if◌then◌else◌, arith,
}
use native.Mathlib.Decide.{ℕ_discrete}
use remote_access_platform.Qt.{Text}
use remote_access_platform.Capture.X11.{
  Display, LinuxX11Capture, screen_info, screens, enumerate_monitors, find_monitor, root_of,
  select_monitor,
}

module _ (number : ℕ → Text) (d : Display) where
  find_monitor-screens :
      (n i k : ℕ)
      → find_monitor k (screens number d n i)
        ≡ (if leb i k && ltb k (i + n) then some (screen_info number d k) else none)
  unfolding find_monitor screens
  find_monitor-screens zero i k = ground arith
  find_monitor-screens (suc n) i k = elim (ℕ_discrete i k) [
    | yes e ↦ rw e (ground arith)
    | no ne ↦ ground (arith, find_monitor-screens n (i + 1) k)
  ]

  -- On an open display with a screen, exactly the numbers below the number of screens can be
  -- chosen; the capture then has that screen's size and root window, and otherwise stays as it was.
  select_monitor_lem :
      (monitor_id : ℕ) (c : LinuxX11Capture)
      → c.display ≡ some d
      → 0 < d.screen_count
      → select_monitor number monitor_id c ≡ (
          if ltb monitor_id d.screen_count
          then (
            true,
            record c {
              active_monitor_id = monitor_id;
              width = d.display_width monitor_id % 2 ^ 32;
              height = d.display_height monitor_id % 2 ^ 32;
              root_window = d.root_window monitor_id;
            },
          )
          else (false, c))
  unfolding select_monitor root_of
  select_monitor_lem monitor_id c e h =
      let monitors : enumerate_monitors number c ≡ screens number d d.screen_count 0 =
        enumerated d.screen_count h refl in
      ground (arith, e, monitors, find_monitor-screens d.screen_count 0 monitor_id)
    where
      enumerated :
          (n : ℕ)
          → 0 < n
          → n ≡ d.screen_count
          → enumerate_monitors number c ≡ screens number d d.screen_count 0
      enumerated zero h k = absurd (omega arith)
      enumerated (suc n) h k = unfold enumerate_monitors screens in ground (arith, e, k)
