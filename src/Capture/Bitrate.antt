-- ===== src/Capture/Bitrate.antt =====
-- libs/capture/src/AdaptiveBitrateController.cpp: frame rate and bit rate from the state of the network, and
-- the pause of the X capture's thread between two frames.
use remote_access_platform.Prelude.{
  ℕ, ◌/◌, ◌≤◌, ◌≡◌, inl, inr, Bool, true, ◌||◌, ltb, if◌then◌else◌, arith, Bool-cases,
}

pub record CodecSettings : Type 0 where
  pub target_bitrate_kbps : ℕ
  pub target_fps : ℕ
  pub enable_hardware_acceleration : Bool

unfoldable pub controller : ℕ → ℕ → CodecSettings
controller initial_bitrate_kbps initial_fps = record {
  target_bitrate_kbps = initial_bitrate_kbps;
  target_fps = initial_fps;
  enable_hardware_acceleration = true;
}

-- The round trip, and how the loss rate, a `float`, compares with `0.05f` and `0.01f`.
pub record Telemetry : Type 0 where
  pub rtt_ms : ℕ
  pub loss_above_005 : Bool
  pub loss_above_001 : Bool

unfoldable pub update_telemetry : Telemetry → CodecSettings → CodecSettings
update_telemetry t settings =
    if ltb 200 t.rtt_ms || t.loss_above_005
    then record settings { target_fps = 15; target_bitrate_kbps = 2000 }
    else if ltb 80 t.rtt_ms || t.loss_above_001
    then record settings { target_fps = 30; target_bitrate_kbps = 4500 }
    else record settings { target_fps = 60; target_bitrate_kbps = 8000 }

-- `sleepMs`
unfoldable pub sleep_ms : CodecSettings → ℕ
sleep_ms settings = if ltb 0 settings.target_fps then 1000 / settings.target_fps else 33

-- One network is no better than another.
pub record Worse (t u : Telemetry) : Type 0 where
  pub rtt : u.rtt_ms ≤ t.rtt_ms
  pub severe : u.loss_above_005 ≡ true → t.loss_above_005 ≡ true
  pub moderate : u.loss_above_001 ≡ true → t.loss_above_001 ≡ true

-- On a network that is no better neither rate is higher and the pause is no shorter, whatever the
-- settings before.
update_telemetry-Worse :
    (t u : Telemetry) (s s' : CodecSettings)
    → Worse t u
    → ((update_telemetry t s).target_fps ≤ (update_telemetry u s').target_fps)
      × ((update_telemetry t s).target_bitrate_kbps ≤ (update_telemetry u s').target_bitrate_kbps)
      × (sleep_ms (update_telemetry u s') ≤ sleep_ms (update_telemetry t s))
unfolding update_telemetry sleep_ms
update_telemetry-Worse t u s s' w =
    let severe = w.severe in
    let moderate = w.moderate in
    elim (Bool-cases u.loss_above_005) [
      | inl a ↦ elim (Bool-cases u.loss_above_001) [
        | inl b ↦ ground (arith, a, b, severe a, moderate b, w.rtt)
        | inr b ↦ ground (arith, a, b, severe a, w.rtt)
      ]
      | inr a ↦ elim (Bool-cases u.loss_above_001) [
        | inl b ↦ ground (arith, a, b, moderate b, w.rtt)
        | inr b ↦ ground (arith, a, b, w.rtt)
      ]
    ]
