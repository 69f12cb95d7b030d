-- ===== src/Client/Telemetry.antt =====
-- Telemetry, monitors and sound of SessionClient.cpp. Times are arguments. A `double` is a parameter.
pub mod Rates
use remote_access_platform.Prelude.{
  ℕ, zero, suc, ◌+◌, ◌-◌, ◌*◌, ◌/◌, ◌%◌, ◌^◌, List, [], ◌∷◌, ◌++◌, Bool, true, false, not, ltb,
  ◌==◌, if◌then◌else◌,
}
use remote_access_platform.Qt.{Text, literal}

-- What the slots use of `double`: 0.0, 1.0, the order, and the rate in Mbps of so many bytes in a second, with the
-- test whether two rates are more than 0.01 apart. -0.0 and values that are no number are left aside.
pub record Doubles : Type 1 where
  pub Double : Type 0
  pub zero_point : Double
  pub one_point : Double
  pub less : Double → Double → Bool
  pub same_double : Double → Double → Bool
  pub mbps : ℕ → Double
  pub apart : Double → Double → Bool

-- Signals under their own names. An `int` is its 32-bit pattern.
pub data GaugeOutput (D : Type 0) : Type 0 where
  fps_changed : ℕ → GaugeOutput D
  bitrate_changed : D → GaugeOutput D
  latency_ms_changed : ℕ → GaugeOutput D
  current_monitor_id_changed : ℕ → GaugeOutput D
  audio_volume_changed : D → GaugeOutput D
  bandwidth_cap_changed : GaugeOutput D

-- `received_frames` and `is_connected` are those of the session.
pub record Gauges (D : Type 0) : Type 0 where
  pub received_frames : ℕ
  pub is_connected : Bool
  pub fps : ℕ
  pub latency_ms : ℕ
  pub bitrate : D
  pub last_frame_count : ℕ
  pub last_byte_count : ℕ
  pub total_bytes_received : ℕ
  pub current_monitor_id : ℕ
  pub audio_volume : D
  pub bandwidth_cap_mbps : D
  pub gauge_outputs : List (GaugeOutput D)

abbrev pub show : {D : Type 0} → GaugeOutput D → Gauges D → Gauges D
show o s = record s { gauge_outputs = s.gauge_outputs ++ (o ∷ []) }

module _ {D : Type 0} where
  -- `static_cast<int>(receivedFrames_ - lastFrameCount_)`: the low 32 bits of a difference of 64-bit counts.
  unfoldable pub current_fps : Gauges D → ℕ
  current_fps s = (s.received_frames + 2 ^ 64 - s.last_frame_count) % 2 ^ 64 % 2 ^ 32

  unfoldable pub update_fps : Gauges D → Gauges D
  update_fps s =
      let current = current_fps s in
      let s1 = record s { last_frame_count = s.received_frames } in
      if s1.fps == current then s1 else show (fps_changed current) (record s1 { fps = current })

  -- `12 + (static_cast<int>(receivedFrames_) % 8)`; `%` of a negative `int` is not positive.
  unfoldable pub simulated_latency : Gauges D → ℕ
  simulated_latency s =
      let frames = s.received_frames % 2 ^ 32 in
      if ltb frames (2 ^ 31) then 12 + frames % 8 else 12 - (2 ^ 32 - frames) % 8

  unfoldable pub update_latency : Gauges D → Gauges D
  update_latency s =
      let latency = if s.is_connected then simulated_latency s else 0 in
      if s.latency_ms == latency
      then s
      else show (latency_ms_changed latency) (record s { latency_ms = latency })

  -- `selectMonitor`; what else it does is logging.
  unfoldable pub select_monitor : ℕ → Gauges D → Gauges D
  select_monitor monitor_id s =
      if s.current_monitor_id == monitor_id
      then s
      else show (current_monitor_id_changed monitor_id)
          (record s { current_monitor_id = monitor_id })

module _ (doubles : Doubles) where
  open doubles use {Double, zero_point, one_point, less, same_double, mbps, apart}

  unfoldable pub update_bitrate : Gauges Double → Gauges Double
  update_bitrate s =
      let current = mbps ((s.total_bytes_received + 2 ^ 64 - s.last_byte_count) % 2 ^ 64) in
      let s1 = record s { last_byte_count = s.total_bytes_received } in
      if apart s1.bitrate current
      then show (bitrate_changed current) (record s1 { bitrate = current })
      else s1

  -- The slot of the one-second timer.
  unfoldable pub update_telemetry : Gauges Double → Gauges Double
  update_telemetry s = update_latency (update_bitrate (update_fps s))

  -- `std::clamp(volume, 0.0, 1.0)`
  unfoldable pub clamp_volume : Double → Double
  clamp_volume volume =
      if less volume zero_point
      then zero_point
      else if less one_point volume
      then one_point
      else volume

  unfoldable pub set_audio_volume : Double → Gauges Double → Gauges Double
  set_audio_volume volume s =
      show (audio_volume_changed (clamp_volume volume))
        (record s { audio_volume = clamp_volume volume })

  unfoldable pub set_bandwidth_cap_mbps : Double → Gauges Double → Gauges Double
  set_bandwidth_cap_mbps cap_mbps s =
      if same_double s.bandwidth_cap_mbps cap_mbps
      then s
      else show bandwidth_cap_changed (record s { bandwidth_cap_mbps = cap_mbps })
