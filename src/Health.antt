-- ===== src/Health.antt =====
-- oom-watcher/src/health.rs: the heartbeat that the liveness probe reads.
pub mod Probe
use ebpf_oom_watcher.Prelude.{
  ℕ, ◌+◌, ◌*◌, ◌-◌, ◌≤◌, ◌<◌, ◌≡◌, ◌↔◌, Bool, true, false, arith, ltb, if◌then◌else◌,
}

abbrev heartbeat_interval_seconds : ℕ
heartbeat_interval_seconds = 30

abbrev pub heartbeat_stale_after_seconds : ℕ
heartbeat_stale_after_seconds = 3 * heartbeat_interval_seconds

pub data Liveness : Type 0 where
  starting : Liveness
  live : ℕ → Liveness
  stale : ℕ → Liveness

-- Two atomics, here with the values that one load of each returns.
pub record Health : Type 0 where
  pub started : Bool
  pub last_beat_seconds : ℕ

-- `Health::new`.
unfoldable pub new : Health
new = record { started = false; last_beat_seconds = 0 }

-- Both stores, in the order of the source.
unfoldable pub mark_started : ℕ → Health → Health
mark_started now_seconds h =
    let seeded = record h { last_beat_seconds = now_seconds } in record seeded { started = true }

unfoldable pub beat : ℕ → Health → Health
beat now_seconds h = record h { last_beat_seconds = now_seconds }

-- `-` stops at 0, as `saturating_sub` does.
abbrev judge : ℕ → Liveness
judge age_seconds =
    if ltb heartbeat_stale_after_seconds age_seconds then stale age_seconds else live age_seconds

unfoldable pub liveness : Health → ℕ → Liveness
liveness h now_seconds = if h.started then judge (now_seconds - h.last_beat_seconds) else starting

-- The probe answers `stale` exactly when the loop has started and its last beat is more than three
-- intervals old; `live` exactly when it has started and the beat is at most that old or lies in
-- the future; the age that it reports is the time since the beat. It answers `starting` exactly
-- before the start.
liveness_iff :
    (h : Health) (now age : ℕ)
    → ((liveness h now ≡ stale age) ↔ (
        (h.started ≡ true) × (h.last_beat_seconds + 90 < now) × (age + h.last_beat_seconds ≡ now)))
      × ((liveness h now ≡ live age) ↔ (
          (h.started ≡ true)
          × (now ≤ h.last_beat_seconds + 90)
          × (age ≡ now - h.last_beat_seconds)))
      × ((liveness h now ≡ starting) ↔ (h.started ≡ false))
unfolding liveness
liveness_iff h now age = ground arith
