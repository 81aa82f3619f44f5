-- ===== src/Http.antt =====
-- oom-watcher/src/http.rs: the answers of the two endpoints. Routing and the server are axum's.
pub mod Router
use ebpf_oom_watcher.Prelude.{
  ℕ, ◌+◌, ◌≤◌, ◌<◌, ◌≡◌, ◌↔◌, ◌⊎◌, true, false, ◌++◌, arith, Text, codes,
}
use ebpf_oom_watcher.Prelude.Decimal.{show}
use ebpf_oom_watcher.Health.{
  Health, Liveness, starting, live, stale, heartbeat_stale_after_seconds, liveness,
}

-- Status codes by their numbers.
unfoldable pub report : Liveness → ℕ × Text
report starting = (503, codes "starting: the watch loop has not begun draining events yet\n")
report (live age_seconds) =
    (200, codes "live: watch loop last woke " ++ (show age_seconds ++ codes "s ago\n"))
report (stale age_seconds) = (
  503,
  codes "stale: the watch loop has not woken for "
      ++ (show age_seconds
          ++ (codes "s (limit " ++ (show heartbeat_stale_after_seconds ++ codes "s)\n"))),
)

unfoldable pub health_handler : Health → ℕ → ℕ × Text
unfolding report
health_handler health now = report (liveness health now)

-- `/healthz` answers 503 exactly before the start and when the last beat is more than 90 seconds
-- old, and 200 otherwise: a beat of exactly 90 seconds still passes.
pub health_handler_iff :
    (h : Health) (now : ℕ)
    → (((health_handler h now).0 ≡ 503) ↔ ((h.started ≡ false) ⊎ (h.last_beat_seconds + 90 < now)))
      × (((health_handler h now).0 ≡ 200) ↔ ((h.started ≡ true) × (now ≤ h.last_beat_seconds + 90)))
unfolding health_handler liveness
health_handler_iff h now = ground arith
