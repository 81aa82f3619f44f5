-- ===== src/UnitTests/Heartbeat.antt =====
-- The tests of oom-watcher/src/health.rs and oom-watcher/src/http.rs.
use ebpf_oom_watcher.Prelude.{ℕ, ◌+◌, ◌≡◌, refl, true, Text, codes, contains, nat_eq}
use ebpf_oom_watcher.Prelude.Decimal.{show}
use ebpf_oom_watcher.Health.{
  Health, new, mark_started, beat, liveness, starting, live, stale, heartbeat_stale_after_seconds,
}
use ebpf_oom_watcher.Http.{report}

abbrev started_at : ℕ → Health
started_at now = mark_started now new

abbrev ReportsStartingUntilTheWatchLoopStarts : Type 0
ReportsStartingUntilTheWatchLoopStarts = liveness new 1000 ≡ starting

reports_starting_until_the_watch_loop_starts : ReportsStartingUntilTheWatchLoopStarts
unfolding liveness new
reports_starting_until_the_watch_loop_starts = refl

abbrev AStartedLoopThatHasNotTickedYetIsLive : Type 0
AStartedLoopThatHasNotTickedYetIsLive = liveness (started_at 1000) 1000 ≡ live 0

a_started_loop_that_has_not_ticked_yet_is_live : AStartedLoopThatHasNotTickedYetIsLive
unfolding liveness mark_started new
a_started_loop_that_has_not_ticked_yet_is_live = refl

abbrev StaysLiveUpToAndIncludingTheStalenessLimit : Type 0
StaysLiveUpToAndIncludingTheStalenessLimit =
    liveness (started_at 1000) (1000 + heartbeat_stale_after_seconds)
    ≡ live heartbeat_stale_after_seconds

stays_live_up_to_and_including_the_staleness_limit : StaysLiveUpToAndIncludingTheStalenessLimit
unfolding liveness mark_started new
stays_live_up_to_and_including_the_staleness_limit = refl

abbrev GoesStaleOneSecondPastTheLimit : Type 0
GoesStaleOneSecondPastTheLimit =
    liveness (started_at 1000) (1001 + heartbeat_stale_after_seconds)
    ≡ stale (heartbeat_stale_after_seconds + 1)

goes_stale_one_second_past_the_limit : GoesStaleOneSecondPastTheLimit
unfolding liveness mark_started new
goes_stale_one_second_past_the_limit = refl

abbrev ABeatClearsStaleness : Type 0
ABeatClearsStaleness =
    let stale_at = 1001 + heartbeat_stale_after_seconds in
    ((age_seconds : ℕ) × (liveness (started_at 1000) stale_at ≡ stale age_seconds))
    × (liveness (beat stale_at (started_at 1000)) stale_at ≡ live 0)

a_beat_clears_staleness : ABeatClearsStaleness
unfolding liveness mark_started new beat
a_beat_clears_staleness = ((91, refl), refl)

abbrev AClockThatStepsBackwardsReadsAsAFreshBeat : Type 0
AClockThatStepsBackwardsReadsAsAFreshBeat = liveness (started_at 1000) 900 ≡ live 0

a_clock_that_steps_backwards_reads_as_a_fresh_beat : AClockThatStepsBackwardsReadsAsAFreshBeat
unfolding liveness mark_started new
a_clock_that_steps_backwards_reads_as_a_fresh_beat = refl

-- The status and a text that the body contains.
abbrev Answers : ℕ × Text → ℕ → Text → Type 0
Answers (status, body) code part = (status ≡ code) × (contains part body ≡ true)

abbrev StartingIsNotYetHealthy : Type 0
StartingIsNotYetHealthy = Answers (report starting) 503 (codes "starting")

starting_is_not_yet_healthy : StartingIsNotYetHealthy
unfolding report contains
starting_is_not_yet_healthy = (refl, refl)

abbrev ALiveLoopAnswers200WithItsAge : Type 0
ALiveLoopAnswers200WithItsAge = Answers (report (live 7)) 200 (codes "7s ago")

a_live_loop_answers_200_with_its_age : ALiveLoopAnswers200WithItsAge
unfolding report contains show
a_live_loop_answers_200_with_its_age = (refl, refl)

abbrev AStaleLoopFailsTheProbeAndNamesTheLimit : Type 0
AStaleLoopFailsTheProbeAndNamesTheLimit =
    Answers (report (stale 400)) 503 (codes "400s")
    × Answers (report (stale 400)) 503 (show heartbeat_stale_after_seconds)

a_stale_loop_fails_the_probe_and_names_the_limit : AStaleLoopFailsTheProbeAndNamesTheLimit
unfolding report contains show
a_stale_loop_fails_the_probe_and_names_the_limit = ((refl, refl), (refl, refl))
