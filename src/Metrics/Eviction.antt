-- ===== src/Metrics/Eviction.antt =====
-- oom-watcher/src/metrics.rs, `evict_stale` and `note_pod_deleted`: which series a sweep removes,
-- when, and what it reports.
use ebpf_oom_watcher.Prelude.{
  ℕ, ◌-◌, ◌≡◌, refl, ap, ◌∙◌, Bool, ◌&&◌, ◌||◌, not, [], ◌∷◌, none, some, arith, Text, ltb, leb,
  if◌then◌else◌, ◌==◌, list_eq, list_beq_iff, pair_eq, nat_eq, any, is_some,
}
use ebpf_oom_watcher.Prelude.HashMap.{HashMap, keys, get, retain, guard, get-retain, Distinct}
use ebpf_oom_watcher.Prometheus.{MetricVec}
use ebpf_oom_watcher.Metrics.Key.{SeriesKey, key_eq, labels}
use ebpf_oom_watcher.Metrics.Collector.{MetricsCollector}
use ebpf_oom_watcher.Metrics.Evict.{is_due, is_stale, evict_stale}
use ebpf_oom_watcher.Metrics.Tracked.Sweep.{
  due_pods, drained, last_seen-swept, get-live_keys, swept-kills, swept-timestamps, evict_stale_lem,
}

-- The pod of `k` was reported deleted, and its grace is over at `now`.
abbrev pub is_gone : {F : Type 0} → ℕ → MetricsCollector F → SeriesKey → Bool
is_gone now c k =
    is_some (guard (λ at. not (ltb now at)) (get (k.namespace, k.pod) c.deleted_after))

-- The two reasons to remove a key last seen at `seen`: its age has reached the TTL, or its pod is
-- gone.
abbrev pub is_expired : {F : Type 0} → ℕ → ℕ → MetricsCollector F → SeriesKey → ℕ → Bool
is_expired now ttl c k seen = leb ttl (now - seen) || is_gone now c k

any-keys-pod :
    (a b : Text) (m : HashMap (Text × Text) ℕ)
    → any (λ (pod : Text × Text). a == pod.0 && b == pod.1) (keys m) ≡ is_some (get (a, b) m)
unfolding get
any-keys-pod a b [] = refl
any-keys-pod a b (((x, y), v) ∷ m) = ground (
  arith,
  any-keys-pod a b m,
  list_beq_iff a x,
  list_beq_iff b y,
  (pair_eq {A = Text} {B = Text}).eq_iff (x, y) (a, b),
)

module _ {F : Type 0} (now ttl : ℕ) (c : MetricsCollector F) where
  pub is_stale_lem :
      Distinct c.deleted_after
      → (k : SeriesKey) (seen : ℕ)
      → is_stale now ttl (due_pods now c) k seen ≡ is_expired now ttl c k seen
  unfolding is_stale
  is_stale_lem d k seen =
      let pod : Text × Text = (k.namespace, k.pod) in
      ap (λ b. leb ttl (now - seen) || b)
        (any-keys-pod k.namespace k.pod (retain (is_due now) c.deleted_after)
          ∙ ap is_some (get-retain pod (is_due now) c.deleted_after d))

module _ (vec : MetricVec) (now ttl : ℕ) (c : MetricsCollector vec.Family) where
  open vec use {value, value-inc_by}

  abbrev pub test : SeriesKey → ℕ → Bool
  test = is_stale now ttl (due_pods now c)

  module _ (d : Distinct c.last_seen) (p : Distinct c.deleted_after) (k : SeriesKey) where
    pub evicted-kills : value (evict_stale vec now ttl c).1.oom_kills_total (labels k) ≡ (
        if is_some (guard (test k) (get k c.last_seen))
        then none
        else value c.oom_kills_total (labels k))
    evicted-kills = rw (evict_stale_lem vec now ttl c) (swept-kills vec test (drained now c) d k)

    pub evicted-timestamps : value (evict_stale vec now ttl c).1.oom_last_timestamp (labels k) ≡ (
        if is_some (guard (test k) (get k c.last_seen))
        then none
        else value c.oom_last_timestamp (labels k))
    evicted-timestamps =
        rw (evict_stale_lem vec now ttl c) (swept-timestamps vec test (drained now c) d k)

    pub evicted-seen :
        get k (evict_stale vec now ttl c).1.last_seen
        ≡ guard (λ seen. not (test k seen)) (get k c.last_seen)
    evicted-seen = rw (evict_stale_lem vec now ttl c) (
        ap (get k) (last_seen-swept vec test (drained now c))
        ∙ get-live_keys vec test (drained now c) d k)

    -- A sweep removes the counter and the timestamp of a tracked container, and forgets its key,
    -- exactly when its last event is at least the TTL old, or its pod was deleted and the grace is
    -- over. Otherwise both series keep their values, and the key its time.
    pub evict_stale-is_expired :
        {seen : ℕ}
        → get k c.last_seen ≡ some seen
        → (value (evict_stale vec now ttl c).1.oom_kills_total (labels k)
            ≡ (if is_expired now ttl c k seen then none else value c.oom_kills_total (labels k)))
          × (value (evict_stale vec now ttl c).1.oom_last_timestamp (labels k) ≡ (
              if is_expired now ttl c k seen then none else value c.oom_last_timestamp (labels k)))
          × (get k (evict_stale vec now ttl c).1.last_seen
              ≡ (if is_expired now ttl c k seen then none else some seen))
    evict_stale-is_expired {seen} tracked =
        let same = is_stale_lem now ttl c p k seen in
        (
          evicted-kills ∙ rw tracked (ground (arith, same)),
          evicted-timestamps ∙ rw tracked (ground (arith, same)),
          evicted-seen ∙ rw tracked (ground (arith, same)),
        )
