-- ===== src/Watch/Log.antt =====
-- oom-watcher/src/watch.rs: the lines that the loop logs for one event.
use ebpf_oom_watcher.Prelude.{
  ℕ, ◌-◌, ◌≡◌, refl, ◌≢◌, List, [], ◌∷◌, ◌++◌, Option, none, some, Text, codes, arith, ltb,
  if◌then◌else◌, ◌==◌, nat_eq, replicate, zero, suc, All, ap, ◌∙◌,
}
use ebpf_oom_watcher.Prelude.Decimal.{show}
use ebpf_oom_watcher.Common.{OomKillEvent, EnrichedOomEvent}
use ebpf_oom_watcher.Resolve.{
  ResolutionOutcome, found, not_found, failed, Error, ContainerResolver, identity,
}
use ebpf_oom_watcher.Enrich.{enrich}

-- `trim_end_matches` of one character.
abbrev keep_unless : ℕ → ℕ → Text → Text
keep_unless p c [] = if c == p then [] else c ∷ []
keep_unless p c (d ∷ ds) = c ∷ d ∷ ds

unfoldable pub trim_end_matches : ℕ → Text → Text
trim_end_matches p [] = []
trim_end_matches p (c ∷ cs) = keep_unless p c (trim_end_matches p cs)

abbrev unwrap_or_question : Option Text → Text
unwrap_or_question none = codes "?"
unwrap_or_question (some text) = text

abbrev unwrap_or_unknown : Option Text → Text
unwrap_or_unknown none = codes "unknown"
unwrap_or_unknown (some text) = text

-- `Display` of an `i16`, given as its bit pattern.
abbrev show_i16 : ℕ → Text
show_i16 bits = if ltb bits 32768 then show bits else codes "-" ++ show (65536 - bits)

-- A line with its level.
pub data Line : Type 0 where
  info : Text → Line
  warn : Text → Line

-- `from_utf8` is the standard library's.
module _ (from_utf8 : List ℕ → Option Text) where
  unfoldable pub comm_str : OomKillEvent → Text
  unfolding trim_end_matches
  comm_str raw = trim_end_matches 0 (unwrap_or_question (from_utf8 raw.comm))

  abbrev kubernetes_line : EnrichedOomEvent → Option Text → List Line
  kubernetes_line enriched none = []
  kubernetes_line enriched (some ns) =
      info (
        codes "   Kubernetes: "
        ++ (ns
            ++ (codes "/"
                ++ (unwrap_or_unknown enriched.pod_name
                    ++ (codes "/" ++ unwrap_or_unknown enriched.container_name)))))
      ∷ []

  unfoldable pub log_event : OomKillEvent → EnrichedOomEvent → List Line
  log_event raw enriched =
      info (codes "🚨 OOM EVENT DETECTED:")
        ∷ info (
            codes "   Process: "
            ++ (comm_str raw ++ (codes " (PID: " ++ (show raw.pid ++ codes ")"))))
        ∷ kubernetes_line enriched enriched.namespace
      ++ (info (
            codes "   Memory: total-vm="
            ++ (show raw.total_vm
                ++ (codes "kB anon-rss="
                    ++ (show raw.anon_rss
                        ++ (codes "kB file-rss="
                            ++ (show raw.file_rss
                                ++ (codes "kB shmem-rss="
                                    ++ (show raw.shmem_rss ++ codes "kB"))))))))
          ∷ info (
              codes "   User: UID="
              ++ (show raw.uid
                  ++ (codes " pgtables="
                      ++ (show raw.pgtables
                          ++ (codes "kB oom_score_adj=" ++ show_i16 raw.oom_score_adj)))))
          ∷ [])

  -- The warning of a resolution that names no container; `display` is that of `anyhow::Error`.
  unfoldable pub warning : (Error → Text) → OomKillEvent → ResolutionOutcome → List Line
  warning display raw (found id) = []
  warning display raw not_found =
      warn (codes "Could not find Kubernetes info for PID " ++ show raw.pid) ∷ []
  warning display raw (failed e) =
      warn (
        codes "Error getting Kubernetes info for PID "
        ++ (show raw.pid ++ (codes ": " ++ display e)))
      ∷ []

  -- All that `process_event` logs.
  unfoldable pub process_event_log :
      {World : Type 0}
      → (Error → Text)
      → Option (ContainerResolver World)
      → World
      → OomKillEvent
      → ℕ
      → List Line
  unfolding log_event warning
  process_event_log display none world raw at = log_event raw (enrich raw none none at)
  process_event_log display (some client) world raw at =
      let outcome = client.resolve world raw.pid in
      warning display raw outcome
      ++ log_event raw (enrich raw (some client.node_name) (identity outcome) at)

trim_end_matches-replicate : (p n : ℕ) → trim_end_matches p (replicate n p) ≡ []
unfolding trim_end_matches
trim_end_matches-replicate p zero = refl
trim_end_matches-replicate p (suc n) = ground (arith, trim_end_matches-replicate p n)

trim_end_matches-append :
    (p : ℕ) (name rest : Text)
    → trim_end_matches p rest ≡ []
    → All (λ c. c ≢ p) name
    → trim_end_matches p (name ++ rest) ≡ name
unfolding trim_end_matches
trim_end_matches-append p [] rest h none_are = h
trim_end_matches-append p (c ∷ []) rest h (differs, none_are) = ground arith
trim_end_matches-append p (c ∷ d ∷ ds) rest h (differs, none_are) =
    rw (trim_end_matches-append p (d ∷ ds) rest h none_are) refl

-- The name of a process that is shorter than its buffer of zeros is logged without them.
comm_str-padded :
    (from_utf8 : List ℕ → Option Text) (raw : OomKillEvent) (name : Text) (n : ℕ)
    → raw.comm ≡ name ++ replicate n 0
    → from_utf8 (name ++ replicate n 0) ≡ some (name ++ replicate n 0)
    → All (λ c. c ≢ 0) name
    → comm_str from_utf8 raw ≡ name
unfolding comm_str
comm_str-padded from_utf8 raw name n e h none_are =
    ap (λ b. trim_end_matches 0 (unwrap_or_question (from_utf8 b))) e
    ∙ ap (λ o. trim_end_matches 0 (unwrap_or_question o)) h
    ∙ trim_end_matches-append 0 name (replicate n 0) (trim_end_matches-replicate 0 n) none_are
