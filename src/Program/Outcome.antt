-- ===== src/Program/Outcome.antt =====
-- oom-watcher/src/main.rs: when the program starts, and with what it ends.
use ebpf_oom_watcher.Prelude.{
  ℕ, sym, codes, ◌≡◌, refl, ap, ◌∙◌, ◌↔◌, ◌⊎◌, inl, inr, List, [], ◌∷◌, ◌++◌, Option, none, some,
  Bool, true, false, Text, is_some, All, Option-cases, arith,
}
use ebpf_oom_watcher.Prelude.Decimal.{parse_uint}
use ebpf_oom_watcher.Kubernetes.Pods.{unwrap_or}
use ebpf_oom_watcher.Tracepoint.Layout.{
  Verdict, accepted, unreadable, rejected, verify_kernel_layout,
}
use ebpf_oom_watcher.Program.{
  load_object, find_program, as_tracepoint, load_program, attach, take_events, ring_buf_of_events,
  register, take_dropped, dropped_of_map, sigterm, ctrl_c, not_registered, bound, Stage, stages,
  Build, with_ebpf, Env, StartError, Started, started, not_started, first_failure, checked,
  open_source, Running, start, Completion, shutdown, event_processor, metrics_server,
  series_sweeper, pod_cache, stopped, Signal, shutdown_signal, supervise, run_started, main,
  metrics_port,
}

first_failure-none_iff :
    (bring_up : Stage → Option Text) (ss : List Stage)
    → (first_failure bring_up ss ≡ none) ↔ All (λ s. bring_up s ≡ none) ss
unfolding first_failure
first_failure-none_iff bring_up [] = (λ h. tt, λ h. refl)
first_failure-none_iff bring_up (s ∷ ss) =
    let ih = first_failure-none_iff bring_up ss in ground arith

checked-none_iff :
    (v : Verdict) (next : Option StartError)
    → (checked v next ≡ none) ↔ ((v ≡ accepted) × (next ≡ none))
checked-none_iff accepted next = ground arith
checked-none_iff (unreadable path cause) next = ground arith
checked-none_iff (rejected ms missing) next = ground arith

bound_iff :
    (r : Running) (source : Option StartError) (b : Option Text)
    → ((q : Running) × (bound r source b ≡ started q)) ↔ ((b ≡ none) × (source ≡ none))
bound_iff r none none = (λ h. (refl, refl), λ h. (r, refl))
bound_iff r (some e) none = (λ (q, h). absurd (cc), λ (b, h). absurd (cc))
bound_iff r source (some e) = (λ (q, h). absurd (cc), λ (b, h). absurd (cc))

-- The port that METRICS_PORT names in decimal, if it is set to a number of 16 bits; 8080 if not.
abbrev port_in : Option Text → ℕ
port_in none = 8080
port_in (some text) = elim (parse_uint 65536 text) [ none ↦ 8080 | some port ↦ port ]

abbrev pub port_of : (Text → Option Text) → ℕ
port_of var = port_in (var (codes "METRICS_PORT"))

metrics_port-port_of : (env : Env) → metrics_port env ≡ port_of env.var
unfolding metrics_port parse_uint
metrics_port-port_of env = by_var (env.var (codes "METRICS_PORT"))
  where
    by_number : (o : Option ℕ) → unwrap_or o 8080 ≡ elim o [ none ↦ 8080 | some port ↦ port ]
    by_number none = refl
    by_number (some port) = refl

    by_var :
        (o : Option Text)
        → unwrap_or (parse_uint 65536 (unwrap_or o (codes "8080"))) 8080 ≡ port_in o
    by_var none = refl
    by_var (some text) = by_number (parse_uint 65536 text)

-- The program with the probe gets to its tasks exactly if the port that METRICS_PORT names, 8080
-- if it names none, can be bound, the kernel's
-- tracepoint layout is accepted, and each of the ten steps that load and attach the probe succeeds:
-- the object is loaded, the program found in it, taken for a tracepoint, loaded and attached, the map
-- of the events taken, opened as a ring buffer and registered with the reactor, the map of the drops
-- taken and opened. The API server, its node name and the settings have no part in it.
pub start_iff :
    (env : Env)
    → ((r : Running) × (start with_ebpf env ≡ started r)) ↔ (
        (env.bind (port_of env.var) ≡ none)
        × (verify_kernel_layout env.read_to_string ≡ accepted)
        × (env.bring_up load_object ≡ none)
        × (env.bring_up find_program ≡ none)
        × (env.bring_up as_tracepoint ≡ none)
        × (env.bring_up load_program ≡ none)
        × (env.bring_up attach ≡ none)
        × (env.bring_up take_events ≡ none)
        × (env.bring_up ring_buf_of_events ≡ none)
        × (env.bring_up register ≡ none)
        × (env.bring_up take_dropped ≡ none)
        × (env.bring_up dropped_of_map ≡ none))
unfolding start open_source
start_iff env =
    let port = metrics_port-port_of env in
    let verdict = verify_kernel_layout env.read_to_string in
    let failure = first_failure env.bring_up stages in
    let (f, g) = bound_iff _ (checked verdict failure) (env.bind (metrics_port env)) in
    let (checks, checked_of) = checked-none_iff verdict failure in
    let (stages_of, none_of) = first_failure-none_iff env.bring_up stages in
    (
      λ h.
          let (b, s) = f h in
          let (v, n) = checks s in
          let (s1, (s2, (s3, (s4, (s5, (s6, (s7, (s8, (s9, (s10, end)))))))))) = stages_of n in
          (ap env.bind (sym port) ∙ b, v, s1, s2, s3, s4, s5, s6, s7, s8, s9, s10),
      λ (b, v, s1, s2, s3, s4, s5, s6, s7, s8, s9, s10). g (
        ap env.bind port ∙ b,
        checked_of (v, none_of (s1, (s2, (s3, (s4, (s5, (s6, (s7, (s8, (s9, (s10, tt))))))))))),
      ),
    )

-- The completions that pass the `select!` by.
abbrev pub PassesBy : Bool → Completion → Type 0
PassesBy watching_pods c = (c ≡ pod_cache) × (watching_pods ≡ false)

-- A signal that asks the program to stop: SIGTERM, or a SIGINT that it listened for.
abbrev pub Asks : Signal → Type 0
Asks s = (s ≡ sigterm) ⊎ (s ≡ ctrl_c none)

shutdown_signal-none_iff : (s : Signal) → (shutdown_signal s ≡ none) ↔ Asks s
shutdown_signal-none_iff (not_registered e) = (λ h. absurd (cc), λ h. absurd (ground arith))
shutdown_signal-none_iff (ctrl_c none) = (λ h. inr refl, λ h. refl)
shutdown_signal-none_iff (ctrl_c (some e)) = (λ h. absurd (cc), λ h. absurd (ground arith))
shutdown_signal-none_iff sigterm = (λ h. inl refl, λ h. refl)

abbrev SignalsFirst : Bool → List Completion → Type 0
SignalsFirst watching_pods completions =
    (s : Signal) × (before : List Completion) × (after : List Completion) × (shutdown_signal s
      ≡ none)
    × (completions ≡ before ++ (shutdown s ∷ after))
    × All (PassesBy watching_pods) before

supervise_signal :
    (w : Bool) (s : Signal) (before after : List Completion)
    → shutdown_signal s ≡ none
    → All (PassesBy w) before
    → supervise w (before ++ (shutdown s ∷ after)) ≡ some stopped
unfolding supervise
supervise_signal w s [] after h tt = rw h refl
supervise_signal w s (b ∷ before) after h ((e, f), rest) =
    rw (e, f) (rw f at (supervise_signal w s before after h rest))

supervise_shutdown :
    (w : Bool) (s : Signal) (cs : List Completion)
    → supervise w (shutdown s ∷ cs) ≡ some stopped
    → shutdown_signal s ≡ none
unfolding supervise
supervise_shutdown w s cs h = elim (Option-cases (shutdown_signal s)) [
  | inl e ↦ e
  | inr (e, f) ↦ absurd (ground arith)
]

supervise-SignalsFirst :
    (w : Bool) (cs : List Completion) → supervise w cs ≡ some stopped → SignalsFirst w cs
unfolding supervise
supervise-SignalsFirst w [] h = absurd (cc)
supervise-SignalsFirst w (shutdown s ∷ cs) h = (s, [], cs, supervise_shutdown w s cs h, refl, tt)
supervise-SignalsFirst w (event_processor ∷ cs) h = absurd (ground arith)
supervise-SignalsFirst w (metrics_server ∷ cs) h = absurd (ground arith)
supervise-SignalsFirst w (series_sweeper ∷ cs) h = absurd (ground arith)
supervise-SignalsFirst true (pod_cache ∷ cs) h = absurd (ground arith)
supervise-SignalsFirst false (pod_cache ∷ cs) h =
    let (s, before, after, asked, e, passed) = supervise-SignalsFirst false cs h in
    (s, pod_cache ∷ before, after, asked, ap (λ xs. pod_cache ∷ xs) e, ((refl, refl), passed))

-- The program ends without an error exactly if it has started and the first completion, but for those
-- of a pod cache that it does not have, is a SIGTERM or a SIGINT that it listened for.
pub main_stopped_iff :
    (build : Build) (env : Env) (completions : List Completion)
    → (main build env completions ≡ some stopped) ↔ (
        (r : Running) × (s : Signal) × (before : List Completion) × (after : List Completion)
        × (start build env ≡ started r)
        × Asks s
        × (completions ≡ before ++ (shutdown s ∷ after))
        × All (PassesBy (is_some r.node)) before)
unfolding main
main_stopped_iff build env completions = go (start build env)
  where
    go :
        (t : Started Running)
        → (run_started t completions ≡ some stopped) ↔ (
            (r : Running) × (s : Signal) × (before : List Completion) × (after : List Completion)
            × (t ≡ started r)
            × Asks s
            × (completions ≡ before ++ (shutdown s ∷ after))
            × All (PassesBy (is_some r.node)) before)
    go (not_started e) =
        (λ h. absurd (ground arith), λ (r, s, before, after, e, asked, cut, rest). absurd (cc))
    go (started r) = (
      λ h.
          let (s, before, after, asked, e, passed) =
            supervise-SignalsFirst (is_some r.node) completions h in
          (r, s, before, after, refl, (shutdown_signal-none_iff s).0 asked, e, passed),
      λ (q, s, before, after, same, asked, e, passed).
          ap (λ t. run_started t completions) same
          ∙ ap (supervise (is_some q.node)) e
          ∙ supervise_signal (is_some q.node) s before after ((shutdown_signal-none_iff s).1 asked)
              passed,
    )
