-- ===== src/Http/Router/Tests.antt =====
-- A scrape whose encoder fails, and a probe of a loop that is alive: the theorem on http.rs applied to them.
use ebpf_oom_watcher.Prelude.{
  ℕ, ◌≡◌, ◌↔◌, ◌⊎◌, ◌<◌, ◌≤◌, List, [], none, some, true, false, Text, codes, list_eq, nat_eq, ap,
}
use ebpf_oom_watcher.Prelude.HashMap.{get}
use ebpf_oom_watcher.Health.{Health}
use ebpf_oom_watcher.Http.Router.{Axum, router, router-serve}
use ebpf_oom_watcher.Kubernetes.Pods.{unwrap_or}

abbrev not_found : ℕ × Text
not_found = (404, [])

served :
    (routes : List (Text × (ℕ × Text))) (path : Text) (answer : ℕ × Text)
    → get path routes ≡ some answer
    → unwrap_or (get path routes) not_found ≡ answer
served routes path answer h = ap (λ o. unwrap_or o not_found) h

abbrev by_path : Axum
by_path = record {
  serve = λ routes path. unwrap_or (get path routes) not_found;
  serve-get = served;
}

abbrev alive : Health
alive = record { started = true; last_beat_seconds = 1000 }

router-serve_example :
    (by_path.serve
        (router (λ kind body. some (200, body)) (λ c. none) (codes "oom") alive 1030)
        (codes "/metrics")
      ≡ (200, []))
    × (((by_path.serve
            (router (λ kind body. some (200, body)) (λ c. none) (codes "oom") alive 1030)
            (codes "/healthz")).0
          ≡ 503)
        ↔ ((true ≡ false) ⊎ (1090 < 1030)))
    × (((by_path.serve
            (router (λ kind body. some (200, body)) (λ c. none) (codes "oom") alive 1030)
            (codes "/healthz")).0
          ≡ 200)
        ↔ ((true ≡ true) × (1030 ≤ 1090)))
router-serve_example =
    router-serve by_path (λ kind body. some (200, body)) (λ c. none) (codes "oom") alive 1030
