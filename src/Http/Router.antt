-- ===== src/Http/Router.antt =====
-- oom-watcher/src/http.rs: the router and the scrape, with axum, the http crate and the text encoder of
-- the prometheus crate as parameters. An answer is its status and its body.
mod Tests
use ebpf_oom_watcher.Prelude.{
  ℕ, ◌+◌, ◌≤◌, ◌<◌, ◌≡◌, refl, ap, sym, ◌∙◌, ◌↔◌, ◌⊎◌, List, [], ◌∷◌, Option, none, some, true,
  false, Text, codes, list_eq, nat_eq,
}
use ebpf_oom_watcher.Prelude.HashMap.{get}
use ebpf_oom_watcher.Health.{Health}
use ebpf_oom_watcher.Http.{health_handler, health_handler_iff}
use ebpf_oom_watcher.Kubernetes.Pods.{unwrap_or}

abbrev content_type : Text
content_type = codes "text/plain; version=0.0.4; charset=utf-8"

-- `MetricsCollector::get_metrics`, over the encoder on what the registry gathers.
unfoldable pub get_metrics : {C : Type 0} → (C → Option Text) → C → Text
get_metrics encode collector = unwrap_or (encode collector) []

-- What `Response::builder()` makes of a content type and a body.
abbrev or_500 : Option (ℕ × Text) → ℕ × Text
or_500 none = (500, [])
or_500 (some answer) = answer

unfoldable pub metrics_handler :
    {C : Type 0} → (Text → Text → Option (ℕ × Text)) → (C → Option Text) → C → ℕ × Text
unfolding get_metrics
metrics_handler build encode collector = or_500 (build content_type (get_metrics encode collector))

-- The routes, each with its answer to a GET at a time.
unfoldable pub router :
    {C : Type 0}
    → (Text → Text → Option (ℕ × Text))
    → (C → Option Text)
    → C
    → Health
    → ℕ
    → List (Text × (ℕ × Text))
unfolding metrics_handler
router build encode collector health now =
    (codes "/metrics", metrics_handler build encode collector)
    ∷ (codes "/healthz", health_handler health now)
    ∷ []

-- A GET of a path, as axum serves the routes.
pub record Axum : Type 0 where
  pub serve : List (Text × (ℕ × Text)) → Text → ℕ × Text
  pub serve-get :
      (routes : List (Text × (ℕ × Text))) (path : Text) (answer : ℕ × Text)
      → get path routes ≡ some answer
      → serve routes path ≡ answer

-- What the encoder makes of the collector; nothing if it fails.
abbrev pub encoded : Option Text → Text
encoded none = []
encoded (some text) = text

-- What the builder makes; an internal error if it makes nothing.
abbrev pub answered : Option (ℕ × Text) → ℕ × Text
answered none = (500, [])
answered (some answer) = answer

unwrap_or-encoded : (o : Option Text) → unwrap_or o [] ≡ encoded o
unwrap_or-encoded none = refl
unwrap_or-encoded (some text) = refl

or_500-answered : (o : Option (ℕ × Text)) → or_500 o ≡ answered o
or_500-answered none = refl
or_500-answered (some answer) = refl

-- A scrape is answered with what the builder makes of the content type of Prometheus' text format and
-- the encoder's text, or of nothing if the encoder fails, and with 500 if the builder makes nothing of
-- them; whatever the heartbeat. `/healthz` is answered with 503 exactly before the start of the loop
-- and when its last beat is more than 90 seconds old, with 200 exactly otherwise.
pub router-serve :
    {C : Type 0} (axum : Axum) (build : Text → Text → Option (ℕ × Text)) (encode : C → Option Text)
    (collector : C) (health : Health) (now : ℕ)
    → (axum.serve (router build encode collector health now) (codes "/metrics")
        ≡ answered
            (build (codes "text/plain; version=0.0.4; charset=utf-8") (encoded (encode collector))))
      × (((axum.serve (router build encode collector health now) (codes "/healthz")).0 ≡ 503)
          ↔ ((health.started ≡ false) ⊎ (health.last_beat_seconds + 90 < now)))
      × (((axum.serve (router build encode collector health now) (codes "/healthz")).0 ≡ 200)
          ↔ ((health.started ≡ true) × (now ≤ health.last_beat_seconds + 90)))
unfolding router get metrics_handler get_metrics ebpf_oom_watcher.Prelude.list_beq
router-serve axum build encode collector health now =
    let routes = router build encode collector health now in
    let body = get_metrics encode collector in
    let scraped =
      axum.serve-get routes (codes "/metrics") (metrics_handler build encode collector) refl in
    let probed = axum.serve-get routes (codes "/healthz") (health_handler health now) refl in
    let status : (axum.serve routes (codes "/healthz")).0 ≡ (health_handler health now).0 =
      ap (λ (a : ℕ × Text). a.0) probed in
    let ((stale, stale_of), (live, live_of)) = health_handler_iff health now in
    (
      scraped
          ∙ or_500-answered (build content_type body)
          ∙ ap (λ t. answered (build content_type t)) (unwrap_or-encoded (encode collector)),
      (λ h. stale (sym status ∙ h), λ h. status ∙ stale_of h),
      (λ h. live (sym status ∙ h), λ h. status ∙ live_of h),
    )
