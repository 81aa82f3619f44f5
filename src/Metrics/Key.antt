-- ===== src/Metrics/Key.antt =====
-- oom-watcher/src/metrics.rs, `SeriesKey`: the label set of one killed container.
use ebpf_oom_watcher.Prelude.{
  ◌≡◌, ◌↔◌, Bool, true, ◌&&◌, List, [], ◌∷◌, Option, none, some, arith, Text, codes, Eq, ◌==◌,
  list_eq, list_beq, list_beq_iff, nat_eq,
}
use ebpf_oom_watcher.Common.{EnrichedOomEvent}

pub record SeriesKey : Type 0 where
  pub node : Text
  pub namespace : Text
  pub pod : Text
  pub container : Text
  pub container_id : Text
  pub image_id : Text

-- The derived `PartialEq`.
unfoldable pub key_beq : SeriesKey → SeriesKey → Bool
key_beq a b =
    a.node == b.node
    && a.namespace == b.namespace
    && a.pod == b.pod
    && a.container == b.container
    && a.container_id == b.container_id
    && a.image_id == b.image_id

pub key_beq_iff : (a b : SeriesKey) → (key_beq a b ≡ true) ↔ (a ≡ b)
unfolding key_beq
key_beq_iff a b = ground (
  arith,
  list_beq_iff a.node b.node,
  list_beq_iff a.namespace b.namespace,
  list_beq_iff a.pod b.pod,
  list_beq_iff a.container b.container,
  list_beq_iff a.container_id b.container_id,
  list_beq_iff a.image_id b.image_id,
)

instance abbrev pub key_eq : Eq SeriesKey
key_eq = record { eq = key_beq; eq_iff = key_beq_iff }

-- `SeriesKey::labels`.
unfoldable pub labels : SeriesKey → List Text
labels k = k.node ∷ k.namespace ∷ k.pod ∷ k.container ∷ k.container_id ∷ k.image_id ∷ []

-- `SeriesKey::memory_labels`.
unfoldable pub memory_labels : SeriesKey → Text → List Text
memory_labels k memory_type = k.node ∷ k.namespace ∷ k.pod ∷ k.container ∷ memory_type ∷ []

-- `SeriesKey::shares_memory_series_with`.
unfoldable pub shares_memory_series_with : SeriesKey → SeriesKey → Bool
shares_memory_series_with a b =
    a.node == b.node && a.namespace == b.namespace && a.pod == b.pod && a.container == b.container

abbrev pub or_unknown : Option Text → Text
or_unknown none = codes "unknown"
or_unknown (some t) = t

-- The labels that `record_oom_event` takes from an event.
unfoldable pub key_of : EnrichedOomEvent → SeriesKey
key_of e = record {
  node = or_unknown e.node_name;
  namespace = or_unknown e.namespace;
  pod = or_unknown e.pod_name;
  container = or_unknown e.container_name;
  container_id = or_unknown e.container_id;
  image_id = or_unknown e.image_id;
}

-- Two keys have one label list exactly when they are one key.
pub labels_beq : (a b : SeriesKey) → (labels a == labels b) ≡ (a == b)
unfolding labels key_beq list_beq
labels_beq a b = ground arith

-- Two memory series are one exactly when the keys share it and the kind is the same.
pub memory_labels_beq :
    (a b : SeriesKey) (s t : Text)
    → (memory_labels a s == memory_labels b t) ≡ (shares_memory_series_with a b && s == t)
unfolding memory_labels shares_memory_series_with
memory_labels_beq a b s t = ground (
  arith,
  list_beq_iff (memory_labels a s) (memory_labels b t),
  list_beq_iff a.node b.node,
  list_beq_iff a.namespace b.namespace,
  list_beq_iff a.pod b.pod,
  list_beq_iff a.container b.container,
  list_beq_iff s t,
)
