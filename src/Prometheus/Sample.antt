-- ===== src/Prometheus/Sample.antt =====
-- A family as a function of the label values, which meets the interface.
use ebpf_oom_watcher.Prelude.{
  ℕ, refl, List, Option, none, some, Text, if◌then◌else◌, ◌==◌, list_eq, nat_eq,
}
use ebpf_oom_watcher.Prelude.Float.{f64_add}
use ebpf_oom_watcher.Prometheus.{MetricVec, or_zero}

abbrev pub sample_vec : MetricVec
sample_vec = record {
  Family = List Text → Option ℕ;
  create = λ name names l. none;
  value = λ m l. m l;
  touch = λ k m l. if k == l then some (or_zero (m k)) else m l;
  inc_by = λ k v m l. if k == l then some (f64_add (or_zero (m k)) v) else m l;
  set = λ k v m l. if k == l then some v else m l;
  remove = λ k m l. if k == l then none else m l;
  value-create = λ name names l. refl;
  value-touch = λ k j m. refl;
  value-inc_by = λ k j v m. refl;
  value-set = λ k j v m. refl;
  value-remove = λ k j m. refl;
}
