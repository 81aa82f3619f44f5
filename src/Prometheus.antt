-- ===== src/Prometheus.antt =====
-- The `prometheus` crate's `CounterVec` and `GaugeVec`, which the program only calls: what it
-- relies on, as an interface. A family maps a list of label values to a float.
pub mod Sample
pub mod Listed
use ebpf_oom_watcher.Prelude.{
  ℕ, ◌≡◌, List, Option, none, some, Text, if◌then◌else◌, ◌==◌, list_eq, nat_eq,
}
use ebpf_oom_watcher.Prelude.Float.{f64_add}

-- A series that is asked for and absent is made, at 0.
abbrev pub or_zero : Option ℕ → ℕ
or_zero none = 0
or_zero (some v) = v

pub record MetricVec : Type 1 where
  pub Family : Type 0
  -- `CounterVec::new(Opts::new(name, help), labels)`
  pub create : Text → List Text → Family
  -- What a scrape shows: the value of a series that is there.
  pub value : Family → List Text → Option ℕ
  -- `with_label_values(labels)` alone; then `.inc_by(v)`, `.set(v)`; `remove_label_values(labels)`
  pub touch : List Text → Family → Family
  pub inc_by : List Text → ℕ → Family → Family
  pub set : List Text → ℕ → Family → Family
  pub remove : List Text → Family → Family
  pub value-create : (name : Text) (names l : List Text) → value (create name names) l ≡ none
  pub value-touch :
      (k j : List Text) (m : Family)
      → value (touch k m) j ≡ (if k == j then some (or_zero (value m k)) else value m j)
  pub value-inc_by :
      (k j : List Text) (v : ℕ) (m : Family)
      → value (inc_by k v m) j
        ≡ (if k == j then some (f64_add (or_zero (value m k)) v) else value m j)
  pub value-set :
      (k j : List Text) (v : ℕ) (m : Family)
      → value (set k v m) j ≡ (if k == j then some v else value m j)
  pub value-remove :
      (k j : List Text) (m : Family) → value (remove k m) j ≡ (if k == j then none else value m j)
