-- ===== src/Prometheus/Listed.antt =====
-- A family as a list of its series, which meets the interface and can be looked through.
use ebpf_oom_watcher.Prelude.{
  ℕ, ◌≡◌, refl, Bool, not, List, [], ◌∷◌, none, Text, if◌then◌else◌, ◌==◌, list_eq, list_beq_iff,
  nat_eq, arith,
}
use ebpf_oom_watcher.Prelude.HashMap.{HashMap, get, insert, retain, get-insert}
use ebpf_oom_watcher.Prelude.Float.{f64_add}
use ebpf_oom_watcher.Prometheus.{MetricVec, or_zero}

abbrev other_than : List Text → List Text → ℕ → Bool
other_than k j v = not (k == j)

pub get-retain-other_than :
    (k j : List Text) (m : HashMap (List Text) ℕ)
    → get j (retain (other_than k) m) ≡ (if k == j then none else get j m)
unfolding get retain
get-retain-other_than k j [] = ground arith
get-retain-other_than k j ((i, v) ∷ m) =
    ground
      (arith, list_beq_iff k i, list_beq_iff i j, list_beq_iff k j, get-retain-other_than k j m)

pub value-nil : (l : List Text) → get {V = ℕ} l [] ≡ none
unfolding get
value-nil l = refl

abbrev pub listed_vec : MetricVec
listed_vec = record {
  Family = HashMap (List Text) ℕ;
  create = λ name names. [];
  value = λ m l. get l m;
  touch = λ k m. insert k (or_zero (get k m)) m;
  inc_by = λ k v m. insert k (f64_add (or_zero (get k m)) v) m;
  set = λ k v m. insert k v m;
  remove = λ k m. retain (other_than k) m;
  value-create = λ name names l. value-nil l;
  value-touch = λ k j m. get-insert k j (or_zero (get k m)) m;
  value-inc_by = λ k j v m. get-insert k j (f64_add (or_zero (get k m)) v) m;
  value-set = λ k j v m. get-insert k j v m;
  value-remove = λ k j m. get-retain-other_than k j m;
}
