-- ===== src/Kubernetes/Cgroup/Extract.antt =====
-- oom-watcher/src/kubernetes.rs, `extract_container_id`: which ids it finds.
mod Groups
use ebpf_oom_watcher.Prelude.{
  ◌≡◌, refl, ap, sym, ◌∙◌, inl, inr, not, [], ◌∷◌, ◌++◌, append_assoc, Option, none, some, Text,
  find_map-eq-some, find_map-eq-none, Option-cases, arith,
}
use ebpf_oom_watcher.Kubernetes.Pods.{and_then}
use ebpf_oom_watcher.Kubernetes.Cgroup.{
  Regex, class, at_end, alternative, is_hex, runtime_pattern, kubepods_pattern, catch_all_pattern,
  container_id_patterns, extract_container_id,
}
use ebpf_oom_watcher.Kubernetes.Cgroup.Engine.{Match, Found, RegexEngine}
use ebpf_oom_watcher.Kubernetes.Cgroup.Extract.Groups.{
  HoldsId-append, Captures, catch_all-Captures, runtime-Captures, kubepods-Captures,
}
pub use ebpf_oom_watcher.Kubernetes.Cgroup.Extract.Groups.{Ends, StartsWithId, HoldsId}

boundary :
    (after : Text)
    → Ends after
    → (w : Text) × (rest : Text) × (after ≡ w ++ rest)
      × Match (alternative (class (λ c. not (is_hex c))) at_end) w rest none
boundary [] ends = ([], [], refl, inr (refl, refl, refl))
boundary (c ∷ cs) ends = (c ∷ [], cs, refl, inl (c, refl, ground arith, refl))

module _ (engine : RegexEngine) where
  open engine use {captures, captures-some, captures-none}

  captured : Text → Regex → Option Text
  captured s re = and_then (captures re s) (λ first. first)

  captured-Found :
      (s : Text) (re : Regex) (id : Text) → captured s re ≡ some id → Found re s (some id)
  unfolding captured
  captured-Found s re id h = elim (Option-cases (captures re s)) [
    | inl e ↦ absurd (ground arith)
    | inr (first, e) ↦ captures-some re s (some id) (ground arith)
  ]

  Found-HoldsId :
      (s : Text) (re : Regex) (id : Text) → Captures re → Found re s (some id) → HoldsId s id
  Found-HoldsId s re id held f =
      let (other, e, h) = held f.matched f.after (some id) f.holds in
      let same : id ≡ other = ground arith in
      rw (f.place, same) (HoldsId-append f.before (f.matched ++ f.after) other h)

  catch_all-HoldsId : (s id : Text) → HoldsId s id → Found catch_all_pattern s (some id)
  catch_all-HoldsId s id h =
      let (w, rest, cut, bound) = boundary h.starts.rest h.starts.ends in
      record {
        before = h.before;
        matched = h.delimiter ∷ (id ++ w);
        after = rest;
        place =
            h.text
            ∙ ap (λ t. h.before ++ (h.delimiter ∷ t))
                (h.starts.text ∙ ap (λ t. id ++ t) cut ∙ sym (append_assoc id w rest));
        holds = (
          h.delimiter ∷ [],
          id ++ w,
          none,
          some id,
          refl,
          (h.delimiter, refl, h.delimits, refl),
          (
            id,
            w,
            some id,
            none,
            refl,
            (none, (h.starts.long, h.starts.digits, refl), refl),
            bound,
            refl,
          ),
          refl,
        );
      }

  -- What a pattern that captures takes its group from.
  captures-eq-some :
      (s : Text) (re : Regex) (g : Option Text)
      → Captures re
      → captures re s ≡ some g
      → (id : Text) × (g ≡ some id) × (captured s re ≡ some id)
  unfolding captured
  captures-eq-some s re g held e =
      let f = captures-some re s g e in
      let (id, same, h) = held f.matched f.after g f.holds in (id, same, rw (e, same) refl)

  -- An id is only found where it stands in the cgroup file after a `-` or a `/`, with its 64 digits
  -- and no further digit behind them.
  pub extract_container_id-HoldsId :
      (s id : Text) → extract_container_id captures s ≡ some id → HoldsId s id
  unfolding extract_container_id captured container_id_patterns
  extract_container_id-HoldsId s id h =
      let (re, listed, e) = find_map-eq-some (captured s) container_id_patterns id h in
      elim listed [
        | inl p ↦
            Found-HoldsId s runtime_pattern id runtime-Captures
              (captured-Found s runtime_pattern id (rw p at e))
        | inr (inl p) ↦
            Found-HoldsId s kubepods_pattern id kubepods-Captures
              (captured-Found s kubepods_pattern id (rw p at e))
        | inr (inr (inl p)) ↦
            Found-HoldsId s catch_all_pattern id catch_all-Captures
              (captured-Found s catch_all_pattern id (rw p at e))
        | inr (inr (inr none_left)) ↦ elim none_left [ ]
      ]

  -- Nothing is found only if no id stands in the file after a `-` or a `/`: the catch-all pattern
  -- subsumes the others.
  pub extract_container_id_complete :
      (s id : Text) → extract_container_id captures s ≡ none → ¬ HoldsId s id
  unfolding extract_container_id captured container_id_patterns
  extract_container_id_complete s id h held =
      let nothing : captured s catch_all_pattern ≡ none =
        find_map-eq-none (captured s) container_id_patterns catch_all_pattern h
          (inr (inr (inl refl))) in
      elim (Option-cases (captures catch_all_pattern s)) [
        | inl e ↦ captures-none catch_all_pattern s (some id) e (catch_all-HoldsId s id held)
        | inr (g, e) ↦
            let (found, same, there) =
              captures-eq-some s catch_all_pattern g catch_all-Captures e in
            absurd (cc)
      ]
