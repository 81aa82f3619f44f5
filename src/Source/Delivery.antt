-- ===== src/Source/Delivery.antt =====
-- oom-watcher/src/source.rs: no event is lost, doubled or reordered on its way through the source.
use ebpf_oom_watcher.Prelude.{
  ℕ, zero, suc, ◌+◌, leb, ltb, take, drop, length, if◌then◌else◌, arith, ◌≡◌, refl, ap, sym, ◌∙◌,
  List, [], ◌∷◌, ◌++◌, append_assoc, append-nil, Option, none, some, filter_map, push_some,
}
use ebpf_oom_watcher.Common.{OomKillEvent}
use ebpf_oom_watcher.Source.{
  RingBufSource, Edge, readable, failed, Poll, yields, parked, decode, drain_ring, next, poll, le,
  read_unaligned,
}

-- What happens around the source: the kernel puts a record into the ring, or the loop polls.
pub data Op : Type 0 where
  arrive : List ℕ → Op
  poll_with : List Edge → Op

abbrev handed_out : Poll → List OomKillEvent
handed_out (yields (some e)) = e ∷ []
handed_out (yields none) = []
handed_out parked = []

-- The source after the operations, and the events that it has handed out.
unfoldable pub run_ops : List Op → RingBufSource → List OomKillEvent × RingBufSource
run_ops [] s = ([], s)
run_ops (arrive record_bytes ∷ ops) s =
    run_ops ops (record s { ring = s.ring ++ (record_bytes ∷ []) })
run_ops (poll_with edges ∷ ops) s =
    let (p, t) = poll edges s in let (es, u) = run_ops ops t in (handed_out p ++ es, u)

abbrev pub arrivals : List Op → List (List ℕ)
arrivals [] = []
arrivals (arrive record_bytes ∷ ops) = record_bytes ∷ arrivals ops
arrivals (poll_with edges ∷ ops) = arrivals ops

abbrev slice : ℕ → ℕ → List ℕ → List ℕ
slice at n bytes = take n (drop at bytes)

-- The event in a record of 80 bytes or more, field by field at its offset in the `#[repr(C)]` struct;
-- none in a shorter one.
unfoldable pub event_in : List ℕ → Option OomKillEvent
event_in bytes =
    if leb 80 (length bytes)
    then some (record {
      pid = le (slice 0 4 bytes);
      comm = slice 4 16 bytes;
      total_vm = le (slice 24 8 bytes);
      anon_rss = le (slice 32 8 bytes);
      file_rss = le (slice 40 8 bytes);
      shmem_rss = le (slice 48 8 bytes);
      uid = le (slice 56 4 bytes);
      pgtables = le (slice 64 8 bytes);
      oom_score_adj = le (slice 72 2 bytes);
    })
    else none

drop_nil : (n : ℕ) → drop {A = ℕ} n [] ≡ []
drop_nil zero = refl
drop_nil (suc n) = refl

drop-drop : (n m : ℕ) (xs : List ℕ) → drop m (drop n xs) ≡ drop (n + m) xs
drop-drop zero m xs = let same : m ≡ 0 + m = omega arith in ap (λ k. drop k xs) same
drop-drop (suc n) m [] = drop_nil m ∙ sym (drop_nil (suc n + m))
drop-drop (suc n) m (x ∷ xs) =
    let same : suc (n + m) ≡ suc n + m = omega arith in
    drop-drop n m xs ∙ ap (λ k. drop k (x ∷ xs)) same

-- What the source decodes is what stands at the offsets.
decode-event_in : (bytes : List ℕ) → decode bytes ≡ event_in bytes
unfolding decode event_in read_unaligned ebpf_oom_watcher.Source.fields_of
decode-event_in bytes =
    rw
      (
        drop-drop 4 16 bytes,
        drop-drop 20 4 bytes,
        drop-drop 24 8 bytes,
        drop-drop 32 8 bytes,
        drop-drop 40 8 bytes,
        drop-drop 48 8 bytes,
        drop-drop 56 4 bytes,
        drop-drop 60 4 bytes,
        drop-drop 64 8 bytes,
      )
      (by_size (length bytes) _)
  where
    by_size :
        (n : ℕ) (e : OomKillEvent)
        → (if ltb n 80 then none else some e) ≡ (if leb 80 n then some e else none)
    by_size n e = ground arith

-- The events that the source holds, in the order in which they will leave.
abbrev decoded : RingBufSource → List OomKillEvent
decoded s = s.pending ++ filter_map decode s.ring

abbrev pub held : RingBufSource → List OomKillEvent
held s = s.pending ++ filter_map event_in s.ring

pub filter_map-same : (xs : List (List ℕ)) → filter_map decode xs ≡ filter_map event_in xs
unfolding filter_map
filter_map-same [] = refl
filter_map-same (x ∷ xs) = rw (decode-event_in x, filter_map-same xs) refl

filter_map-append :
    (xs ys : List (List ℕ))
    → filter_map decode (xs ++ ys) ≡ filter_map decode xs ++ filter_map decode ys
unfolding filter_map
filter_map-append [] ys = refl
filter_map-append (x ∷ xs) ys = rw (filter_map-append xs ys) (pushed (decode x))
  where
    pushed :
        (o : Option OomKillEvent)
        → push_some o (filter_map decode xs ++ filter_map decode ys)
          ≡ push_some o (filter_map decode xs) ++ filter_map decode ys
    pushed none = refl
    pushed (some e) = refl

next-decoded :
    (edges : List Edge) (pending : List OomKillEvent) (s : RingBufSource)
    → s.pending ≡ pending
    → handed_out (next edges pending s).0 ++ decoded (next edges pending s).1 ≡ decoded s
unfolding next filter_map
next-decoded edges (e ∷ es) s p = rw p refl
next-decoded [] [] s p = refl
next-decoded (failed ∷ edges) [] s p = refl
next-decoded (readable ∷ edges) [] s p =
    let t = drain_ring s in next-decoded edges t.pending t refl ∙ append-nil (decoded s)

run_ops-decoded :
    (ops : List Op) (s : RingBufSource)
    → (run_ops ops s).0 ++ decoded (run_ops ops s).1 ≡ decoded s ++ filter_map decode (arrivals ops)
unfolding run_ops poll
run_ops-decoded [] s = sym (append-nil (decoded s))
run_ops-decoded (arrive record_bytes ∷ ops) s =
    let t : RingBufSource = record s { ring = s.ring ++ (record_bytes ∷ []) } in
    let more = filter_map decode (arrivals ops) in
    run_ops-decoded ops t
    ∙ ap (λ es. (s.pending ++ es) ++ more) (filter_map-append s.ring (record_bytes ∷ []))
    ∙ ap (λ es. es ++ more)
        (sym (
          append_assoc s.pending (filter_map decode s.ring)
            (filter_map decode (record_bytes ∷ []))))
    ∙ append_assoc (decoded s) (filter_map decode (record_bytes ∷ [])) more
    ∙ ap (λ es. decoded s ++ es) (sym (filter_map-append (record_bytes ∷ []) (arrivals ops)))
run_ops-decoded (poll_with edges ∷ ops) s =
    let (p, t) = poll edges s in
    let more = filter_map decode (arrivals ops) in
    append_assoc (handed_out p) (run_ops ops t).0 (decoded (run_ops ops t).1)
    ∙ ap (λ es. handed_out p ++ es) (run_ops-decoded ops t)
    ∙ sym (append_assoc (handed_out p) (decoded t) more)
    ∙ ap (λ es. es ++ more) (next-decoded edges s.pending s refl)

-- However polls and arrivals interleave, and however often a beat cancels a parked poll, what has
-- been handed out and what is still held are together exactly the events in the records of 80 bytes
-- or more, each field read at its offset, in the order in which they arrived; a shorter record gives
-- none.
pub run_ops-held :
    (ops : List Op) (s : RingBufSource)
    → (run_ops ops s).0 ++ held (run_ops ops s).1 ≡ held s ++ filter_map event_in (arrivals ops)
run_ops-held ops s =
    let t = (run_ops ops s).1 in
    rw (← filter_map-same t.ring, ← filter_map-same s.ring, ← filter_map-same (arrivals ops))
      (run_ops-decoded ops s)
