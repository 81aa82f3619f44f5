-- ===== src/Source/Layout.antt =====
-- oom-watcher/src/source.rs: the event that the probe wrote is the event that is read.
use ebpf_oom_watcher.Prelude.{
  ℕ, ◌+◌, ◌*◌, ◌%◌, ◌/◌, ◌<◌, ◌≤◌, ◌≡◌, length-append, refl, ap, sym, ◌∙◌, List, [], ◌∷◌, ◌++◌,
  some, take, drop, length, map, arith, suc, zero,
}
use ebpf_oom_watcher.Common.{OomKillEvent}
use ebpf_oom_watcher.Source.{le, fields_of, event_widths, event_of, read_unaligned, decode}

-- The bytes of an integer, the lowest first.
unfoldable pub to_le : ℕ → ℕ → List ℕ
to_le zero n = []
to_le (suc w) n = n % 256 ∷ to_le w (n / 256)

-- The numbers that a width holds are those below this.
abbrev pub limit : ℕ → ℕ
limit zero = 1
limit (suc w) = 256 * limit w

le-to_le : (w n : ℕ) → n < limit w → le (to_le w n) ≡ n
unfolding le to_le
le-to_le zero n h = omega arith
le-to_le (suc w) n h = let ih = le-to_le w (n / 256) (omega arith) in omega (arith, ih)

length-to_le : (w n : ℕ) → length (to_le w n) ≡ w
unfolding to_le
length-to_le zero n = refl
length-to_le (suc w) n = omega (arith, length-to_le w (n / 256))

abbrev pub concat : List (List ℕ) → List ℕ → List ℕ
concat [] extra = extra
concat (f ∷ fs) extra = f ++ concat fs extra

take-append : (f rest : List ℕ) → take (length f) (f ++ rest) ≡ f
take-append [] rest = refl
take-append (x ∷ f) rest = ap (λ t. x ∷ t) (take-append f rest)

drop-append : (f rest : List ℕ) → drop (length f) (f ++ rest) ≡ rest
drop-append [] rest = refl
drop-append (x ∷ f) rest = drop-append f rest

fields_of-concat :
    (fs : List (List ℕ)) (extra : List ℕ) → fields_of (map length fs) (concat fs extra) ≡ fs
unfolding fields_of
fields_of-concat [] extra = refl
fields_of-concat (f ∷ fs) extra =
    rw (take-append f (concat fs extra), drop-append f (concat fs extra), fields_of-concat fs extra)
      refl

-- The bytes of the struct, with what the compiler leaves in the padding.
unfoldable pub fields : List ℕ → List ℕ → List ℕ → OomKillEvent → List (List ℕ)
fields pad_comm pad_uid pad_end e =
    to_le 4 e.pid
    ∷ e.comm
    ∷ pad_comm
    ∷ to_le 8 e.total_vm
    ∷ to_le 8 e.anon_rss
    ∷ to_le 8 e.file_rss
    ∷ to_le 8 e.shmem_rss
    ∷ to_le 4 e.uid
    ∷ pad_uid
    ∷ to_le 8 e.pgtables
    ∷ to_le 2 e.oom_score_adj
    ∷ pad_end
    ∷ []

-- The values that the fields of an event can have.
pub record IsEvent (e : OomKillEvent) : Type 0 where
  pub pid : e.pid < 4294967296
  pub comm : length e.comm ≡ 16
  pub total_vm : e.total_vm < 18446744073709551616
  pub anon_rss : e.anon_rss < 18446744073709551616
  pub file_rss : e.file_rss < 18446744073709551616
  pub shmem_rss : e.shmem_rss < 18446744073709551616
  pub uid : e.uid < 4294967296
  pub pgtables : e.pgtables < 18446744073709551616
  pub oom_score_adj : e.oom_score_adj < 65536

fields-widths :
    (e : OomKillEvent) (pad_comm pad_uid pad_end : List ℕ)
    → length e.comm ≡ 16
    → length pad_comm ≡ 4
    → length pad_uid ≡ 4
    → length pad_end ≡ 6
    → map length (fields pad_comm pad_uid pad_end e) ≡ event_widths
unfolding fields to_le
fields-widths e pad_comm pad_uid pad_end v c u d = rw (v, c, u, d) refl

event_of-fields :
    (e : OomKillEvent) (pad_comm pad_uid pad_end : List ℕ)
    → IsEvent e
    → event_of (fields pad_comm pad_uid pad_end e) ≡ e
unfolding fields
event_of-fields e pad_comm pad_uid pad_end v =
    rw
      (
        le-to_le 4 e.pid v.pid,
        le-to_le 8 e.total_vm v.total_vm,
        le-to_le 8 e.anon_rss v.anon_rss,
        le-to_le 8 e.file_rss v.file_rss,
        le-to_le 8 e.shmem_rss v.shmem_rss,
        le-to_le 4 e.uid v.uid,
        le-to_le 8 e.pgtables v.pgtables,
        le-to_le 2 e.oom_score_adj v.oom_score_adj,
      )
      refl

abbrev total : List ℕ → ℕ
total [] = 0
total (n ∷ ns) = n + total ns

length-concat :
    (fs : List (List ℕ)) (extra : List ℕ)
    → length (concat fs extra) ≡ total (map length fs) + length extra
length-concat [] extra = omega arith
length-concat (f ∷ fs) extra =
    omega (arith, length-append f (concat fs extra), length-concat fs extra)

pub length-fields :
    (e : OomKillEvent) (pad_comm pad_uid pad_end extra : List ℕ)
    → length e.comm ≡ 16
    → length pad_comm ≡ 4
    → length pad_uid ≡ 4
    → length pad_end ≡ 6
    → length (concat (fields pad_comm pad_uid pad_end e) extra) ≡ 80 + length extra
length-fields e pad_comm pad_uid pad_end extra v c u d =
    length-concat (fields pad_comm pad_uid pad_end e) extra
    ∙ ap (λ n. total n + length extra) (fields-widths e pad_comm pad_uid pad_end v c u d)

decode-eq-some :
    (bytes : List ℕ) (e : OomKillEvent)
    → 80 ≤ length bytes
    → read_unaligned bytes ≡ e
    → decode bytes ≡ some e
unfolding decode
decode-eq-some bytes e long same = ground arith

-- What the probe writes for an event, whatever is in the padding and behind the record, is long
-- enough to be decoded, and is decoded to that event.
pub decode-fields :
    (e : OomKillEvent) (pad_comm pad_uid pad_end extra : List ℕ)
    → IsEvent e
    → length pad_comm ≡ 4
    → length pad_uid ≡ 4
    → length pad_end ≡ 6
    → decode (concat (fields pad_comm pad_uid pad_end e) extra) ≡ some e
unfolding read_unaligned
decode-fields e pad_comm pad_uid pad_end extra v c u d =
    let fs = fields pad_comm pad_uid pad_end e in
    let widths = fields-widths e pad_comm pad_uid pad_end v.comm c u d in
    let cut : fields_of event_widths (concat fs extra) ≡ fs =
      ap (λ ws. fields_of ws (concat fs extra)) (sym widths) ∙ fields_of-concat fs extra in
    decode-eq-some (concat fs extra) e
      (omega (arith, length-fields e pad_comm pad_uid pad_end extra v.comm c u d))
      (ap event_of cut ∙ event_of-fields e pad_comm pad_uid pad_end v)
