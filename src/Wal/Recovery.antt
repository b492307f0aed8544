-- ===== src/Wal/Recovery.antt =====
-- Recovery from the write-ahead log after a crash.
use lsm_tree_storage_engine.Prelude.{
  ℕ, ◌==◌, ◌∷◌, inl, [], length, inr, ◌++◌, ap, Bool-cases, ◌+◌, ◌∙◌, ok, List, arith, ◌≡◌,
  if◌then◌else◌, none, take-append_eq, true, All, Bool, sym, some, Option, Result, take_all,
  append-nil, append_assoc, ==_iff, false, refl,
}
use lsm_tree_storage_engine.Crc.{Zlib}
use lsm_tree_storage_engine.Wal.{replay_into, replay_record, cut, append, Replayed}
use lsm_tree_storage_engine.LogScan.Walk.{walk, scan_records-log, IsTorn}
use lsm_tree_storage_engine.LogScan.Torn.{Write, CanWrite, bytes_of, log_bytes, record_read}
use lsm_tree_storage_engine.Memtable.{Memtable, remove, put}
use lsm_tree_storage_engine.Record.{encode, Record}

-- The write, applied to the memtable as the store applies it after the append.
abbrev pub apply : Write → Memtable → Memtable
apply w m = if w.tombstone then remove m w.key else put m w.key w.value

abbrev pub apply_all : List Write → Memtable → Memtable
apply_all [] m = m
apply_all (w ∷ ws) m = apply_all ws (apply w m)

-- The log that the appends build.
abbrev pub append_all : Zlib → List Write → List ℕ → List ℕ
append_all z [] file = file
append_all z (w ∷ ws) file = append_all z ws (append z w.timestamp file w.key w.value w.tombstone)

apply-visit :
    (z : Zlib) (w : Write) (offset : ℕ) (m : Memtable) (n : ℕ)
    → (replay_record offset (record_read z w) (bytes_of z w) (m, n)).0 ≡ (apply w m, n + 1)
unfolding replay_record
apply-visit z w offset m n = ground arith

walk-apply_all :
    (z : Zlib) (ws : List Write) (offset : ℕ) (m : Memtable) (n : ℕ)
    → walk z replay_record offset ws (m, n) ≡ (apply_all ws m, n + length ws)
walk-apply_all z [] offset m n = ap (λ (k : ℕ). (m, k)) (omega arith)
walk-apply_all z (w ∷ ws) offset m n =
    ap (λ (s : Memtable × ℕ). walk z replay_record (offset + length (bytes_of z w)) ws s)
      (apply-visit z w offset m n)
    ∙ walk-apply_all z ws (offset + length (bytes_of z w)) (apply w m) (n + 1)
    ∙ ap (λ (k : ℕ). (apply_all ws (apply w m), k)) (omega arith)

-- Nothing is cut off a log with no torn end.
pub append-nothing : (log torn : List ℕ) → length log ≡ length (log ++ torn) → log ++ torn ≡ log
append-nothing log torn h =
    sym (take_all (length log) (log ++ torn) (omega arith))
    ∙ take-append_eq (length log) log torn refl

cut-log :
    (log torn : List ℕ) (m : Memtable) (n : ℕ)
    → cut (log ++ torn) ((m, n), ok (length log)) ≡ record { table = m; file = log; result = ok n }
unfolding cut
cut-log log torn m n = elim (Bool-cases (length log == length (log ++ torn))) [
  | inl whole ↦ rw whole (
      ap (λ (f : List ℕ). record { table = m; file = f; result = ok n })
        (append-nothing log torn ((==_iff (length log) (length (log ++ torn))).0 whole)))
  | inr part ↦ rw part (
      ap (λ (f : List ℕ). record { table = m; file = f; result = ok n })
        (take-append_eq (length log) log torn refl))
]

-- A tombstone's record is the same whatever value is given.
encode_tombstone :
    (z : Zlib) (key value : List ℕ) (now : ℕ) (tombstone : Bool)
    → encode z key (if tombstone then [] else value) now tombstone
      ≡ encode z key value now tombstone
unfolding encode
encode_tombstone z key value now true = refl
encode_tombstone z key value now false = refl

append_all-log_bytes :
    (z : Zlib) (ws : List Write) (file : List ℕ) → append_all z ws file ≡ file ++ log_bytes z ws
unfolding append
append_all-log_bytes z [] file = sym (append-nil file)
append_all-log_bytes z (w ∷ ws) file =
    append_all-log_bytes z ws (append z w.timestamp file w.key w.value w.tombstone)
    ∙ ap (λ (b : List ℕ). (file ++ b) ++ log_bytes z ws)
        (encode_tombstone z w.key w.value w.timestamp w.tombstone)
    ∙ append_assoc file (bytes_of z w) (log_bytes z ws)

visit-ok : (o : ℕ) (r : Record) (b : List ℕ) (s : Memtable × ℕ) → (replay_record o r b s).1 ≡ ok tt
unfolding replay_record
visit-ok o r b (m, n) = refl

-- From a log of whole records with the
-- front of one more behind it, `replay_into` rebuilds the memtable that the whole records' writes
-- made, in their order, cuts the file back to those records, and counts them.
pub replay_into-append_all :
    (z : Zlib) (ws : List Write) (torn : List ℕ) (into : Memtable)
    → All CanWrite ws
    → IsTorn z torn
    → replay_into z (append_all z ws [] ++ torn) into
      ≡ some
          (record { table = apply_all ws into; file = append_all z ws []; result = ok (length ws) })
unfolding replay_into
replay_into-append_all z ws torn into c t =
    let log = log_bytes z ws in
    let finish : Option ((Memtable × ℕ) × Result ℕ) → List ℕ → Option Replayed =
      λ r content. elim r [ none ↦ none | some r ↦ some (cut content r) ] in
    ap (λ (f : List ℕ). replay_into z (f ++ torn) into) (append_all-log_bytes z ws [])
    ∙ ap (λ r. finish r (log ++ torn))
        (scan_records-log z replay_record (visit-ok) ws torn (into, 0) c t)
    ∙ ap (λ (s : Memtable × ℕ). some (cut (log ++ torn) (s, ok (length log))))
        (walk-apply_all z ws 0 into 0 ∙ ap (λ (k : ℕ). (apply_all ws into, k)) (omega arith))
    ∙ ap some (cut-log log torn (apply_all ws into) (length ws))
    ∙ ap
        (λ (f : List ℕ).
          some (record { table = apply_all ws into; file = f; result = ok (length ws) }))
        (sym (append_all-log_bytes z ws []))
