-- ===== src/Lsm/Schedule.antt =====
-- `flush`, with the rounds of the background thread that it waits for.
use mathlib.Core.Path.{subst}
use lsm_tree_storage_engine.Prelude.{
  ℕ, List, Bool, Option, Status, ◌<◌, ◌∙◌, true, some, none, ◌≡◌, ok, refl, sym, false, arith, ap,
  if◌then◌else◌, inr, Bool-cases, err, inl, not, ◌&&◌,
}
use lsm_tree_storage_engine.Crc.{Zlib}
use lsm_tree_storage_engine.Key.{Key}
use lsm_tree_storage_engine.Memtable.{Memtable}
use lsm_tree_storage_engine.Merge.Pick.{Table}
use lsm_tree_storage_engine.Lsm.{
  StoreOptions, Store, no_fail_point, get, rotate_memtable, is_none, rotated,
}
use lsm_tree_storage_engine.Lsm.Flushing.{
  background_flush, flush, holds_nothing, flush_rest, behind, behind_rotation, waited_for,
}
use lsm_tree_storage_engine.Lsm.View.{Sound}
use lsm_tree_storage_engine.Lsm.Built.{CanFlush}
use lsm_tree_storage_engine.Lsm.Flushed.{get-same_view}
use lsm_tree_storage_engine.Lsm.Writes.{rotated-view, is_none-none}
use lsm_tree_storage_engine.Lsm.Calm.{IsCalm}
use lsm_tree_storage_engine.Lsm.Rounds.{
  IsRunning, FrozenFits, Kept, first_wait, background_flush-Kept, first_wait-Kept, rotated-Kept,
}

module _ (z : Zlib) (lround_ln2 : ℕ → ℕ) (options : StoreOptions) (sized : 0 < options.block_size)
    (alive : options.fail_at ≡ no_fail_point) where
  -- What `flush` leaves.
  pub record FlushDone (s : Store) (rows : List (List Table)) : Type 0 where
    pub s' : Store
    pub ran : flush z lround_ln2 options (ok tt) s ≡ some (s', ok tt)
    pub rows' : List (List Table)
    pub sound : Sound z s' rows'
    pub drained : (holds_nothing s'.mem ≡ true) × (s'.imm ≡ none)
    pub reads : (key : Key) → get z s' key ≡ get z s key

  abbrev background : Store → Option (Store × Status)
  background s = waited_for (background_flush z lround_ln2 options s)

  -- `flush` behind its first wait, by what it reads.
  abbrev rest_by : Store → Status → Bool → Option (Store × Status)
  rest_by s status free = elim status [
    | err code ↦ some (s, err code)
    | ok _ ↦ if free then behind_rotation background (rotate_memtable (ok tt) s) else background s
  ]

  abbrev flush_by : Store → Status → Bool → Bool → Option (Store × Status)
  flush_by s status empty thawed = elim status [
    | err code ↦ some (s, err code)
    | ok _ ↦
        if empty && thawed
        then some (s, ok tt)
        else if empty
        then background s
        else behind (flush_rest z lround_ln2 options (ok tt))
            (first_wait z lround_ln2 options sized alive s thawed)
  ]

  flush-flush_by :
      (s : Store)
      → flush z lround_ln2 options (ok tt) s
        ≡ flush_by s s.background_status (holds_nothing s.mem) (is_none s.imm)
  unfolding flush
  flush-flush_by s = refl

  flush_rest-rotated :
      (s : Store)
      → IsRunning s
      → s.imm ≡ none
      → flush_rest z lround_ln2 options (ok tt) s ≡ background (rotated s)
  unfolding flush_rest rotate_memtable
  flush_rest-rotated s run thawed =
      let empty : is_none s.imm ≡ true = ap (λ (imm : Option Memtable). is_none imm) thawed in
      let free : (not s.stopping && is_none s.imm) ≡ true = ground (arith, empty, run.going) in
      λ i. rest_by s (run.healthy i) (free i)

  waited_for-Kept :
      {n : ℕ} {s : Store} {rows : List (List Table)} {waited : Option Store}
      → (kept : Kept z options n s rows waited) → waited_for waited ≡ some (kept.s', ok tt)
  waited_for-Kept kept =
      ap waited_for kept.ran ∙ ap (λ (st : Status). some (kept.s', st)) kept.running.healthy

  flush-drained :
      (s : Store) (rows : List (List Table))
      → Sound z s rows
      → IsRunning s
      → IsCalm options 2 s
      → FrozenFits s.imm
      → CanFlush s.mem
      → holds_nothing s.mem ≡ false
      → FlushDone s rows
  flush-drained s rows sound run calm frozen fits some_entry =
      let kept = first_wait-Kept z lround_ln2 options sized alive 1 s rows sound run calm frozen in
      let w = kept.s' in
      let done =
        rotated-Kept z lround_ln2 options sized alive 0 w kept.rows' kept.sound kept.running
          kept.calm (subst CanFlush (sym kept.same_mem) fits) in
      record {
        s' = done.s';
        ran =
            flush-flush_by s
            ∙ (λ i. flush_by s (run.healthy i) (some_entry i) (is_none s.imm))
            ∙ ap (behind (flush_rest z lround_ln2 options (ok tt))) kept.ran
            ∙ flush_rest-rotated w kept.running kept.thawed
            ∙ waited_for-Kept done;
        rows' = done.rows';
        sound = done.sound;
        drained = (ap holds_nothing done.same_mem, done.thawed);
        reads = λ key.
            get-same_view z s done.s' rows done.rows' key sound done.sound
              (done.reads key ∙ rotated-view w kept.rows' key kept.thawed ∙ kept.reads key);
      }

  flush-frozen_only :
      (s : Store) (rows : List (List Table))
      → Sound z s rows
      → IsRunning s
      → IsCalm options 2 s
      → FrozenFits s.imm
      → holds_nothing s.mem ≡ true
      → FlushDone s rows
  flush-frozen_only s rows sound run calm frozen empty = elim (Bool-cases (is_none s.imm)) [
    | inl thawed ↦ record {
      s' = s;
      ran = flush-flush_by s ∙ (λ i. flush_by s (run.healthy i) (empty i) (thawed i));
      rows' = rows;
      sound = sound;
      drained = (empty, is_none-none s.imm thawed);
      reads = λ key. refl;
    }
    | inr some_frozen ↦
        let kept =
          background_flush-Kept z lround_ln2 options sized alive 1 s rows s.imm sound run calm refl
            frozen in
        record {
          s' = kept.s';
          ran =
              flush-flush_by s
              ∙ (λ i. flush_by s (run.healthy i) (empty i) (some_frozen i))
              ∙ waited_for-Kept kept;
          rows' = kept.rows';
          sound = kept.sound;
          drained = (ap holds_nothing kept.same_mem ∙ empty, kept.thawed);
          reads = λ key.
              get-same_view z s kept.s' rows kept.rows' key sound kept.sound (kept.reads key);
        }
  ]

  flush-done :
      (s : Store) (rows : List (List Table))
      → Sound z s rows
      → IsRunning s
      → IsCalm options 2 s
      → FrozenFits s.imm
      → CanFlush s.mem
      → FlushDone s rows
  flush-done s rows sound run calm frozen fits = elim (Bool-cases (holds_nothing s.mem)) [
    | inl empty ↦ flush-frozen_only s rows sound run calm frozen empty
    | inr some_entry ↦ flush-drained s rows sound run calm frozen fits some_entry
  ]

  -- A flush of a store whose background thread takes work, whose memtables can be written out, where no
  -- compaction is due or becomes due through two more tables, with a block size that is not zero, no
  -- fail point set and no error from the change of logs, returns without an error, with both memtables
  -- empty and every read as before.
  pub flush-reads :
      (s : Store) (rows : List (List Table))
      → Sound z s rows
      → IsRunning s
      → IsCalm options 2 s
      → FrozenFits s.imm
      → CanFlush s.mem
      → (s' : Store) × (rows' : List (List Table)) × (flush z lround_ln2 options (ok tt) s
          ≡ some (s', ok tt))
        × Sound z s' rows'
        × (holds_nothing s'.mem ≡ true)
        × (s'.imm ≡ none)
        × ((key : Key) → get z s' key ≡ get z s key)
  flush-reads s rows sound run calm frozen fits =
      let done = flush-done s rows sound run calm frozen fits in
      (done.s', done.rows', done.ran, done.sound, done.drained.0, done.drained.1, done.reads)
