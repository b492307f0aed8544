-- ===== src/Lsm/Rounds.antt =====
-- src/lsm.cpp, `background_loop`: what the rounds of the background thread keep, up to its wait.
use mathlib.Core.Path.{subst}
use lsm_tree_storage_engine.Prelude.{
  ℕ, List, Bool, Option, Status, ◌<◌, ◌∙◌, some, none, ◌≡◌, ok, refl, sym, false, arith, ap,
  if◌then◌else◌, inr, Bool-cases, inl, ◌+◌,
}
use lsm_tree_storage_engine.Crc.{Zlib}
use lsm_tree_storage_engine.Key.{Key}
use lsm_tree_storage_engine.Memtable.{Memtable}
use lsm_tree_storage_engine.Merge.Pick.{Table}
use lsm_tree_storage_engine.Lsm.{StoreOptions, Store, no_fail_point, is_err, is_none, rotated}
use lsm_tree_storage_engine.Lsm.Flushing.{
  background_flush, run_flush, settled, is_idle, background_rest,
}
use lsm_tree_storage_engine.Lsm.View.{Sound, view}
use lsm_tree_storage_engine.Lsm.Built.{CanFlush}
use lsm_tree_storage_engine.Lsm.Flushed.{run_flush-Flushed, push_rows}
use lsm_tree_storage_engine.Lsm.Writes.{rotated-Sound, is_none-none}
use lsm_tree_storage_engine.Lsm.Calm.{
  IsCalm, IsCalm-fewer, background_rest-IsCalm, push_front-IsCalm,
}

-- The background thread takes work.
pub record IsRunning (s : Store) : Type 0 where
  pub going : s.stopping ≡ false
  pub healthy : s.background_status ≡ ok tt
  pub unhalted : s.halted_by_fail_point ≡ false

-- The frozen memtable, if there is one, can be written out.
abbrev pub FrozenFits : Option Memtable → Type 0
FrozenFits none = Unit
FrozenFits (some table) = CanFlush table

-- A wait ends with the same entries, wherever they stand.
pub record Kept (z : Zlib) (options : StoreOptions) (n : ℕ) (s : Store) (rows : List (List Table))
    (waited : Option Store) : Type 0 where
  pub s' : Store
  pub ran : waited ≡ some s'
  pub rows' : List (List Table)
  pub sound : Sound z s' rows'
  pub running : IsRunning s'
  pub calm : IsCalm options n s'
  pub thawed : s'.imm ≡ none
  pub same_mem : s'.mem ≡ s.mem
  pub reads : (key : Key) → view s' rows' key ≡ view s rows key

-- The thread is not idle.
not_idle : (s : Store) → IsRunning s → is_idle s ≡ false
not_idle s run =
    let fine : is_err s.background_status ≡ false = ap (λ (st : Status). is_err st) run.healthy in
    ground (arith, run.going, run.unhalted, fine)

module _ (z : Zlib) (lround_ln2 : ℕ → ℕ) (options : StoreOptions) (sized : 0 < options.block_size)
    (alive : options.fail_at ≡ no_fail_point) where
  -- The rounds, by what is frozen.
  abbrev round_by : Store → Option Memtable → Option Store
  round_by s imm = elim imm [
    | none ↦ background_rest options s
    | some table ↦ background_rest options (settled (run_flush z lround_ln2 options s table))
  ]

  background_flush-round_by :
      (s : Store) (imm : Option Memtable)
      → IsRunning s
      → s.imm ≡ imm
      → background_flush z lround_ln2 options s ≡ round_by s imm
  unfolding background_flush
  background_flush-round_by s imm run e =
      ap (λ (c : Bool). if c then some s else round_by s s.imm) (not_idle s run) ∙ ap (round_by s) e

  -- Nothing is frozen, so nothing is waited for.
  stay-Kept :
      (n : ℕ) (s : Store) (rows : List (List Table)) (waited : Option Store)
      → Sound z s rows
      → IsRunning s
      → IsCalm options (n + 1) s
      → s.imm ≡ none
      → waited ≡ some s
      → Kept z options n s rows waited
  stay-Kept n s rows waited sound run calm e ran = record {
    s' = s;
    ran = ran;
    rows' = rows;
    sound = sound;
    running = run;
    calm = IsCalm-fewer options (n + 1) n s (omega arith) calm;
    thawed = e;
    same_mem = refl;
    reads = λ key. refl;
  }

  pub background_flush-Kept :
      (n : ℕ) (s : Store) (rows : List (List Table)) (imm : Option Memtable)
      → Sound z s rows
      → IsRunning s
      → IsCalm options (n + 1) s
      → s.imm ≡ imm
      → FrozenFits imm
      → Kept z options n s rows (background_flush z lround_ln2 options s)
  background_flush-Kept n s rows none sound run calm e fits =
      stay-Kept n s rows _ sound run calm e
        (background_flush-round_by s none run e ∙ background_rest-IsCalm options (n + 1) s calm)
  background_flush-Kept n s rows (some table) sound run calm e fits =
      let (s', ran, f) =
        run_flush-Flushed z lround_ln2 options sized alive s rows table sound e fits in
      let calm' = push_front-IsCalm options n s s' f.grown.0 calm f.grown.1 f.unasked in
      record {
        s' = s';
        ran =
            background_flush-round_by s (some table) run e
            ∙ ap (λ r. background_rest options (settled r)) ran
            ∙ background_rest-IsCalm options n s' calm';
        rows' = push_rows table.entries rows;
        sound = f.sound;
        running = record {
          going = f.going.1 ∙ run.going;
          healthy = f.going.0 ∙ run.healthy;
          unhalted = f.going.2 ∙ run.unhalted;
        };
        calm = calm';
        thawed = f.thawed;
        same_mem = f.same_mem;
        reads = f.reads;
      }

  -- The first wait of `flush`.
  abbrev pub first_wait : Store → Bool → Option Store
  first_wait s thawed = if thawed then some s else background_flush z lround_ln2 options s

  pub first_wait-Kept :
      (n : ℕ) (s : Store) (rows : List (List Table))
      → Sound z s rows
      → IsRunning s
      → IsCalm options (n + 1) s
      → FrozenFits s.imm
      → Kept z options n s rows (first_wait s (is_none s.imm))
  first_wait-Kept n s rows sound run calm fits = elim (Bool-cases (is_none s.imm)) [
    | inl thawed ↦
        stay-Kept n s rows _ sound run calm (is_none-none s.imm thawed) (ap (first_wait s) thawed)
    | inr some_frozen ↦
        subst (Kept z options n s rows) (ap (first_wait s) (sym some_frozen))
          (background_flush-Kept n s rows s.imm sound run calm refl fits)
  ]

  -- Freezing the memtable and flushing it.
  pub rotated-Kept :
      (n : ℕ) (s : Store) (rows : List (List Table))
      → Sound z s rows
      → IsRunning s
      → IsCalm options (n + 1) s
      → CanFlush s.mem
      → Kept z options n (rotated s) rows (background_flush z lround_ln2 options (rotated s))
  rotated-Kept n s rows sound run calm fits =
      background_flush-Kept n (rotated s) rows (some s.mem) (rotated-Sound z s rows sound)
        (record { going = run.going; healthy = run.healthy; unhalted = run.unhalted })
        (record { unasked = calm.unasked; below = calm.below; within = calm.within }) refl fits
