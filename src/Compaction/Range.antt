-- ===== src/Compaction/Range.antt =====
-- The range of a compaction: what it covers, and the tables that it touches.
use lsm_tree_storage_engine.Prelude.{
  ◌⊎◌, ◌∷◌, false, [], Bool-cases, arith, true, inl, List, ◌≡◌, inr, All,
}
use lsm_tree_storage_engine.Compaction.{widen_begin, widen_end, key_min, key_max}
use lsm_tree_storage_engine.Manifest.{TableMeta}
use lsm_tree_storage_engine.Key.{Key, key_lt, key_lt_trans}

-- A bound below the range and the tables is below what they widen to.
pub below-widen_begin :
    (k begin : Key) (us : List TableMeta)
    → key_lt k begin ≡ true
    → All (λ (u : TableMeta). key_lt k u.min_key ≡ true) us
    → key_lt k (widen_begin begin us) ≡ true
unfolding widen_begin
below-widen_begin k begin [] h all = h
below-widen_begin k begin (u ∷ us) h all =
    below-widen_begin k (key_min begin u.min_key) us (ground (arith, h, all.0)) all.1

pub widen_end-below :
    (k end : Key) (us : List TableMeta)
    → key_lt end k ≡ true
    → All (λ (u : TableMeta). key_lt u.max_key k ≡ true) us
    → key_lt (widen_end end us) k ≡ true
unfolding widen_end
widen_end-below k end [] h all = h
widen_end-below k end (u ∷ us) h all =
    widen_end-below k (key_max end u.max_key) us (ground (arith, h, all.0)) all.1

-- A widened range still has what the range had.
pub widen_begin-le :
    (k begin : Key) (us : List TableMeta)
    → key_lt k begin ≡ false
    → key_lt k (widen_begin begin us) ≡ false
unfolding widen_begin
widen_begin-le k begin [] h = h
widen_begin-le k begin (u ∷ us) h =
    widen_begin-le k (key_min begin u.min_key) us (kept (Bool-cases (key_lt u.min_key begin)))
  where
    kept :
        (key_lt u.min_key begin ≡ true) ⊎ (key_lt u.min_key begin ≡ false)
        → key_lt k (key_min begin u.min_key) ≡ false
    kept (inl lower) = elim (Bool-cases (key_lt k u.min_key)) [
      | inl below ↦ cc (key_lt_trans k u.min_key begin below lower)
      | inr above ↦ ground (arith, lower, above)
    ]
    kept (inr same) = ground (arith, same, h)

pub widen_end-le :
    (k end : Key) (us : List TableMeta) → key_lt end k ≡ false → key_lt (widen_end end us) k ≡ false
unfolding widen_end
widen_end-le k end [] h = h
widen_end-le k end (u ∷ us) h =
    widen_end-le k (key_max end u.max_key) us (kept (Bool-cases (key_lt end u.max_key)))
  where
    kept :
        (key_lt end u.max_key ≡ true) ⊎ (key_lt end u.max_key ≡ false)
        → key_lt (key_max end u.max_key) k ≡ false
    kept (inl higher) = elim (Bool-cases (key_lt u.max_key k)) [
      | inl below ↦ cc (key_lt_trans end u.max_key k higher below)
      | inr above ↦ ground (arith, higher, above)
    ]
    kept (inr same) = ground (arith, same, h)
