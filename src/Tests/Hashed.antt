-- ===== src/Tests/Hashed.antt =====
-- The log-structured hash table at concrete inputs.
use lsm_tree_storage_engine.Prelude.{
  ℕ, List, Option, some, ◌≡◌, arith, ok, refl, err, ◌==◌, [], none, not_found, if◌then◌else◌, inl,
  ◌∷◌, ◌++◌, inr, false,
}
use lsm_tree_storage_engine.Bitcask.Replay.{recover, HintFiles}
use lsm_tree_storage_engine.Key.{Key, key_eq}
use lsm_tree_storage_engine.Bitcask.{Bitcask, put, remove, get}
use lsm_tree_storage_engine.Bitcask.Reads.{Holds}
use lsm_tree_storage_engine.Bitcask.Writes.{put-reads, remove-reads, updated}
use lsm_tree_storage_engine.Tests.Fixtures.{zlib, key_ab, text_xyz}
use lsm_tree_storage_engine.Bitcask.Recovered.{map_of, recover-Holds}
use lsm_tree_storage_engine.LogScan.Torn.{log_bytes}
use lsm_tree_storage_engine.Tests.Storage.{
  remove_ab, put_ab, cut_short, remove_ab-CanWrite, put_ab-CanWrite, cut_short-IsTorn,
}
use lsm_tree_storage_engine.Tests.Crashes.{nil-IsTorn}

abbrev fresh : Bitcask
fresh = record {
  files = λ id. if id == 1 then some [] else none;
  active_id = 1;
  index = λ key. none;
  dead_bytes = λ id. 0;
}

abbrev nothing : Key → Option (List ℕ)
nothing key = none

fresh-Holds : Holds zlib fresh nothing
fresh-Holds = record { active = []; opened = refl; points = λ key. tt }

put-reads_example :
    (s' : Bitcask) × (put zlib 100 7 fresh key_ab text_xyz ≡ (s', ok tt))
    × Holds zlib s' (updated nothing key_ab (some text_xyz))
    × ((j : Key) → get zlib s' j ≡ (if key_eq key_ab j then ok text_xyz else get zlib fresh j))
put-reads_example =
    put-reads zlib 100 7 fresh nothing fresh-Holds (omega arith) key_ab (omega arith) text_xyz
      (omega arith) (omega arith)

-- The store with one key.
remove-reads_example :
    (s' : Bitcask) × (remove zlib 100 8 fresh key_ab ≡ (s', ok tt))
    × Holds zlib s' (updated nothing key_ab none)
    × ((j : Key) → get zlib s' j ≡ (if key_eq key_ab j then err not_found else get zlib fresh j))
remove-reads_example =
    remove-reads zlib 100 8 fresh nothing fresh-Holds (omega arith) key_ab (omega arith)
      (omega arith)

-- A file that was sealed, and one that was torn.
abbrev two_files : List (ℕ × List ℕ)
two_files =
    (1, log_bytes zlib (remove_ab ∷ []) ++ []) ∷ (2, log_bytes zlib (put_ab ∷ []) ++ cut_short) ∷ []

abbrev no_hints : HintFiles
no_hints = record { ignored = false; hint_file = λ id. none }

recover-Holds_example :
    (s : Bitcask) × (recover zlib no_hints two_files ≡ some (ok s))
    × Holds zlib s (map_of (remove_ab ∷ put_ab ∷ []) nothing)
recover-Holds_example =
    recover-Holds zlib no_hints (inr (λ id. refl)) two_files (remove_ab ∷ put_ab ∷ []) (omega arith)
      (
        remove_ab ∷ [],
        put_ab ∷ [],
        omega arith,
        record {
          torn = [];
          bytes = refl;
          can = (remove_ab-CanWrite, tt);
          is_torn = nil-IsTorn;
          sealed = inr refl;
        },
        (
          put_ab ∷ [],
          [],
          omega arith,
          record {
            torn = cut_short;
            bytes = refl;
            can = (put_ab-CanWrite, tt);
            is_torn = cut_short-IsTorn;
            sealed = inl refl;
          },
          refl,
          refl,
        ),
        refl,
      )
