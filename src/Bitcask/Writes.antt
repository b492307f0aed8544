-- ===== src/Bitcask/Writes.antt =====
-- src/bitcask.cpp: the map that a store holds, before and after `put` and `remove`.
use mathlib.Core.Path.{subst}
use native.Mathlib.Nat.{mod-eq_of_lt}
use lsm_tree_storage_engine.Prelude.{
  ℕ, List, arith, ◌++◌, length-append, false, none, Bool-cases, if◌then◌else◌, Option, [], ◌<◌, ◌^◌,
  ◌≡◌, length, err, io_error, sym, ◌%◌, ◌∙◌, refl, map, inr, ap, some, ◌==◌, leb, ◌+◌, Bool, Status,
  ok, inl, append-nil, not_found, true, ltb-false,
}
use lsm_tree_storage_engine.Crc.{Zlib}
use lsm_tree_storage_engine.Key.{Key, key_eq, key_eq_iff}
use lsm_tree_storage_engine.Encoding.{subspan, IsU64}
use lsm_tree_storage_engine.Encoding.Cursor.{At, At-append, subspan-At}
use lsm_tree_storage_engine.Record.Layout.{Fits, encode-eq, length-record_bytes, flags_of}
use lsm_tree_storage_engine.Record.RoundTrip.{decode-encode}
use lsm_tree_storage_engine.Bitcask.{
  put, remove, get, ValuePointer, index_put, index_erase, Bitcask, file_bytes, active_file,
  set_file, rotate, rotate_if_needed, append_active, put_record, remove_record, is_too_large,
  then_write,
}
use lsm_tree_storage_engine.Bitcask.Reads.{
  Points, PointsAt, Holds, PointsAt-Grows, set_file-here, set_file-Grows, fresh-Grows, value_of,
  get-Holds,
}
use lsm_tree_storage_engine.Record

-- The map after a write: a value, or none.
abbrev pub updated : (Key → Option (List ℕ)) → Key → Option (List ℕ) → Key → Option (List ℕ)
updated map key value = λ k. if key_eq key k then value else map k

module _ (z : Zlib) (s : Bitcask) (map : Key → Option (List ℕ)) (h : Holds z s map) where
  active-opened : s.files s.active_id ≡ some (active_file s)
  active-opened = h.opened ∙ ap some (sym (ap file_bytes h.opened))

  rotate-Holds :
      s.active_id < 4294967295 → (s' : Bitcask) × (rotate s ≡ (s', ok tt)) × Holds z s' map
  unfolding rotate
  rotate-Holds room =
      let more_ids : (s.active_id == 4294967295) ≡ false = ground (arith, room) in
      (
        record s { files = set_file s.files (s.active_id + 1) []; active_id = s.active_id + 1 },
        ap
            (λ (c : Bool).
              if◌then◌else◌ {A = Bitcask × Status} c (s, err io_error)
                (
                  record s {
                    files = set_file s.files (s.active_id + 1) [];
                    active_id = s.active_id + 1;
                  },
                  ok tt,
                ))
            more_ids,
        record {
          active = [];
          opened = set_file-here s.files (s.active_id + 1) [];
          points = λ key.
              PointsAt-Grows z s.files (set_file s.files (s.active_id + 1) []) s.active_id
                (s.active_id + 1) (fresh-Grows s.files s.active_id []) (omega arith) key
                (s.index key) (map key) (h.points key);
        },
      )

  rotate_if_needed-Holds :
      (max_file_size incoming : ℕ)
      → s.active_id < 4294967295
      → (s' : Bitcask) × (rotate_if_needed max_file_size s incoming ≡ (s', ok tt)) × Holds z s' map
  unfolding rotate_if_needed
  rotate_if_needed-Holds max_file_size incoming room =
      elim (Bool-cases (length (active_file s) == 0)) [
        | inl empty ↦ (s, rw empty refl, h)
        | inr some_bytes ↦
            elim (Bool-cases (leb (length (active_file s) + incoming) max_file_size)) [
              | inl fits ↦ (s, rw (some_bytes, fits) refl, h)
              | inr full ↦
                  let (s', ran, held) = rotate-Holds room in (s', rw (some_bytes, full) ran, held)
            ]
      ]

  -- The files after an append.
  abbrev appended : List ℕ → ℕ → Option (List ℕ)
  appended bytes = set_file s.files s.active_id (active_file s ++ bytes)

  kept :
      (bytes : List ℕ) (key : Key)
      → PointsAt z (appended bytes) s.active_id key (s.index key) (map key)
  kept bytes key =
      PointsAt-Grows z s.files (appended bytes) s.active_id s.active_id
        (set_file-Grows s.files s.active_id s.active_id (active_file s) bytes active-opened)
        (omega arith) key (s.index key) (map key) (h.points key)

  remove_record-Holds :
      (key : Key) (bytes : List ℕ) → Holds z (remove_record s key bytes) (updated map key none)
  unfolding remove_record append_active index_erase
  remove_record-Holds key bytes = record {
    active = active_file s ++ bytes;
    opened = set_file-here s.files s.active_id (active_file s ++ bytes);
    points = λ k. elim (Bool-cases (key_eq key k)) [
      | inl same ↦ rw same tt
      | inr other ↦ rw other (kept bytes k)
    ];
  }

  module _ (key : Key) (value : List ℕ) (now : ℕ) (has_key : 0 < length key) (time : IsU64 now)
      (fits : Fits key value) where
    abbrev bytes : List ℕ
    bytes = Record.encode z key value now false

    abbrev pointer : ValuePointer
    pointer = record {
      offset = length (active_file s);
      timestamp = now;
      file_id = s.active_id;
      size = length bytes % 2 ^ 32;
    }

    length-bytes : length bytes ≡ 21 + length key + length value
    length-bytes =
        ap (λ (t : List ℕ). length t) (encode-eq z key value now false fits)
        ∙ length-record_bytes z key value now (flags_of false)

    size-bytes : length bytes % 2 ^ 32 ≡ length bytes
    size-bytes = mod-eq_of_lt (omega (arith, fits, length-bytes))

    bytes_at : At (active_file s ++ bytes) (length (active_file s)) (bytes ++ [])
    bytes_at =
        subst (λ (t : List ℕ). At (active_file s ++ bytes) (length (active_file s)) t)
          (sym (append-nil bytes)) (At-append (active_file s) bytes (length (active_file s)) refl)

    pointer-Points : Points z (appended bytes) s.active_id key pointer value
    pointer-Points = record {
      file = active_file s ++ bytes;
      there = set_file-here s.files s.active_id (active_file s ++ bytes);
      time = now;
      in_range = omega arith;
      inside = omega (arith, size-bytes, length-append (active_file s) bytes);
      some_bytes = omega (arith, size-bytes, length-bytes);
      content =
          ap (λ (n : ℕ). subspan (active_file s ++ bytes) (length (active_file s)) n) size-bytes
          ∙ subspan-At bytes [] bytes_at;
      reads_back =
          ap (λ (t : List ℕ). Record.decode z t) (sym (append-nil bytes))
          ∙ decode-encode z key value now false [] has_key time fits;
    }

    put_record-Holds : Holds z (put_record s key now bytes) (updated map key (some value))
    unfolding put_record append_active index_put
    put_record-Holds = record {
      active = active_file s ++ bytes;
      opened = set_file-here s.files s.active_id (active_file s ++ bytes);
      points = λ k. elim (Bool-cases (key_eq key k)) [
        | inl same ↦ rw same (
            subst (λ (k : Key). Points z (appended bytes) s.active_id k pointer value)
              ((key_eq_iff key k).0 same) pointer-Points)
        | inr other ↦ rw other (kept bytes k)
      ];
    }

module _ (z : Zlib) (max_file_size now : ℕ) (s : Bitcask) (map : Key → Option (List ℕ))
    (h : Holds z s map) (room : s.active_id < 4294967295) (key : Key)
    (has_key : 0 < length key) where
  put-Holds :
      (value : List ℕ)
      → IsU64 now
      → Fits key value
      → (s' : Bitcask) × (put z max_file_size now s key value ≡ (s', ok tt))
        × Holds z s' (updated map key (some value))
  unfolding put
  put-Holds value time fits =
      let record_bytes = Record.encode z key value now false in
      let some_key : (length key == 0) ≡ false = ground (arith, has_key) in
      let small : is_too_large key value ≡ false =
        ltb-false _ (length key + length value) (omega (arith, fits)) in
      let (s1, ran, held) =
        rotate_if_needed-Holds z s map h max_file_size (length record_bytes) room in
      (
        put_record s1 key now record_bytes,
        rw (some_key, small) (ap (then_write (λ s. put_record s key now record_bytes)) ran),
        put_record-Holds z s1 map held key value now has_key time fits,
      )

  remove-Holds :
      Fits key []
      → (s' : Bitcask) × (remove z max_file_size now s key ≡ (s', ok tt))
        × Holds z s' (updated map key none)
  unfolding remove
  remove-Holds fits =
      let record_bytes = Record.encode z key [] now true in
      let some_key : (length key == 0) ≡ false = ground (arith, has_key) in
      let small : is_too_large key [] ≡ false =
        ltb-false _ (length key + 0) (omega (arith, fits)) in
      let (s1, ran, held) =
        rotate_if_needed-Holds z s map h max_file_size (length record_bytes) room in
      (
        remove_record s1 key record_bytes,
        rw (some_key, small) (ap (then_write (λ s. remove_record s key record_bytes)) ran),
        remove_record-Holds z s1 map held key record_bytes,
      )

  read_updated :
      (s' : Bitcask) (value : Option (List ℕ)) (j : Key)
      → Holds z s' (updated map key value)
      → get z s' j ≡ (if key_eq key j then value_of value else get z s j)
  read_updated s' value j held = elim (Bool-cases (key_eq key j)) [
    | inl same ↦ rw same (
        get-Holds z s' (updated map key value) j held
        ∙ ap (λ (c : Bool). value_of (if c then value else map j)) same)
    | inr other ↦ rw other (
        get-Holds z s' (updated map key value) j held
        ∙ ap (λ (c : Bool). value_of (if c then value else map j)) other
        ∙ sym (get-Holds z s map j h))
  ]

  -- A put into a store that holds a map, of a key that is not empty, a clock's reading of 64 bits and a
  -- record within its size limit, with a file id left, is acknowledged, whether it opens a new file or
  -- not; the store holds the map with the value, and a read of the key gives the value and any other
  -- read what it gave before.
  pub put-reads :
      (value : List ℕ)
      → IsU64 now
      → Fits key value
      → (s' : Bitcask) × (put z max_file_size now s key value ≡ (s', ok tt))
        × Holds z s' (updated map key (some value))
        × ((j : Key) → get z s' j ≡ (if key_eq key j then ok value else get z s j))
  put-reads value time fits =
      let (s', ran, held) = put-Holds value time fits in
      (s', ran, held, λ j. read_updated s' (some value) j held)

  -- A removal from such a store is acknowledged; the store holds the map without the key, and a read
  -- of the key finds nothing and any other read gives what it gave before.
  pub remove-reads :
      Fits key []
      → (s' : Bitcask) × (remove z max_file_size now s key ≡ (s', ok tt))
        × Holds z s' (updated map key none)
        × ((j : Key) → get z s' j ≡ (if key_eq key j then err not_found else get z s j))
  remove-reads fits =
      let (s', ran, held) = remove-Holds fits in (s', ran, held, λ j. read_updated s' none j held)
