-- ===== src/Bitcask/Reads.antt =====
-- src/bitcask.cpp: what the index points at, and the reads before and after a write.
use lsm_tree_storage_engine.Prelude.{
  ℕ, List, ◌+◌, err, not, false, ◌∙◌, ap, arith, Option, ok, Result, not_found, some, ◌≡◌, ◌≤◌,
  length, ◌<◌, none, zero, [], refl, reject-pass, ◌∷◌, suc, map, ◌++◌, bind-ok, inr, length-append,
  append-nil, Bool-cases, ==_iff, inl, sym, ◌==◌, ==_refl,
}
use lsm_tree_storage_engine.Crc.{Zlib}
use lsm_tree_storage_engine.Key.{Key, key_eq, key_eq_refl}
use lsm_tree_storage_engine.Encoding.{subspan}
use lsm_tree_storage_engine.SsTable.Table.{read_file}
use lsm_tree_storage_engine.Bitcask.{
  ValuePointer, Bitcask, read_value, read_from, read_pointer, get, set_file, file_bytes,
}
use lsm_tree_storage_engine.Record

-- A pointer names a record of a key and a value in the files up to an id.
pub record Points (z : Zlib) (files : ℕ → Option (List ℕ)) (last : ℕ) (key : Key) (p : ValuePointer)
    (value : List ℕ) : Type 0 where
  pub file : List ℕ
  pub there : files p.file_id ≡ some file
  pub time : ℕ
  pub in_range : p.file_id ≤ last
  pub inside : p.offset + p.size ≤ length file
  pub some_bytes : 0 < p.size
  pub content : subspan file p.offset p.size ≡ Record.encode z key value time false
  pub reads_back :
      Record.decode z (Record.encode z key value time false)
      ≡ ok (record {
        timestamp = time;
        is_tombstone = false;
        key = key;
        value = value;
        total_size = length (Record.encode z key value time false);
      })

abbrev pub PointsAt :
    Zlib → (ℕ → Option (List ℕ)) → ℕ → Key → Option ValuePointer → Option (List ℕ) → Type 0
PointsAt z files last key none none = Unit
PointsAt z files last key none (some value) = ⊥
PointsAt z files last key (some p) none = ⊥
PointsAt z files last key (some p) (some value) = Points z files last key p value

-- A store holds a map: the index has the map's keys and points at their records, and the active file is
-- open.
pub record Holds (z : Zlib) (s : Bitcask) (map : Key → Option (List ℕ)) : Type 0 where
  pub active : List ℕ
  pub opened : s.files s.active_id ≡ some active
  pub points : (key : Key) → PointsAt z s.files s.active_id key (s.index key) (map key)

abbrev pub value_of : Option (List ℕ) → Result (List ℕ)
value_of none = err not_found
value_of (some value) = ok value

module _ (z : Zlib) where
  read_file-inside :
      (file : List ℕ) (offset size : ℕ)
      → 0 < size
      → offset + size ≤ length file
      → read_file file offset size ≡ ok (subspan file offset size)
  read_file-inside file offset size pos h = ground (arith, pos, h)

  read_value-Points :
      (files : ℕ → Option (List ℕ)) (last : ℕ) (key : Key) (p : ValuePointer) (value : List ℕ)
      → (h : Points z files last key p value) → read_value z key h.file p ≡ ok value
  unfolding read_value
  read_value-Points files last key p value h =
      bind-ok _ _ (read_file-inside h.file p.offset p.size h.some_bytes h.inside ∙ ap ok h.content)
        (bind-ok _ _ h.reads_back
          (reject-pass (not (key_eq key key)) _ _ (ap not (key_eq_refl key)) refl))

  read_pointer-PointsAt :
      (files : ℕ → Option (List ℕ)) (last : ℕ) (key : Key) (o : Option ValuePointer)
      (v : Option (List ℕ))
      → PointsAt z files last key o v
      → read_pointer z files key o ≡ value_of v
  read_pointer-PointsAt files last key none none h = refl
  read_pointer-PointsAt files last key none (some value) h = absurd h
  read_pointer-PointsAt files last key (some p) none h = absurd h
  read_pointer-PointsAt files last key (some p) (some value) h =
      ap (λ f. read_from z key f p) h.there ∙ read_value-Points files last key p value h

  -- A read of a store that holds a map gives the map's value, or that there is none.
  pub get-Holds :
      (s : Bitcask) (map : Key → Option (List ℕ)) (key : Key)
      → Holds z s map
      → get z s key ≡ value_of (map key)
  unfolding get
  get-Holds s map key h =
      read_pointer-PointsAt s.files s.active_id key (s.index key) (map key) (h.points key)

-- A part of a file is still there when the file has grown.
subspan-append :
    (file more : List ℕ) (offset size : ℕ)
    → offset + size ≤ length file
    → subspan (file ++ more) offset size ≡ subspan file offset size
subspan-append file more zero zero h = refl
subspan-append [] more zero (suc size) h = absurd (omega arith)
subspan-append (x ∷ file) more zero (suc size) h =
    ap (λ t. x ∷ t) (subspan-append file more zero size (omega arith))
subspan-append [] more (suc offset) zero h = absurd (omega arith)
subspan-append [] more (suc offset) (suc size) h = absurd (omega arith)
subspan-append (x ∷ file) more (suc offset) size h =
    subspan-append file more offset size (omega arith)

-- Files that have grown, up to an id.
abbrev pub Grows : (ℕ → Option (List ℕ)) → (ℕ → Option (List ℕ)) → ℕ → Type 0
Grows files files' last =
    (id : ℕ) (file : List ℕ)
    → id ≤ last
    → files id ≡ some file
    → (more : List ℕ) × (files' id ≡ some (file ++ more))

module _ (z : Zlib) (files files' : ℕ → Option (List ℕ)) (last last' : ℕ)
    (grows : Grows files files' last) (later : last ≤ last') where
  Points-Grows :
      (key : Key) (p : ValuePointer) (value : List ℕ)
      → Points z files last key p value
      → Points z files' last' key p value
  Points-Grows key p value h =
      let (more, there) = grows p.file_id h.file h.in_range h.there in
      record {
        file = h.file ++ more;
        there = there;
        time = h.time;
        in_range = omega (arith, h.in_range, later);
        inside = omega (arith, h.inside, length-append h.file more);
        some_bytes = h.some_bytes;
        content = subspan-append h.file more p.offset p.size h.inside ∙ h.content;
        reads_back = h.reads_back;
      }

  pub PointsAt-Grows :
      (key : Key) (o : Option ValuePointer) (v : Option (List ℕ))
      → PointsAt z files last key o v
      → PointsAt z files' last' key o v
  PointsAt-Grows key none none h = tt
  PointsAt-Grows key none (some value) h = absurd h
  PointsAt-Grows key (some p) none h = absurd h
  PointsAt-Grows key (some p) (some value) h = Points-Grows key p value h

pub set_file-here :
    (files : ℕ → Option (List ℕ)) (id : ℕ) (bytes : List ℕ)
    → set_file files id bytes id ≡ some bytes
set_file-here files id bytes = rw (==_refl id) refl

pub set_file-Grows :
    (files : ℕ → Option (List ℕ)) (id last : ℕ) (old more : List ℕ)
    → files id ≡ some old
    → Grows files (set_file files id (old ++ more)) last
set_file-Grows files id last old more opened i file low there = elim (Bool-cases (i == id)) [
  | inr other ↦ ([], rw other (there ∙ ap some (sym (append-nil file))))
  | inl same ↦ (
    more,
    rw same (
        ap (λ (t : List ℕ). some (t ++ more))
          (some-inj (sym opened ∙ ap files (sym ((==_iff i id).0 same)) ∙ there))),
  )
]
  where
    some-inj : {a b : List ℕ} → some a ≡ some b → a ≡ b
    some-inj e = ap file_bytes e

pub fresh-Grows :
    (files : ℕ → Option (List ℕ)) (last : ℕ) (bytes : List ℕ)
    → Grows files (set_file files (last + 1) bytes) last
fresh-Grows files last bytes i file low there =
    let other : (i == last + 1) ≡ false = ground (arith, low) in
    ([], rw other (there ∙ ap some (sym (append-nil file))))
