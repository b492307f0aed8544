-- ===== src/Bloom/Contains.antt =====
-- src/bloom.cpp: the loops of `finish` and of `maybe_contains` over one array.
use native.Mathlib.Nat.{mod-lt}
use lsm_tree_storage_engine.Prelude.{
  ℕ, ◌++◌, ◌<◌, ◌*◌, List, suc, refl, All, length, arith, [], ◌≡◌, zero, ◌%◌, ◌≤◌, ◌∙◌, ◌∷◌, true,
}
use lsm_tree_storage_engine.Bloom.{
  set_bit, set_probes, set_hashes, check_probes, Probe, next_probe, probe_for_hash,
}
use lsm_tree_storage_engine.Bloom.Bits.{
  Grows, Grows-refl, Grows-trans, set_bit-Grows, set_bit-IsByte, length-set_bit, has_bit-set_bit,
}
use lsm_tree_storage_engine.Encoding.{IsByte}

-- What the writes of `finish` keep of an array.
pub record Written (a b : List ℕ) : Type 0 where
  pub grows : Grows a b
  pub bytes : All IsByte b
  pub same_length : length b ≡ length a

module _ (m : ℕ) where
  set_probes-Written :
      (n : ℕ) (probe : Probe) (array : List ℕ)
      → All IsByte array
      → Written array (set_probes n m probe array)
  unfolding set_probes
  set_probes-Written zero probe array h = record {
    grows = Grows-refl array;
    bytes = h;
    same_length = refl;
  }
  set_probes-Written (suc n) probe array h =
      let p = probe.position % m in
      let rest =
        set_probes-Written n (next_probe probe) (set_bit array p) (set_bit-IsByte array p h) in
      record {
        grows = Grows-trans (set_bit-Grows array p h) rest.grows;
        bytes = rest.bytes;
        same_length = rest.same_length ∙ length-set_bit array p h;
      }

  pub set_hashes-Written :
      (n : ℕ) (hashes array : List ℕ)
      → All IsByte array
      → Written array (set_hashes n m hashes array)
  unfolding set_hashes
  set_hashes-Written n [] array h = record {
    grows = Grows-refl array;
    bytes = h;
    same_length = refl;
  }
  set_hashes-Written n (hash ∷ hashes) array h =
      let first = set_probes-Written n (probe_for_hash hash) array h in
      let rest =
        set_hashes-Written n hashes (set_probes n m (probe_for_hash hash) array) first.bytes in
      record {
        grows = Grows-trans first.grows rest.grows;
        bytes = rest.bytes;
        same_length = rest.same_length ∙ first.same_length;
      }

  check_probes-Grows :
      (n : ℕ) (a b : List ℕ) (probe : Probe)
      → Grows a b
      → check_probes n m a probe ≡ true
      → check_probes n m b probe ≡ true
  unfolding check_probes
  check_probes-Grows zero a b probe g h = refl
  check_probes-Grows (suc n) a b probe g h =
      ground (arith, g.keeps (probe.position % m), check_probes-Grows n a b (next_probe probe) g)

  -- The positions of a modulus that the array has room for.
  module _ (pos : 0 < m) where
    check_probes-set_probes :
        (n : ℕ) (probe : Probe) (array : List ℕ)
        → All IsByte array
        → m ≤ 8 * length array
        → check_probes n m (set_probes n m probe array) probe ≡ true
    unfolding check_probes set_probes
    check_probes-set_probes zero probe array h room = refl
    check_probes-set_probes (suc n) probe array h room =
        let p = probe.position % m in
        let below : p < m = mod-lt probe.position pos in
        let array' = set_bit array p in
        let bytes' = set_bit-IsByte array p h in
        let rest = set_probes-Written n (next_probe probe) array' bytes' in
        let on = rest.grows.keeps p (has_bit-set_bit array p h (omega arith)) in
        rw on (
          check_probes-set_probes n (next_probe probe) array' bytes'
            (omega (arith, length-set_bit array p h)))

    pub check_probes-set_hashes :
        (n hash : ℕ) (before after array : List ℕ)
        → All IsByte array
        → m ≤ 8 * length array
        → check_probes n m (set_hashes n m (before ++ (hash ∷ after)) array) (probe_for_hash hash)
          ≡ true
    unfolding set_hashes
    check_probes-set_hashes n hash [] after array h room =
        let set = set_probes n m (probe_for_hash hash) array in
        let first = set_probes-Written n (probe_for_hash hash) array h in
        check_probes-Grows n set (set_hashes n m after set) (probe_for_hash hash)
          (set_hashes-Written n after set first.bytes).grows
          (check_probes-set_probes n (probe_for_hash hash) array h room)
    check_probes-set_hashes n hash (x ∷ before) after array h room =
        let first = set_probes-Written n (probe_for_hash x) array h in
        check_probes-set_hashes n hash before after (set_probes n m (probe_for_hash x) array)
          first.bytes (omega (arith, first.same_length))
