-- ===== src/Protocol/Stream.antt =====
-- What `fill_to` does while the peer keeps sending.
use mathlib.Core.Path.{subst}
use lsm_tree_storage_engine.Prelude.{
  ℕ, Bool, ltb, ◌≤◌, List, arith, ◌++◌, sym, inr, refl, ◌&&◌, Result, ltb-false, Bool-cases, ap,
  ◌∷◌, inl, false, ◌<◌, true, ok, append-nil, [], ◌≡◌, length, if◌then◌else◌, take-append-drop,
  ◌==◌, length-append, leb, append_assoc, length-take, drop, take, ◌-◌, max, length-drop, ◌∙◌,
}
use lsm_tree_storage_engine.Protocol.{
  arrive, quiet, fail, filled, stopped, Event, Fill, fill_loop, read_chunk,
}

-- All bytes that are to come.
abbrev pub to_come : List Event → List ℕ
to_come [] = []
to_come (arrive bytes ∷ events) = bytes ++ to_come events
to_come (quiet flag ∷ events) = to_come events
to_come (fail code ∷ events) = to_come events

-- No call fails, nobody asks to stop, and no receive comes back empty.
abbrev pub IsLive : List Event → Type 0
IsLive [] = Unit
IsLive (arrive bytes ∷ events) = (0 < length bytes) × IsLive events
IsLive (quiet flag ∷ events) = (flag ≡ false) × IsLive events
IsLive (fail code ∷ events) = ⊥

-- The buffer holds what was wanted, and no byte is lost or moved.
pub record Filled (wanted : ℕ) (stream : List ℕ) (r : (List ℕ × List Event) × Result Fill)
    : Type 0 where
  pub result : r.1 ≡ ok filled
  pub enough : wanted ≤ length r.0.0
  pub same : r.0.0 ++ to_come r.0.1 ≡ stream
  pub live : IsLive r.0.1

module _ (polls : Bool) (wanted : ℕ) where
  pub fill_loop-Filled :
      (buf : List ℕ) (events : List Event)
      → IsLive events
      → wanted ≤ length (buf ++ to_come events)
      → Filled wanted (buf ++ to_come events) (fill_loop polls wanted buf events)
  unfolding fill_loop
  fill_loop-Filled buf [] live room =
      let enough : wanted ≤ length buf =
        omega (arith, ap (λ (t : List ℕ). length t) (append-nil buf)) in
      record {
        result = rw (ltb-false (length buf) wanted enough) refl;
        enough = enough;
        same = refl;
        live = tt;
      }
  fill_loop-Filled buf (quiet flag ∷ events) live room =
      elim (Bool-cases (ltb (length buf) wanted)) [
        | inl short ↦
            rw (short, live.0)
              (subst
                (λ (b : Bool).
                  Filled wanted (buf ++ to_come events)
                    (if b then ((buf, events), ok stopped) else fill_loop polls wanted buf events))
                (sym (and_off polls)) (fill_loop-Filled buf events live.1 room))
        | inr long ↦
            rw long
              (record { result = refl; enough = ground (arith, long); same = refl; live = live })
      ]
    where
      and_off : (p : Bool) → (p && false) ≡ false
      and_off true = refl
      and_off false = refl
  fill_loop-Filled buf (fail code ∷ events) live room = absurd live
  fill_loop-Filled buf (arrive bytes ∷ events) live room =
      elim (Bool-cases (ltb (length buf) wanted)) [
        | inr long ↦
            rw long
              (record { result = refl; enough = ground (arith, long); same = refl; live = live })
        | inl short ↦
            elim (Bool-cases (leb (length bytes) (max (wanted - length buf) read_chunk))) [
              | inl all ↦
                  rw (short, nonempty, all)
                    (subst
                      (λ (t : List ℕ).
                        Filled wanted t (fill_loop polls wanted (buf ++ bytes) events))
                      (append_assoc buf bytes (to_come events))
                      (fill_loop-Filled (buf ++ bytes) events live.1 (
                        omega (
                          arith,
                          room,
                          ap (λ (t : List ℕ). length t) (append_assoc buf bytes (to_come events)),
                        ))))
              | inr more ↦ rw (short, nonempty, more) (surplus more)
            ]
      ]
    where
      ask : ℕ
      ask = max (wanted - length buf) read_chunk

      nonempty : (length bytes == 0) ≡ false
      nonempty = ground (arith, live.0)

      surplus :
          leb (length bytes) ask ≡ false
          → Filled wanted
              (buf ++ (bytes ++ to_come events))
              ((buf ++ take ask bytes, arrive (drop ask bytes) ∷ events), ok filled)
      surplus more =
          let longer : ask < length bytes = ground (arith, more) in
          record {
            result = refl;
            enough =
                omega (arith, length-append buf (take ask bytes), length-take ask bytes, longer);
            same =
                append_assoc buf (take ask bytes) (drop ask bytes ++ to_come events)
                ∙ ap (λ (t : List ℕ). buf ++ t)
                    (sym (append_assoc (take ask bytes) (drop ask bytes) (to_come events))
                      ∙ ap (λ (t : List ℕ). t ++ to_come events) (take-append-drop ask bytes));
            live = (omega (arith, length-drop ask bytes, longer), live.1);
          }
