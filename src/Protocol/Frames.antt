-- ===== src/Protocol/Frames.antt =====
-- src/protocol.cpp: `read_frame` on a byte stream that comes in pieces.
use lsm_tree_storage_engine.Prelude.{
  ℕ, drop-append_eq, zero, take, length-drop, take-append_le, ◌++◌, arith, suc, ok, drop, List,
  length-append, length, ltb-false, ltb, err, [], StatusCode, refl, ◌+◌, ◌<◌, sym, ◌∙◌, ◌≤◌, ◌∷◌,
  ap, ◌^◌, take-append_eq, Bool, ◌≡◌, if◌then◌else◌,
}
use lsm_tree_storage_engine.Wire.{get_u32, be32, get_u32-be32}
use lsm_tree_storage_engine.Protocol.{
  filled, complete, FrameReader, fill_to, fill_loop, take_payload, take_prefix, read_frame,
}
use lsm_tree_storage_engine.Protocol.Stream.{to_come, IsLive, fill_loop-Filled}
use lsm_tree_storage_engine.Encoding.Cursor.{drop-drop}

-- A frame's bytes.
abbrev pub frame : List ℕ → List ℕ
frame payload = be32 (length payload) ++ payload

-- What a reader has yet to cut.
abbrev pub stream : FrameReader → List ℕ
stream r = r.buf ++ to_come r.events

drop-append_le : (n : ℕ) (xs ys : List ℕ) → n ≤ length xs → drop n (xs ++ ys) ≡ drop n xs ++ ys
drop-append_le zero xs ys h = refl
drop-append_le (suc n) [] ys h = absurd (omega arith)
drop-append_le (suc n) (x ∷ xs) ys h = drop-append_le n xs ys (omega arith)

get_u32-prefix : (buf back : List ℕ) → 4 ≤ length buf → get_u32 (buf ++ back) 0 ≡ get_u32 buf 0
unfolding get_u32
get_u32-prefix [] back h = absurd (omega arith)
get_u32-prefix (a ∷ []) back h = absurd (omega arith)
get_u32-prefix (a ∷ b ∷ []) back h = absurd (omega arith)
get_u32-prefix (a ∷ b ∷ c ∷ []) back h = absurd (omega arith)
get_u32-prefix (a ∷ b ∷ c ∷ d ∷ buf) back h = refl

-- A reader after `fill_to`, while the peer keeps sending.
record Full (wanted : ℕ) (r r' : FrameReader) : Type 0 where
  run : fill_to r wanted ≡ (r', ok filled)
  enough : wanted ≤ length r'.buf
  same : stream r' ≡ stream r
  live : IsLive r'.events
  cap : r'.max_frame ≡ r.max_frame

fill_to-Full :
    (wanted : ℕ) (r : FrameReader)
    → IsLive r.events
    → wanted ≤ length (stream r)
    → (r' : FrameReader) × Full wanted r r'
unfolding fill_to
fill_to-Full wanted r live room =
    let f = fill_loop-Filled r.polls wanted r.buf r.events live room in
    let got = fill_loop r.polls wanted r.buf r.events in
    let r' : FrameReader = record r { buf = got.0.0; events = got.0.1 } in
    (
      r',
      record {
        run = λ i. (r', f.result i);
        enough = f.enough;
        same = f.same;
        live = f.live;
        cap = refl;
      },
    )

-- The reader behind a frame.
pub record Cut (r : FrameReader) (payload rest : List ℕ) (r' : FrameReader) : Type 0 where
  pub run : read_frame r ≡ (r', ok (complete, payload))
  pub stream_left : stream r' ≡ rest
  pub still_live : IsLive r'.events

module _ (payload rest : List ℕ) where
  abbrev n : ℕ
  n = length payload

  payload_taken :
      (r : FrameReader)
      → stream r ≡ frame payload ++ rest
      → 4 + n ≤ length r.buf
      → (take n (drop 4 r.buf) ≡ payload) × (drop (4 + n) r.buf ++ to_come r.events ≡ rest)
  payload_taken r e enough =
      let tail = to_come r.events in
      (
        sym (take-append_le n (drop 4 r.buf) tail (omega (arith, length-drop 4 r.buf)))
            ∙ ap (take n) (sym (drop-append_le 4 r.buf tail (omega arith)))
            ∙ ap (λ (t : List ℕ). take n (drop 4 t)) e
            ∙ take-append_eq n payload rest refl,
        sym (drop-append_le (4 + n) r.buf tail enough)
            ∙ ap (drop (4 + n)) e
            ∙ drop-drop 4 n (frame payload ++ rest)
            ∙ drop-append_eq n payload rest refl,
      )

  -- A frame whose payload is within the reader's cap, a 32-bit number, is cut out of the stream by
  -- `read_frame` whatever pieces the
  -- bytes come in, while the peer keeps sending, and what is behind it is left for the next call.
  pub read_frame-frame :
      (r : FrameReader)
      → IsLive r.events
      → length payload ≤ r.max_frame
      → r.max_frame < 2 ^ 32
      → stream r ≡ frame payload ++ rest
      → (r' : FrameReader) × Cut r payload rest r'
  unfolding read_frame take_prefix take_payload
  read_frame-frame r live within cap e =
      let whole : length (stream r) ≡ 4 + n + length rest =
        ap (λ (t : List ℕ). length t) e ∙ omega (arith, length-append payload rest) in
      let (r1, f1) = fill_to-Full 4 r live (omega (arith, whole)) in
      let (r2, f2) =
        fill_to-Full (4 + n) r1 f1.live
          (omega (arith, whole, ap (λ (t : List ℕ). length t) f1.same)) in
      let size : get_u32 r1.buf 0 ≡ n =
        sym (get_u32-prefix r1.buf (to_come r1.events) f1.enough)
        ∙ ap (λ (t : List ℕ). get_u32 t 0) (f1.same ∙ e)
        ∙ get_u32-be32 n (payload ++ rest) (omega arith) in
      let taken = payload_taken r2 (f2.same ∙ f1.same ∙ e) f2.enough in
      (
        record r2 { buf = drop (4 + n) r2.buf },
        record {
          run =
              ap take_prefix f1.run
              ∙ ap
                  (λ (k : ℕ).
                    if ltb r1.max_frame k
                    then (r1, err StatusCode.corruption)
                    else take_payload (4 + k) (fill_to r1 (4 + k)))
                  size
              ∙ ap
                  (λ (b : Bool).
                    if b
                    then (r1, err StatusCode.corruption)
                    else take_payload (4 + n) (fill_to r1 (4 + n)))
                  (ltb-false r1.max_frame n (omega (arith, within, f1.cap)))
              ∙ ap (take_payload (4 + n)) f2.run
              ∙ ap
                  (λ (k : ℕ). (
                    record r2 { buf = drop (4 + n) r2.buf },
                    ok (complete, take k (drop 4 r2.buf)),
                  ))
                  (omega arith)
              ∙ ap (λ (t : List ℕ). (record r2 { buf = drop (4 + n) r2.buf }, ok (complete, t)))
                  taken.0;
          stream_left = taken.1;
          still_live = f2.live;
        },
      )
