-- ===== src/Protocol/Messages.antt =====
-- Requests and responses, read back.
use native.Mathlib.Nat.{mod-eq_of_lt}
use lsm_tree_storage_engine.Prelude.{
  ℕ, ltb, drop-append_eq, List, arith, ◌-◌, ◌++◌, StatusCode, sym, take, bind-ok, inr,
  length-append, refl, ◌&&◌, Result, drop, ltb-false, ap, ◌∷◌, inl, false, not, ◌∙◌, true, ◌⊎◌, ok,
  take-append_eq, reject-pass, ◌+◌, append-nil, [], ◌≡◌, length, reject_if, if◌then◌else◌, ◌>>◌,
}
use lsm_tree_storage_engine.Wire.{append_u32, be32, get_u32-be32, get_u32}
use lsm_tree_storage_engine.Protocol.{
  Op, op_byte, is_put, Request, Response, encode_request, decode_request, encode_response,
  decode_response, status_byte, status_from_byte, op_from_byte,
}
use lsm_tree_storage_engine.Encoding.{IsU32, subspan}
use lsm_tree_storage_engine.Encoding.Cursor.{drop-drop}

-- Every response is read back as it was written.
pub decode_response-encode_response :
    (response : Response) → decode_response (encode_response response) ≡ ok response
unfolding decode_response encode_response status_from_byte status_byte
decode_response-encode_response response = by_code response.code response.body
  where
    by_code :
        (code : StatusCode) (body : List ℕ)
        → decode_response (status_byte code ∷ body) ≡ ok (record { code = code; body = body })
    by_code StatusCode.ok body = refl
    by_code StatusCode.not_found body = refl
    by_code StatusCode.io_error body = refl
    by_code StatusCode.corruption body = refl
    by_code StatusCode.invalid_argument body = refl

op_from_byte-op_byte : (op : Op) → op_from_byte (op_byte op) ≡ ok op
unfolding op_from_byte
op_from_byte-op_byte Op.get = refl
op_from_byte-op_byte Op.put = refl
op_from_byte-op_byte Op.delete = refl

module _ (op : Op) (key : List ℕ) (fits : IsU32 (length key)) where
  abbrev bytes : List ℕ → List ℕ
  bytes value = op_byte op ∷ be32 (length key) ++ (key ++ value)

  decode-bytes :
      (value : List ℕ)
      → (is_put op ≡ true) ⊎ (value ≡ [])
      → decode_request (bytes value) ≡ ok (record { op = op; key = key; value = value })
  unfolding decode_request get_u32
  decode-bytes value only =
      let size = length-append key value in
      reject-pass _ _ _ (ltb-false (length (bytes value)) 5 (omega arith)) (
        bind-ok _ _ (op_from_byte-op_byte op) (
          ap with_size (get_u32-be32 (length key) (key ++ value) fits)
          ∙ reject-pass _ _ _
              (ltb-false (length (bytes value) - 5) (length key) (omega (arith, size)))
              (ap with_rest (
                  drop-drop 5 (length key) (bytes value)
                  ∙ drop-append_eq (length key) key value refl)
                ∙ reject-pass _ _ _ (no_rest op value only) (λ i. ok (record {
                  op = op;
                  key = take-append_eq (length key) key value refl i;
                  value = value_of op value only i;
                })))))
    where
      with_rest : List ℕ → Result Request
      with_rest rest = do
        reject_if (not (is_put op) && ltb 0 (length rest)) StatusCode.invalid_argument
        ok (record {
          op = op;
          key = take (length key) (key ++ value);
          value = if is_put op then rest else [];
        })

      with_size : ℕ → Result Request
      with_size key_size = do
        reject_if (ltb (length (bytes value) - 5) key_size) StatusCode.invalid_argument
        let rest = drop (5 + key_size) (bytes value)
        reject_if (not (is_put op) && ltb 0 (length rest)) StatusCode.invalid_argument
        ok (record {
          op = op;
          key = subspan (bytes value) 5 key_size;
          value = if is_put op then rest else [];
        })

      no_rest :
          (op : Op) (value : List ℕ)
          → (is_put op ≡ true) ⊎ (value ≡ [])
          → (not (is_put op) && ltb 0 (length value)) ≡ false
      no_rest op value (inl put) = ground (arith, put)
      no_rest op value (inr empty) = rw empty (ground arith)

      value_of :
          (op : Op) (value : List ℕ)
          → (is_put op ≡ true) ⊎ (value ≡ [])
          → (if is_put op then value else []) ≡ value
      value_of op value (inl put) = ground (arith, put)
      value_of op value (inr empty) = rw empty (ground arith)

encode_request-eq :
    (op : Op) (key value : List ℕ)
    → IsU32 (length key)
    → (is_put op ≡ true) ⊎ (value ≡ [])
    → encode_request (record { op = op; key = key; value = value })
      ≡ op_byte op ∷ be32 (length key) ++ (key ++ value)
unfolding encode_request append_u32
encode_request-eq op key value fits only =
    ap (λ (n : ℕ). with_value op (op_byte op ∷ be32 n ++ key)) (mod-eq_of_lt fits) ∙ valued op only
  where
    with_value : Op → List ℕ → List ℕ
    with_value op out = if is_put op then out ++ value else out

    valued :
        (op : Op)
        → (is_put op ≡ true) ⊎ (value ≡ [])
        → with_value op (op_byte op ∷ be32 (length key) ++ key)
          ≡ op_byte op ∷ be32 (length key) ++ (key ++ value)
    valued Op.put only = refl
    valued Op.get (inl put) = cc
    valued Op.get (inr empty) =
        ap (λ (t : List ℕ). 1 ∷ be32 (length key) ++ t)
          (sym (ap (λ (v : List ℕ). key ++ v) empty ∙ append-nil key))
    valued Op.delete (inl put) = cc
    valued Op.delete (inr empty) =
        ap (λ (t : List ℕ). 3 ∷ be32 (length key) ++ t)
          (sym (ap (λ (v : List ℕ). key ++ v) empty ∙ append-nil key))

-- A request whose key's length fits 32 bits, and that carries a value only if it is a put, is read
-- back as it was written.
pub decode_request-encode_request :
    (op : Op) (key value : List ℕ)
    → IsU32 (length key)
    → (is_put op ≡ true) ⊎ (value ≡ [])
    → decode_request (encode_request (record { op = op; key = key; value = value }))
      ≡ ok (record { op = op; key = key; value = value })
decode_request-encode_request op key value fits only =
    ap decode_request (encode_request-eq op key value fits only)
    ∙ decode-bytes op key fits value only
