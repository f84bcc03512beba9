-- ===== src/Server/Request/Parsing.antt =====
-- What `ParseRequest` does with requests in their JSON form, and what it never returns.
use evm_rpc.Prelude.{
  ◌≡◌, ◌≢◌, ◌⊎◌, inl, inr, refl, ap, ◌∙◌, not, true, Option, none, some, Text, text, text_eq,
  text_eq_iff, List, [], ◌∷◌, arith, if_true, Bool-cases,
}
use evm_rpc.Api.Error.{rpc, err_code_parse, err_code_invalid_request, Result, ok, err}
use evm_rpc.Server.Json.{Json, string, object, Members, end, member, read_interface}
use evm_rpc.Server.Request.{
  JsonRpcRequest, unmarshal_request, unmarshal_batch, ParsedRequest, single, batch, check_batch,
  single_or_batch, parse_request,
}

abbrev pub params_member : Option Json → Members
params_member none = end
params_member (some p) = member (text "params") p end

-- The JSON form of a request, as a client writes it.
unfoldable pub write_request : JsonRpcRequest → Json
write_request r = object (
    member (text "jsonrpc") (string r.jsonrpc)
      (member (text "id") r.id (member (text "method") (string r.method) (params_member r.params))))

unmarshal-write_params :
    (v : Text) (id w : Json) (method : Text) (params : Option Json)
    → read_interface id ≡ (w, true)
    → unmarshal_request (
        object (
          member (text "jsonrpc") (string v) (
            member (text "id") id (member (text "method") (string method) (params_member params)))))
      ≡ some (record { jsonrpc = v; id = w; method = method; params = params })
unfolding unmarshal_request
unmarshal-write_params v id w method none e = rw e refl
unmarshal-write_params v id w method (some p) e = rw e refl

-- A request that names a version, and whose id has no number out of the range of a float64, is read
-- back with its version, its method and its parameters as they were written, and with the id that an
-- interface{} holds of the one that was written: numbers are float64s, objects maps.
pub parse_request-write_request :
    (r : JsonRpcRequest) (w : Json)
    → r.jsonrpc ≢ []
    → read_interface r.id ≡ (w, true)
    → parse_request (some (write_request r)) ≡ ok (single (record r { id = w }))
unfolding parse_request single_or_batch write_request
parse_request-write_request r w h e =
    ap (λ o. single_or_batch o (write_request r))
      (unmarshal-write_params r.jsonrpc r.id w r.method r.params e)
    ∙ if_true {b = not (text_eq r.jsonrpc [])} _ _ (ground (arith, text_eq_iff r.jsonrpc []))

-- What a caller can rely on.
abbrev pub IsUsable : Result ParsedRequest → Type 0
IsUsable (ok (single r)) = r.jsonrpc ≢ []
IsUsable (ok (batch rs)) = rs ≢ []
IsUsable (err (rpc e)) = (e.code ≡ err_code_parse) ⊎ (e.code ≡ err_code_invalid_request)
IsUsable _ = ⊥

check_batch-IsUsable : (o : Option (List (Option JsonRpcRequest))) → IsUsable (check_batch o)
unfolding check_batch
check_batch-IsUsable none = inl refl
check_batch-IsUsable (some []) = inr refl
check_batch-IsUsable (some (r ∷ rs)) = λ e. ground arith

single_or_batch-IsUsable : (o : Option JsonRpcRequest) (j : Json) → IsUsable (single_or_batch o j)
unfolding single_or_batch
single_or_batch-IsUsable none j = check_batch-IsUsable _
single_or_batch-IsUsable (some r) j = elim (Bool-cases (text_eq r.jsonrpc [])) [
  | inl e ↦ rw e (check_batch-IsUsable (unmarshal_batch j))
  | inr e ↦ rw e (λ q. ground (arith, text_eq_iff r.jsonrpc []))
]

-- A single request names a version, a batch is not empty, and an error is an `RPCError` with one of
-- two codes; parsing does not panic.
pub parse_request-IsUsable : (doc : Option Json) → IsUsable (parse_request doc)
unfolding parse_request
parse_request-IsUsable none = check_batch-IsUsable none
parse_request-IsUsable (some j) = single_or_batch-IsUsable (unmarshal_request j) j
