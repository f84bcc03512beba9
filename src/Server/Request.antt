-- ===== src/Server/Request.antt =====
-- `JSONRPCRequest` and `ParseRequest` of pkg/server/handler.go. The input is the document that the
-- bytes hold, or nothing where they are no JSON.
pub mod Parsing
use mathlib.Core.Option
use evm_rpc.Prelude.{
  ℕ, Bool, true, false, not, Option, none, some, Text, text, text_eq, List, [], ◌∷◌, if◌then◌else◌,
}
use evm_rpc.Api.Error.{
  new_rpc_error, err_code_parse, err_code_invalid_request, rpc, Result, ok, err,
}
use evm_rpc.Server.Json.{
  Json, null, boolean, number, string, array, object, Items, nil, item, Members, end, member,
  names_field, read_interface,
}

-- `id` is what an `interface{}` holds, null where it is absent; `params` is the raw member, if there is one.
pub record JsonRpcRequest : Type 0 where
  pub jsonrpc : Text
  pub id : Json
  pub method : Text
  pub params : Option Json

abbrev pub zero_request : JsonRpcRequest
zero_request = record { jsonrpc = []; id = null; method = []; params = none }

-- A string field: null leaves it, any other type is an `UnmarshalTypeError`, after which the
-- decoder goes on.
abbrev pub read_string : Json → Text → Text × Bool
read_string (string s) old = (s, true)
read_string null old = (old, true)
read_string _ old = (old, false)

abbrev Decoding : Type 0
Decoding = JsonRpcRequest × Bool

abbrev set_jsonrpc : Text × Bool → JsonRpcRequest → Decoding
set_jsonrpc (s, good) r = (record r { jsonrpc = s }, good)

-- After an error the request is not used.
abbrev set_id : Json × Bool → JsonRpcRequest → Decoding
set_id (j, good) r = (record r { id = j }, good)

abbrev set_method : Text × Bool → JsonRpcRequest → Decoding
set_method (s, good) r = (record r { method = s }, good)

unfoldable pub set_member : Text → Json → JsonRpcRequest → Decoding
unfolding names_field read_interface
set_member name j r =
    if names_field (text "jsonrpc") name
    then set_jsonrpc (read_string j r.jsonrpc) r
    else if names_field (text "id") name
    then set_id (read_interface j) r
    else if names_field (text "method") name
    then set_method (read_string j r.method) r
    else if names_field (text "params") name
    then (record r { params = some j }, true)
    else (r, true)

-- The members in order, and whether none had a wrong type.
unfoldable pub read_members : Members → JsonRpcRequest → Decoding
unfolding set_member
read_members end r = (r, true)
read_members (member name j ms) r =
    let (r', good) = set_member name j r in
    let (r'', rest) = read_members ms r' in (r'', if good then rest else false)

abbrev finished : Decoding → Option JsonRpcRequest
finished (r, true) = some r
finished (r, false) = none

-- `json.Unmarshal(data, &single)`: null changes nothing.
unfoldable pub unmarshal_request : Json → Option JsonRpcRequest
unfolding read_members
unmarshal_request null = some zero_request
unmarshal_request (object ms) = finished (read_members ms zero_request)
unmarshal_request _ = none

-- An element of `[]*JSONRPCRequest`: null is the nil pointer.
unfoldable pub unmarshal_pointer : Json → Option (Option JsonRpcRequest)
unmarshal_pointer null = some none
unmarshal_pointer j = Option.map some (unmarshal_request j)

abbrev cons_request :
    Option (Option JsonRpcRequest)
    → Option (List (Option JsonRpcRequest))
    → Option (List (Option JsonRpcRequest))
cons_request (some r) (some rs) = some (r ∷ rs)
cons_request _ _ = none

unfoldable pub unmarshal_items : Items → Option (List (Option JsonRpcRequest))
unmarshal_items nil = some []
unmarshal_items (item j js) = cons_request (unmarshal_pointer j) (unmarshal_items js)

-- `json.Unmarshal(data, &batch)`.
unfoldable pub unmarshal_batch : Json → Option (List (Option JsonRpcRequest))
unmarshal_batch null = some []
unmarshal_batch (array js) = unmarshal_items js
unmarshal_batch _ = none

pub data ParsedRequest : Type 0 where
  single : JsonRpcRequest → ParsedRequest
  batch : List (Option JsonRpcRequest) → ParsedRequest

unfoldable pub check_batch : Option (List (Option JsonRpcRequest)) → Result ParsedRequest
check_batch none = err (rpc (new_rpc_error err_code_parse (text "failed to parse request")))
check_batch (some []) =
    err (rpc (new_rpc_error err_code_invalid_request (text "empty batch request")))
check_batch (some (r ∷ rs)) = ok (batch (r ∷ rs))

-- `err == nil && single.JSONRPC != ""`, or the batch.
unfoldable pub single_or_batch : Option JsonRpcRequest → Json → Result ParsedRequest
single_or_batch none j = check_batch (unmarshal_batch j)
single_or_batch (some r) j =
    if not (text_eq r.jsonrpc []) then ok (single r) else check_batch (unmarshal_batch j)

unfoldable pub parse_request : Option Json → Result ParsedRequest
parse_request none = check_batch none
parse_request (some j) = single_or_batch (unmarshal_request j) j
