-- ===== src/Tests/Requests.antt =====
-- `ParseRequest` on documents.
use evm_rpc.Prelude.{◌≡◌, refl, true, false, none, some, text, text_eq, [], arith}
use evm_rpc.Api.Error.{ok, err, rpc, new_rpc_error, err_code_parse, err_code_invalid_request}
use evm_rpc.Server.Json.{
  Json, null, boolean, number, string, array, object, nil, item, end, member, put_member, text_ltb,
  read_interface,
}
use evm_rpc.Server.Request.{
  JsonRpcRequest, single, check_batch, single_or_batch, unmarshal_batch, unmarshal_items,
  unmarshal_pointer, unmarshal_request, parse_request,
}
use evm_rpc.Server.Request.Parsing

-- 2^53 + 1, which no float64 is.
abbrev block_number : JsonRpcRequest
block_number = record {
  jsonrpc = text "2.0";
  id = number (text "9007199254740993") (some (text "9007199254740992"));
  method = text "eth_blockNumber";
  params = none;
}

abbrev rounded : Json
rounded = number (text "9007199254740992") (some (text "9007199254740992"))

rounds : read_interface block_number.id ≡ (rounded, true)
unfolding read_interface
rounds = refl

parse_request-write_request_example :
    parse_request (some (Parsing.write_request block_number))
    ≡ ok (single (record block_number { id = rounded }))
parse_request-write_request_example =
    Parsing.parse_request-write_request block_number rounded (λ e. ground arith) rounds

-- An object's members come in the order of their names, the last of a name; a number out of range
-- fails.
interfaces :
    (read_interface (
        object (
          member
            (text "b")
            null
            (member (text "a") (boolean true) (member (text "b") (string (text "x")) end))))
      ≡ (
        object (member (text "a") (boolean true) (member (text "b") (string (text "x")) end)),
        true,
      ))
    × (read_interface (array (item (number (text "1e400") none) nil))
        ≡ (array (item null nil), false))
unfolding read_interface put_member text_ltb text_eq
interfaces = (refl, refl)

parse_request-IsUsable_example : Parsing.IsUsable (parse_request (some (array nil)))
parse_request-IsUsable_example = Parsing.parse_request-IsUsable (some (array nil))

-- A wrong version text is kept, in any case of the member's name; an object without one fails.
parse_documents :
    (parse_request (some (object (member (text "JSONRPC") (string (text "1.0")) end)))
      ≡ ok (single (record { jsonrpc = text "1.0"; id = null; method = []; params = none })))
    × (parse_request (some (object (member (text "method") (string (text "m")) end)))
        ≡ err (rpc (new_rpc_error err_code_parse (text "failed to parse request"))))
    × (parse_request (some (array nil))
        ≡ err (rpc (new_rpc_error err_code_invalid_request (text "empty batch request"))))
unfolding parse_request single_or_batch check_batch unmarshal_batch unmarshal_items
    unmarshal_pointer unmarshal_request
parse_documents = (refl, refl, refl)
