-- ===== src/Tests/Handling.antt =====
-- The handler over a service with one method.
use mathlib.Core.Path.{subst}
use mathlib.Core.Option.{some-injective}
use evm_rpc.Prelude.{
  ℕ, Option, ◌≢◌, ◌∙◌, ap, inl, inr, Bool-cases, text_eq_iff, ◌≡◌, ◌⊎◌, refl, none, some, Text,
  text, text_eq, List, [], ◌∷◌, map, Map, text_key, lookup, insert, arith,
}
use evm_rpc.Server.Json.{Json, number}
use evm_rpc.Server.Request.{JsonRpcRequest}
use evm_rpc.Server.Methods.{Method, MethodHandler, register_service, register_services}
use evm_rpc.Server.Methods.Names
use evm_rpc.Server.Handler.{
  Response, responses, crash, batch_crashed, handle_request, handle_each, handle_batch, check_limit,
  run_method, execute_method, method_args,
}
use evm_rpc.Server.Handler.Responses
use evm_rpc.Server.Handler.Gauge
use evm_rpc.Server.Handler.Outcome
use evm_rpc.Server.Handler.Batches
use evm_rpc.Server.Handler.Unknown
use evm_rpc.Tests.Instances.{bucket, counter, bump_method, start, open_start, tick}

abbrev ip : Text
ip = text "10.0.0.1"

abbrev pub bump : JsonRpcRequest
bump = record {
  jsonrpc = text "2.0";
  id = number (text "1") (some (text "1"));
  method = text "eth_Bump";
  params = none;
}

abbrev standard : JsonRpcRequest
standard = record bump { id = number (text "2") (some (text "2")); method = text "eth_bump" }

abbrev services : List (Text × List (Method counter))
services = (text "eth", bump_method ∷ []) ∷ []

pub table : Map Text (MethodHandler counter)
unfolding register_services insert
table = register_services counter services []

lookup-register_service_example :
    lookup (text "eth_Bump") (register_service counter (text "eth") (bump_method ∷ []) [])
    ≡ Names.or_else counter
        (Names.last_named counter (text "eth") (text "eth_Bump") (bump_method ∷ []))
        (lookup (text "eth_Bump") [])
lookup-register_service_example =
    Names.lookup-register_service counter (text "eth") (text "eth_Bump") (bump_method ∷ []) []

handle_request-world_example :
    ((handle_request bucket counter table tick ip bump start).0.world ≡ start.world)
    ⊎ Gauge.RanMethod bucket counter table bump start
        (handle_request bucket counter table tick ip bump start).0
handle_request-world_example = Gauge.handle_request-world bucket counter table tick ip bump start

-- The registered name runs the method.
bump_runs : (handle_request bucket counter table tick ip bump open_start).0.world ≡ 8
unfolding handle_request check_limit run_method execute_method method_args table lookup text_eq
bump_runs = refl

handle_request-lower_case_example :
    handle_request bucket counter
      (register_services counter services [])
      tick
      ip
      standard
      open_start
    ≡ (open_start, Unknown.not_found bucket counter tick ip standard)
unfolding Names.after_underscore
handle_request-lower_case_example =
    Unknown.handle_request-lower_case bucket counter tick ip standard services open_start
      (((λ e. ground arith), ((λ e. ground arith), ((λ e. ground arith), tt))), (refl, tt), tt) refl
      refl refl

abbrev answered : List (Response bucket counter)
answered =
    record {
      jsonrpc = text "2.0";
      id = number (text "1") (some (text "1"));
      result = some 7;
      error = none;
    }
    ∷ record {
      jsonrpc = text "2.0";
      id = number (text "1") (some (text "1"));
      result = some 8;
      error = none;
    }
    ∷ []

batch_runs :
    (handle_batch bucket counter table (λ _. tick) ip (map some (bump ∷ bump ∷ [])) open_start).1
    ≡ responses answered
unfolding handle_batch handle_each handle_request check_limit run_method execute_method method_args
    table lookup text_eq
batch_runs = refl

handle_batch-nil_example :
    (handle_batch bucket counter table (λ _. tick) ip (some bump ∷ none ∷ []) open_start).1
    ≡ batch_crashed
handle_batch-nil_example =
    Responses.handle_batch-nil bucket counter table (λ _. tick) ip (some bump ∷ []) [] open_start

-- The one handler of the table.
bump_handler-calm :
    (h : MethodHandler counter) (params : Option Json) (w : ℕ)
    → lookup (text "eth_Bump") table ≡ some h
    → (execute_method bucket counter h params w).0 ≢ crash
unfolding table lookup text_eq execute_method method_args
bump_handler-calm h params w q =
    subst (λ (k : MethodHandler counter). (execute_method bucket counter k params w).0 ≢ crash)
      (some-injective _ _ q) (λ e. cc)

table-NeverPanics : Batches.NeverPanics bucket counter table
unfolding table lookup
table-NeverPanics key h params w q = elim (Bool-cases (text_eq (text "eth_Bump") key)) [
  | inl e ↦
      bump_handler-calm h params w
        (ap (λ k. lookup k table) ((text_eq_iff (text "eth_Bump") key).0 e) ∙ q)
  | inr e ↦ absurd (ground arith)
]

handle_batch-responds_example :
    (rs : List (Response bucket counter)) × ((handle_batch bucket counter table
        (λ _. tick)
        ip
        (map some (bump ∷ bump ∷ []))
        start).1
      ≡ responses rs)
    × (Responses.ids bucket counter rs
        ≡ Responses.request_ids bucket counter (map some (bump ∷ bump ∷ [])))
handle_batch-responds_example =
    Batches.handle_batch-responds bucket counter table (λ _. tick) ip (bump ∷ bump ∷ []) start
      table-NeverPanics
