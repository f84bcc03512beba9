-- ===== src/Server/Handler.antt =====
-- `HandleRequest`, `executeMethod` and `HandleBatch` of pkg/server/handler.go. The handler's state is
-- the rate limiter's, the metrics and the services'; the log is not modelled.
pub mod Responses
pub mod Gauge
pub mod Outcome
pub mod Batches
pub mod Unknown
use evm_rpc.Prelude.{
  ℕ, suc, ◌+◌, Bool, true, false, not, ◌&&◌, Option, none, some, Text, text, text_eq, ◌++◌, List,
  [], ◌∷◌, map, Map, text_key, lookup, length, if◌then◌else◌,
}
use evm_rpc.Prelude.Int.{ℤ, pos, negsuc}
use evm_rpc.Strconv.Print.{format_uint}
use evm_rpc.Api.Error.{
  GoError, rpc, RpcError, new_rpc_error, error_text, Result, ok, err, panic, ◌>>=◌,
  err_code_invalid_request, err_code_invalid_params, err_code_internal, err_code_method_not_found,
  err_code_limit_exceeded,
}
use evm_rpc.Metrics.{Metrics, record_request, record_in_flight, record_batch_request}
use evm_rpc.Middleware.RateLimit.{RateLib, RateLimiter, Verdict, allowed, refused, allow_request}
use evm_rpc.Server.Json.{Json, null, array, raw_items}
use evm_rpc.Server.Request.{JsonRpcRequest}
use evm_rpc.Server.Methods.{
  Program, Decoded, value, invalid, GoType, Return, returned, panicked, MethodHandler,
}

-- The clock as a request sees it: the time that its limits read, and how long its method takes.
pub record Tick : Type 0 where
  pub now : ℕ
  pub duration : ℕ

module _ (lib : RateLib) (p : Program) where
  open p use {Value, World}

  pub record Response : Type 0 where
    pub jsonrpc : Text
    pub id : Json
    pub result : Option Value
    pub error : Option RpcError

  pub record State : Type 0 where
    pub limiter : Option (RateLimiter lib)
    pub metrics : Metrics
    pub world : World

  pub data Handled : Type 0 where
    responded : Response → Handled
    crashed : Handled

  abbrev pub error_response : Json → RpcError → Response
  error_response id e = record { jsonrpc = text "2.0"; id = id; result = none; error = some e }

  -- The list of raw parameters: an array's elements, or the one message itself.
  unfoldable pub param_list : Option Json → List (Option Json)
  unfolding raw_items
  param_list (some (array js)) = map some (raw_items js)
  param_list (some null) = []
  param_list raw = raw ∷ []

  abbrev decoded_arg : ℕ → Decoded Value → Result Value
  decoded_arg i (value v) = ok v
  decoded_arg i (invalid why) = err (
      rpc (
        new_rpc_error err_code_invalid_params
          (text "invalid param " ++ (format_uint i 10 ++ (text ": " ++ why)))))

  -- The loop over the argument types from the `i`-th on; a missing parameter is the zero value.
  unfoldable pub parse_args : ℕ → List (GoType p) → List (Option Json) → Result (List Value)
  unfolding format_uint
  parse_args i [] raws = ok []
  parse_args i (t ∷ ts) [] = do vs ← parse_args (suc i) ts []; ok (t.zero ∷ vs)
  parse_args i (t ∷ ts) (raw ∷ raws) = do
    v ← decoded_arg i (t.unmarshal raw)
    vs ← parse_args (suc i) ts raws
    ok (v ∷ vs)

  -- The arguments behind the context; a method without any does not look at the parameters.
  unfoldable pub method_args : List (GoType p) → Option Json → Result (List Value)
  method_args [] raw = panic
  method_args (context ∷ []) raw = ok []
  method_args (context ∷ t ∷ ts) raw = parse_args 1 (t ∷ ts) (param_list raw)

  -- `(result, err)` with nil for nothing, or a panic.
  pub data Executed : Type 0 where
    finished : Option Value → Option GoError → Executed
    crash : Executed

  -- The two results: a nil of a type that has one is no result.
  abbrev extract : GoType p → Return p → Executed
  extract t (returned v is_nil e) = finished (if t.is_nillable && is_nil then none else some v) e
  extract t panicked = crash

  abbrev call_with : MethodHandler p → Result (List Value) → World → Executed × World
  call_with h (ok args) w = let (r, w') = h.method.func args w in (extract h.result_type r, w')
  call_with h (err e) w = (finished none (some e), w)
  call_with h panic w = (crash, w)

  unfoldable pub execute_method : MethodHandler p → Option Json → World → Executed × World
  execute_method h params w = call_with h (method_args h.arg_types params) w

  -- An `*api.RPCError` is passed on, any other error becomes an internal one.
  unfoldable pub to_rpc_error : GoError → RpcError
  to_rpc_error (rpc e) = e
  to_rpc_error e = new_rpc_error err_code_internal (error_text e)

  abbrev build_response : Json → Option Value → Option GoError → Response
  build_response id result (some e) = error_response id (to_rpc_error e)
  build_response id result none = record {
    jsonrpc = text "2.0";
    id = id;
    result = result;
    error = none;
  }

  abbrev status : Option GoError → Text
  status none = text "success"
  status (some _) = text "error"

  -- What follows the call: the metrics, then the response; the deferred call runs on a panic too.
  abbrev after_call : Text → Json → ℕ → Executed → Metrics → Metrics × Handled
  after_call method id duration (finished result e) m = (
    record_in_flight method (negsuc 0) (record_request method (status e) duration m),
    responded (build_response id result e),
  )
  after_call method id duration crash m = (record_in_flight method (negsuc 0) m, crashed)

  -- From `metrics.RecordInFlight` to the end of `HandleRequest`.
  unfoldable pub run_method : Tick → JsonRpcRequest → MethodHandler p → State → State × Handled
  run_method tick req h s =
      let m = record_in_flight req.method (pos 1) s.metrics in
      let (e, w) = execute_method h req.params s.world in
      let (m', handled) = after_call req.method req.id tick.duration e m in
      (record s { metrics = m'; world = w }, handled)

  abbrev pub dispatch : Tick → JsonRpcRequest → Option (MethodHandler p) → State → State × Handled
  dispatch tick req none s = (
    s,
    responded (
        error_response req.id
          (new_rpc_error err_code_method_not_found (text "method not found: " ++ req.method))),
  )
  dispatch tick req (some h) s = run_method tick req h s

  abbrev pub limit_result : RateLimiter lib × Metrics → State → State
  limit_result (rl, m) s = record s { limiter = some rl; metrics = m }

  abbrev pub limited :
      JsonRpcRequest → (RateLimiter lib × Metrics) × Verdict → State → State × Option Response
  limited req (lm, allowed) s = (limit_result lm s, none)
  limited req (lm, refused t) s = (
    limit_result lm s,
    some (
        error_response req.id
          (new_rpc_error err_code_limit_exceeded (text "rate limit exceeded: " ++ t))),
  )

  -- The rate limit, where the handler has one; a response ends the request.
  abbrev pub check_limit_with :
      Tick → Text → JsonRpcRequest → Option (RateLimiter lib) → State → State × Option Response
  check_limit_with tick ip req none s = (s, none)
  check_limit_with tick ip req (some rl) s =
      limited req (allow_request lib tick.now ip req.method (rl, s.metrics)) s

  unfoldable pub check_limit : Tick → Text → JsonRpcRequest → State → State × Option Response
  check_limit tick ip req s = check_limit_with tick ip req s.limiter s

  abbrev pub unless_refused : State × Option Response → (State → State × Handled) → State × Handled
  unless_refused (s, none) next = next s
  unless_refused (s, some r) next = (s, responded r)

  pub data Batch : Type 0 where
    responses : List Response → Batch
    batch_crashed : Batch

  abbrev cons_response : Response → Batch → Batch
  cons_response r (responses rs) = responses (r ∷ rs)
  cons_response r batch_crashed = batch_crashed

  module _ (methods : Map Text (MethodHandler p)) where
    unfoldable pub handle_request : Tick → Text → JsonRpcRequest → State → State × Handled
    handle_request tick ip req s =
        if text_eq req.jsonrpc (text "2.0")
        then unless_refused (check_limit tick ip req s)
            (dispatch tick req (lookup req.method methods))
        else (
          s,
          responded (
              error_response req.id
                (new_rpc_error err_code_invalid_request (text "invalid jsonrpc version"))),
        )

    -- A nil pointer among the requests of a batch is dereferenced.
    abbrev handle_pointer : Tick → Text → Option JsonRpcRequest → State → State × Handled
    handle_pointer tick ip none s = (s, crashed)
    handle_pointer tick ip (some req) s = handle_request tick ip req s

    abbrev continue_batch : Handled → State × Batch → State → State × Batch
    continue_batch (responded r) (s', b) s = (s', cons_response r b)
    continue_batch crashed _ s = (s, batch_crashed)

    -- The loop over the requests, the `i`-th at the `i`-th tick.
    unfoldable pub handle_each :
        (ℕ → Tick) → ℕ → Text → List (Option JsonRpcRequest) → State → State × Batch
    handle_each clock i ip [] s = (s, responses [])
    handle_each clock i ip (req ∷ reqs) s =
        let (s', handled) = handle_pointer (clock i) ip req s in
        let rest = handle_each clock (suc i) ip reqs s' in continue_batch handled rest s'

    unfoldable pub handle_batch :
        (ℕ → Tick) → Text → List (Option JsonRpcRequest) → State → State × Batch
    handle_batch clock ip reqs s =
        handle_each clock 0 ip reqs
          (record s { metrics = record_batch_request (length reqs) s.metrics })
