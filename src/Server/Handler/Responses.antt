-- ===== src/Server/Handler/Responses.antt =====
-- The responses of the handler: whose they are, what they hold, and what ran for them.
use mathlib.Core.Path.{subst, sym, ap₂}
use mathlib.Core.Option
use mathlib.Core.Option.{some-injective}
use evm_rpc.Prelude.{
  ℕ, suc, ◌≡◌, ◌⊎◌, inl, inr, refl, ap, Option, none, some, Text, text, text_eq, List, [], ◌∷◌,
  ◌++◌, map, Map, text_key, lookup, arith, Bool-cases,
}
use evm_rpc.Api.Error.{RpcError}
use evm_rpc.Middleware.RateLimit.{RateLib, RateLimiter, Verdict, allowed, refused}
use evm_rpc.Middleware.RateLimit.Tiers.{allow_request_in_flight}
use evm_rpc.Metrics.{Metrics}
use evm_rpc.Server.Json.{Json}
use evm_rpc.Server.Request.{JsonRpcRequest}
use evm_rpc.Server.Methods.{Program, MethodHandler}
use evm_rpc.Server.Handler.{
  Tick, Response, State, Handled, responded, crashed, Executed, finished, crash, after_call,
  run_method, dispatch, check_limit, handle_request, handle_pointer, handle_each, handle_batch,
  Batch, responses, batch_crashed, continue_batch, cons_response, unless_refused, error_response,
  check_limit_with, limited,
}

module _ (lib : RateLib) (p : Program) where
  -- A response to `id`: version 2.0, the same id, and not both a result and an error.
  abbrev pub Answers : Json → Response lib p → Type 0
  Answers id r = (r.jsonrpc ≡ text "2.0") × (r.id ≡ id) × ((r.result ≡ none) ⊎ (r.error ≡ none))

  abbrev pub AllAnswer : Json → Handled lib p → Type 0
  AllAnswer id (responded r) = Answers id r
  AllAnswer id crashed = Unit

  -- What the rate limit does to a request: it goes on, or ends with an error; the services and the
  -- gauge of running requests are as they were.
  pub record Limited (id : Json) (s : State lib p) (c : State lib p × Option (Response lib p))
      : Type 0 where
    pub verdict : (c.1 ≡ none) ⊎ ((e : RpcError) × (c.1 ≡ some (error_response lib p id e)))
    pub same_world : c.0.world ≡ s.world
    pub same_gauge : c.0.metrics.requests_in_flight ≡ s.metrics.requests_in_flight

  limited_lem :
      (req : JsonRpcRequest) (s : State lib p) (v : (RateLimiter lib × Metrics) × Verdict)
      → v.0.1.requests_in_flight ≡ s.metrics.requests_in_flight
      → Limited req.id s (limited lib p req v s)
  limited_lem req s (lm, allowed) h = record {
    verdict = inl refl;
    same_world = refl;
    same_gauge = h;
  }
  limited_lem req s (lm, refused t) h = record {
    verdict = inr (_, refl);
    same_world = refl;
    same_gauge = h;
  }

  check_limit_with_lem :
      (tick : Tick) (ip : Text) (req : JsonRpcRequest) (o : Option (RateLimiter lib))
      (s : State lib p)
      → Limited req.id s (check_limit_with lib p tick ip req o s)
  check_limit_with_lem tick ip req none s = record {
    verdict = inl refl;
    same_world = refl;
    same_gauge = refl;
  }
  check_limit_with_lem tick ip req (some rl) s =
      limited_lem req s _ (allow_request_in_flight lib tick.now ip req.method rl s.metrics)

  pub check_limit-Limited :
      (tick : Tick) (ip : Text) (req : JsonRpcRequest) (s : State lib p)
      → Limited req.id s (check_limit lib p tick ip req s)
  unfolding check_limit
  check_limit-Limited tick ip req s = check_limit_with_lem tick ip req s.limiter s

  to_response-Answers :
      (method : Text) (id : Json) (d : ℕ) (e : Executed lib p) (m : Metrics)
      → AllAnswer id (after_call lib p method id d e m).1
  to_response-Answers method id d (finished result none) m = (refl, refl, inr refl)
  to_response-Answers method id d (finished result (some e)) m = (refl, refl, inl refl)
  to_response-Answers method id d crash m = tt

  dispatch-Answers :
      (tick : Tick) (req : JsonRpcRequest) (o : Option (MethodHandler p)) (s : State lib p)
      → AllAnswer req.id (dispatch lib p tick req o s).1
  unfolding run_method
  dispatch-Answers tick req none s = (refl, refl, inl refl)
  dispatch-Answers tick req (some h) s = to_response-Answers req.method req.id tick.duration _ _

  -- A rule for what holds of a request's end: on each way that it can take.
  pub handle_request_rule {κ} :
      (Q : State lib p × Handled lib p → Type κ) (methods : Map Text (MethodHandler p))
      (tick : Tick) (ip : Text) (req : JsonRpcRequest) (s : State lib p)
      → ((s' : State lib p) (e : RpcError)
          → s'.world ≡ s.world
          → s'.metrics.requests_in_flight ≡ s.metrics.requests_in_flight
          → Q (s', responded (error_response lib p req.id e)))
      → ((s' : State lib p)
          → s'.world ≡ s.world
          → s'.metrics.requests_in_flight ≡ s.metrics.requests_in_flight
          → Q (dispatch lib p tick req (lookup req.method methods) s'))
      → Q (handle_request lib p methods tick ip req s)
  unfolding handle_request
  handle_request_rule Q methods tick ip req s refusal next =
      elim (Bool-cases (text_eq req.jsonrpc (text "2.0"))) [
        | inr bad ↦ rw bad (refusal s _ refl refl)
        | inl good ↦
            rw good (decide (check_limit lib p tick ip req s) (check_limit-Limited tick ip req s))
      ]
    where
      decide :
          (c : State lib p × Option (Response lib p))
          → Limited req.id s c
          → Q (unless_refused lib p c (dispatch lib p tick req (lookup req.method methods)))
      decide (s', none) l = next s' l.same_world l.same_gauge
      decide (s', some r) l = elim l.verdict [
        | inl e ↦ absurd (ground arith)
        | inr (e, q) ↦
            subst (λ z. Q (s', responded z)) (sym (some-injective _ _ q))
              (refusal s' e l.same_world l.same_gauge)
      ]

  -- The ids of responses, and of the requests of a batch; a null element has none.
  abbrev pub ids : List (Response lib p) → List (Option Json)
  ids = map (λ r. some r.id)

  abbrev pub request_ids : List (Option JsonRpcRequest) → List (Option Json)
  request_ids = map (Option.map (λ (r : JsonRpcRequest). r.id))

  module _ (methods : Map Text (MethodHandler p)) where
    -- Each response carries the version and the id of its request, and never a result beside an error.
    pub handle_request-Answers :
        (tick : Tick) (ip : Text) (req : JsonRpcRequest) (s : State lib p)
        → AllAnswer req.id (handle_request lib p methods tick ip req s).1
    handle_request-Answers tick ip req s =
        handle_request_rule (λ r. AllAnswer req.id r.1) methods tick ip req s
          (λ s' e _ _. (refl, refl, inl refl))
          (λ s' _ _. dispatch-Answers tick req (lookup req.method methods) s')

    continue_batch-ids :
        (id : Json) (h : Handled lib p) (rest : State lib p × Batch lib p) (s : State lib p)
        (js : List (Option Json)) (rs : List (Response lib p))
        → AllAnswer id h
        → ((rs' : List (Response lib p)) → rest.1 ≡ responses rs' → ids rs' ≡ js)
        → (continue_batch lib p methods h rest s).1 ≡ responses rs
        → ids rs ≡ some id ∷ js
    continue_batch-ids id crashed rest s js rs a tail h = absurd (ground arith)
    continue_batch-ids id (responded r) (s'', batch_crashed) s js rs a tail h =
        absurd (ground arith)
    continue_batch-ids id (responded r) (s'', responses rs') s js rs a tail h =
        subst (λ l. ids l ≡ some id ∷ js) (responses_injective h)
          (ap₂ ◌∷◌ (ap some a.1) (tail rs' refl))
      where
        responses_injective : responses (r ∷ rs') ≡ responses rs → r ∷ rs' ≡ rs
        responses_injective q = cc

    handle_each-ids :
        (clock : ℕ → Tick) (i : ℕ) (ip : Text) (reqs : List (Option JsonRpcRequest))
        (s : State lib p) (rs : List (Response lib p))
        → (handle_each lib p methods clock i ip reqs s).1 ≡ responses rs
        → ids rs ≡ request_ids reqs
    unfolding handle_each
    handle_each-ids clock i ip [] s [] h = refl
    handle_each-ids clock i ip [] s (r ∷ rs) h = absurd (ground arith)
    handle_each-ids clock i ip (none ∷ reqs) s rs h = absurd (ground arith)
    handle_each-ids clock i ip (some req ∷ reqs) s rs h =
        let (s', handled) = handle_request lib p methods (clock i) ip req s in
        continue_batch-ids req.id handled (handle_each lib p methods clock (suc i) ip reqs s') s'
          (request_ids reqs) rs (handle_request-Answers (clock i) ip req s)
          (handle_each-ids clock (suc i) ip reqs s') h

    -- If a batch is answered, the responses are as many as its requests, each with the id of the
    -- request at its place, and no element was null.
    pub handle_batch-ids :
        (clock : ℕ → Tick) (ip : Text) (reqs : List (Option JsonRpcRequest)) (s : State lib p)
        (rs : List (Response lib p))
        → (handle_batch lib p methods clock ip reqs s).1 ≡ responses rs
        → ids rs ≡ request_ids reqs
    unfolding handle_batch
    handle_batch-ids clock ip reqs s rs h = handle_each-ids clock 0 ip reqs _ rs h

    handle_each-nil :
        (clock : ℕ → Tick) (i : ℕ) (ip : Text) (before after : List (Option JsonRpcRequest))
        (s : State lib p)
        → (handle_each lib p methods clock i ip (before ++ none ∷ after) s).1 ≡ batch_crashed
    unfolding handle_each
    handle_each-nil clock i ip [] after s = refl
    handle_each-nil clock i ip (req ∷ before) after s =
        let (s', handled) = handle_pointer lib p methods (clock i) ip req s in
        continue_crashed handled _ s' (handle_each-nil clock (suc i) ip before after s')
      where
        continue_crashed :
            (h : Handled lib p) (rest : State lib p × Batch lib p) (s : State lib p)
            → rest.1 ≡ batch_crashed
            → (continue_batch lib p methods h rest s).1 ≡ batch_crashed
        continue_crashed crashed rest s e = refl
        continue_crashed (responded r) rest s e = ap (cons_response lib p r) e

    -- A batch with a null element crashes, whatever stands before it: none of its requests is
    -- answered.
    pub handle_batch-nil :
        (clock : ℕ → Tick) (ip : Text) (before after : List (Option JsonRpcRequest))
        (s : State lib p)
        → (handle_batch lib p methods clock ip (before ++ none ∷ after) s).1 ≡ batch_crashed
    unfolding handle_batch
    handle_batch-nil clock ip before after s = handle_each-nil clock 0 ip before after _
