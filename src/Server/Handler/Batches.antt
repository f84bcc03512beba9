-- ===== src/Server/Handler/Batches.antt =====
-- When a batch is answered: `HandleBatch` returns unless a method panics or an element is null.
use evm_rpc.Prelude.{
  ℕ, suc, ◌≡◌, ◌≢◌, refl, ap, ◌∙◌, Option, none, some, Text, text_key, List, [], ◌∷◌, map, Map,
  lookup, length,
}
use evm_rpc.Metrics.{Metrics, record_batch_request}
use evm_rpc.Middleware.RateLimit.{RateLib}
use evm_rpc.Server.Json.{Json}
use evm_rpc.Server.Request.{JsonRpcRequest}
use evm_rpc.Server.Methods.{Program, MethodHandler}
use evm_rpc.Server.Handler.{
  Tick, Response, State, Handled, responded, Executed, finished, crash, execute_method, after_call,
  run_method, dispatch, handle_request, handle_each, handle_batch, Batch, responses, continue_batch,
  cons_response,
}
use evm_rpc.Server.Handler.Responses.{handle_request_rule, ids, request_ids, handle_batch-ids}

module _ (lib : RateLib) (p : Program) (methods : Map Text (MethodHandler p)) where
  -- No registered method panics, whatever it is given.
  abbrev pub NeverPanics : Type 0
  NeverPanics =
      (key : Text) (h : MethodHandler p) (params : Option Json) (w : p.World)
      → lookup key methods ≡ some h
      → (execute_method lib p h params w).0 ≢ crash

  abbrev Responds : State lib p × Handled lib p → Type 0
  Responds r = (a : Response lib p) × (r.1 ≡ responded a)

  after_call-Responds :
      (method : Text) (id : Json) (d : ℕ) (e : Executed lib p) (m : Metrics) (s : State lib p)
      → e ≢ crash
      → Responds (s, (after_call lib p method id d e m).1)
  after_call-Responds method id d (finished result e) m s calm = (_, refl)
  after_call-Responds method id d crash m s calm = absurd (calm refl)

  dispatch-Responds :
      (tick : Tick) (req : JsonRpcRequest) (s : State lib p)
      → NeverPanics
      → Responds (dispatch lib p tick req (lookup req.method methods) s)
  unfolding run_method
  dispatch-Responds tick req s calm = go (lookup req.method methods) refl
    where
      go :
          (o : Option (MethodHandler p))
          → lookup req.method methods ≡ o
          → Responds (dispatch lib p tick req o s)
      go none e = (_, refl)
      go (some h) e =
          let (a, q) =
            after_call-Responds req.method req.id tick.duration
              (execute_method lib p h req.params s.world).0 _ s
              (calm req.method h req.params s.world e) in
          (a, q)

  handle_request-Responds :
      (tick : Tick) (ip : Text) (req : JsonRpcRequest) (s : State lib p)
      → NeverPanics
      → Responds (handle_request lib p methods tick ip req s)
  handle_request-Responds tick ip req s calm =
      handle_request_rule lib p Responds methods tick ip req s (λ s' e _ _. (_, refl))
        (λ s' _ _. dispatch-Responds tick req s' calm)

  continue_batch-responds :
      (h : Handled lib p) (rest : State lib p × Batch lib p) (s : State lib p) (a : Response lib p)
      (rs : List (Response lib p))
      → h ≡ responded a
      → rest.1 ≡ responses rs
      → (continue_batch lib p methods h rest s).1 ≡ responses (a ∷ rs)
  continue_batch-responds h rest s a rs e q =
      ap (λ k. (continue_batch lib p methods k rest s).1) e ∙ ap (cons_response lib p a) q

  handle_each-responds :
      (clock : ℕ → Tick) (i : ℕ) (ip : Text) (reqs : List JsonRpcRequest) (s : State lib p)
      → NeverPanics
      → (rs : List (Response lib p)) × ((handle_each lib p methods clock i ip (map some reqs) s).1
          ≡ responses rs)
  unfolding handle_each
  handle_each-responds clock i ip [] s calm = ([], refl)
  handle_each-responds clock i ip (req ∷ reqs) s calm =
      let (s', handled) = handle_request lib p methods (clock i) ip req s in
      let (a, e) = handle_request-Responds (clock i) ip req s calm in
      let (rs, q) = handle_each-responds clock (suc i) ip reqs s' calm in
      (a ∷ rs, continue_batch-responds handled _ s' a rs e q)

  -- A batch without null elements, over methods that do not panic, is answered with one response for
  -- each request, which has its id, in order.
  pub handle_batch-responds :
      (clock : ℕ → Tick) (ip : Text) (reqs : List JsonRpcRequest) (s : State lib p)
      → NeverPanics
      → (rs : List (Response lib p)) × ((handle_batch lib p methods clock ip (map some reqs) s).1
          ≡ responses rs)
        × (ids lib p rs ≡ request_ids lib p (map some reqs))
  unfolding handle_batch
  handle_batch-responds clock ip reqs s calm =
      let (rs, e) =
        handle_each-responds clock 0 ip reqs
          (record s { metrics = record_batch_request (length (map some reqs)) s.metrics }) calm in
      (rs, e, handle_batch-ids lib p methods clock ip (map some reqs) s rs e)
