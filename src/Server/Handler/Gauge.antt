-- ===== src/Server/Handler/Gauge.antt =====
-- The gauge of running requests, and who may change the services' state.
use mathlib.Core.Path.{fun_ext}
use evm_rpc.Prelude.{
  ℕ, ◌≡◌, ◌⊎◌, inl, inr, refl, ap, ◌∙◌, Option, none, some, Text, text_eq, Map, text_key, lookup,
  arith, Bool-cases,
}
use evm_rpc.Prelude.Int.{ℤ, pos, negsuc, ◌+ℤ◌}
use evm_rpc.Metrics.{Metrics, record_request, record_in_flight, add}
use evm_rpc.Middleware.RateLimit.{RateLib}
use evm_rpc.Server.Json.{Json}
use evm_rpc.Server.Request.{JsonRpcRequest}
use evm_rpc.Server.Methods.{Program, MethodHandler}
use evm_rpc.Server.Handler.{
  Tick, State, Executed, finished, crash, execute_method, after_call, run_method, dispatch,
  handle_request,
}
use evm_rpc.Server.Handler.Responses.{handle_request_rule}

up_down : (z : ℤ) → z +ℤ pos 1 +ℤ negsuc 0 ≡ z
unfolding ◌+ℤ◌
up_down (pos n) = ground arith
up_down (negsuc n) = ground arith

module _ (lib : RateLib) (p : Program) where
  abbrev pub in_flight : State lib p → Text → ℤ
  in_flight s = s.metrics.requests_in_flight

  add-add : (f : Text → ℤ) (l : Text) → add (add f l (pos 1)) l (negsuc 0) ≡ f
  add-add f l =
      fun_ext λ k. elim (Bool-cases (text_eq l k)) [ inl e ↦ rw e (up_down (f k)) | inr e ↦ rw e ]

  after_call-in_flight :
      (method : Text) (id : Json) (d : ℕ) (e : Executed lib p) (m : Metrics)
      → (after_call lib p method id d e m).0.requests_in_flight
        ≡ add m.requests_in_flight method (negsuc 0)
  unfolding record_in_flight record_request
  after_call-in_flight method id d (finished r e) m = refl
  after_call-in_flight method id d crash m = refl

  dispatch-in_flight :
      (tick : Tick) (req : JsonRpcRequest) (o : Option (MethodHandler p)) (s : State lib p)
      → in_flight (dispatch lib p tick req o s).0 ≡ in_flight s
  unfolding run_method
  dispatch-in_flight tick req none s = refl
  dispatch-in_flight tick req (some h) s =
      after_call-in_flight req.method req.id tick.duration _ _
      ∙ unfold record_in_flight in add-add (in_flight s) req.method

  module _ (methods : Map Text (MethodHandler p)) where
    -- A request leaves the gauge of running requests as it found it, however it ends: refused,
    -- unknown, answered, or with a panic of its method.
    pub handle_request-in_flight :
        (tick : Tick) (ip : Text) (req : JsonRpcRequest) (s : State lib p)
        → in_flight (handle_request lib p methods tick ip req s).0 ≡ in_flight s
    handle_request-in_flight tick ip req s =
        handle_request_rule lib p (λ r. in_flight r.0 ≡ in_flight s) methods tick ip req s
          (λ s' e _ g. g) (λ s' _ g. dispatch-in_flight tick req (lookup req.method methods) s' ∙ g)

    -- What a request does to the services: nothing, or what its registered method does on their
    -- present state.
    abbrev pub RanMethod : JsonRpcRequest → State lib p → State lib p → Type 0
    RanMethod req s s' =
        (h : MethodHandler p) × (lookup req.method methods ≡ some h)
        × (s'.world ≡ (execute_method lib p h req.params s.world).1)

    dispatch-world :
        (tick : Tick) (req : JsonRpcRequest) (o : Option (MethodHandler p)) (s s₀ : State lib p)
        → lookup req.method methods ≡ o
        → s.world ≡ s₀.world
        → ((dispatch lib p tick req o s).0.world ≡ s₀.world)
          ⊎ RanMethod req s₀ (dispatch lib p tick req o s).0
    unfolding run_method
    dispatch-world tick req none s s₀ e w = inl w
    dispatch-world tick req (some h) s s₀ e w =
        inr (h, e, ap (λ x. (execute_method lib p h req.params x).1) w)

    -- Only the registered method of its name can change the services' state, once.
    pub handle_request-world :
        (tick : Tick) (ip : Text) (req : JsonRpcRequest) (s : State lib p)
        → ((handle_request lib p methods tick ip req s).0.world ≡ s.world)
          ⊎ RanMethod req s (handle_request lib p methods tick ip req s).0
    handle_request-world tick ip req s =
        handle_request_rule lib p (λ r. (r.0.world ≡ s.world) ⊎ RanMethod req s r.0) methods tick ip
          req s (λ s' e w _. inl w)
          (λ s' w _. dispatch-world tick req (lookup req.method methods) s' s refl w)
