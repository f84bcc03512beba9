-- ===== src/Server/Handler/Unknown.antt =====
-- Requests for methods that are not registered.
use evm_rpc.Prelude.{
  ◌≡◌, refl, ap, ◌∙◌, false, none, Text, text, text_eq_iff, ◌++◌, List, [], Map, text_key, lookup,
  if_true,
}
use evm_rpc.Api.Error.{new_rpc_error, err_code_method_not_found}
use evm_rpc.Middleware.RateLimit.{RateLib}
use evm_rpc.Server.Request.{JsonRpcRequest}
use evm_rpc.Server.Methods.{Program, Method, MethodHandler, register_services}
use evm_rpc.Server.Methods.Names.{
  is_exported, after_underscore, AllServices, lookup-register_services,
}
use evm_rpc.Server.Handler.{
  Tick, State, Handled, responded, error_response, dispatch, check_limit, check_limit_with,
  unless_refused, handle_request,
}

module _ (lib : RateLib) (p : Program) (tick : Tick) (ip : Text) (req : JsonRpcRequest) where
  abbrev pub not_found : Handled lib p
  not_found = responded (
      error_response lib p req.id
        (new_rpc_error err_code_method_not_found (text "method not found: " ++ req.method)))

  handle_request-unknown :
      (methods : Map Text (MethodHandler p)) (s : State lib p)
      → req.jsonrpc ≡ text "2.0"
      → s.limiter ≡ none
      → lookup req.method methods ≡ none
      → handle_request lib p methods tick ip req s ≡ (s, not_found)
  unfolding handle_request check_limit
  handle_request-unknown methods s version open_ unknown =
      if_true _ _ ((text_eq_iff _ _).1 version)
      ∙ ap
          (λ o.
            unless_refused lib p (check_limit_with lib p tick ip req o s)
              (dispatch lib p tick req (lookup req.method methods)))
          open_
      ∙ ap (λ o. dispatch lib p tick req o s) unknown

  -- Behind a handler without limits, and with services whose methods are exported, under namespaces
  -- without an underscore, a request of version 2.0 by a name that has no upper-case letter right
  -- behind its first underscore, as Ethereum spells its methods, is answered with `method not found`
  -- and changes nothing.
  pub handle_request-lower_case :
      (services : List (Text × List (Method p))) (s : State lib p)
      → AllServices p services
      → req.jsonrpc ≡ text "2.0"
      → s.limiter ≡ none
      → is_exported (after_underscore req.method) ≡ false
      → handle_request lib p (register_services p services []) tick ip req s ≡ (s, not_found)
  handle_request-lower_case services s named version open_ low =
      handle_request-unknown (register_services p services []) s version open_
        (lookup-register_services p req.method low services [] named ∙ unfold lookup in refl)
