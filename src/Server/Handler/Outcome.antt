-- ===== src/Server/Handler/Outcome.antt =====
-- How `HandleRequest` of pkg/server/handler.go ends: with a response to the request, or with the panic
-- of its method.
use evm_rpc.Prelude.{◌≡◌, Option, some, text_key}
use evm_rpc.Middleware.RateLimit.{RateLib}
use evm_rpc.Metrics.{Metrics}
use evm_rpc.Server.Json.{Json}
use evm_rpc.Server.Request.{JsonRpcRequest}
use evm_rpc.Server.Methods.{Program, MethodHandler}
use evm_rpc.Server.Handler.{State, Handled, crashed, crash, execute_method}

module _ (lib : RateLib) (p : Program) where
  abbrev the_crash : Handled lib p
  the_crash = crashed

  -- The registered method of the request's name panics on the request's parameters.
  abbrev pub PanicsOn : Option (MethodHandler p) → JsonRpcRequest → State lib p → Type 0
  PanicsOn o req s =
      (h : MethodHandler p) × (o ≡ some h) × ((execute_method lib p h req.params s.world).0 ≡ crash)
