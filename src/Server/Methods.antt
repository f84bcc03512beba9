-- ===== src/Server/Methods.antt =====
-- The method table of `JSONRPCHandler`: what reflection tells of a method, `isValidMethod` and
-- `RegisterService` of pkg/server/handler.go.
pub mod Names
use evm_rpc.Prelude.{
  ℕ, Bool, true, false, Option, none, some, Text, text, ◌++◌, List, [], ◌∷◌, ◌&&◌, Map, text_key,
  insert, length, ltb, ◌==◌, if◌then◌else◌,
}
use evm_rpc.Api.Error.{GoError}
use evm_rpc.Server.Json.{Json}

-- Values of the methods' arguments and results, and the state that the services share.
pub record Program : Type 1 where
  pub Value : Type 0
  pub World : Type 0

-- `json.Unmarshal` into a Go type: a value, or an error with its text.
pub data Decoded {ℓ} (V : Type ℓ) : Type ℓ where
  value : V → Decoded V
  invalid : Text → Decoded V

module _ (p : Program) where
  open p use {Value, World}

  -- What the handler asks of a `reflect.Type`. `unmarshal` reads a raw message, or none (no bytes).
  pub record GoType : Type 0 where
    pub is_context : Bool
    pub implements_error : Bool
    pub is_nillable : Bool
    pub zero : Value
    pub unmarshal : Option Json → Decoded Value

  -- A call returns its first result, whether that is a nil, and its error; or it panics.
  pub data Return : Type 0 where
    returned : Value → Bool → Option GoError → Return
    panicked : Return

  -- A `reflect.Method`, called on the arguments behind the receiver and the context.
  pub record Method : Type 0 where
    pub name : Text
    pub inputs : List GoType
    pub outputs : List GoType
    pub func : List Value → World → Return × World

  -- `arg_types` are the inputs behind the receiver, the context among them.
  pub record MethodHandler : Type 0 where
    pub method : Method
    pub arg_types : List GoType
    pub result_type : GoType

  abbrev context_second : List GoType → Bool
  context_second (receiver ∷ context ∷ _) = context.is_context
  context_second _ = false

  abbrev error_second : List GoType → Bool
  error_second (result ∷ error ∷ []) = error.implements_error
  error_second _ = false

  -- `func(receiver, ctx context.Context, args...) (result, error)`.
  unfoldable pub is_valid_method : Method → Bool
  is_valid_method m = context_second m.inputs && error_second m.outputs

  abbrev pub method_name : Text → Method → Text
  method_name namespace m = namespace ++ (text "_" ++ m.name)

  -- The entry of a method: its arguments without the receiver, and the type of its first result.
  abbrev pub entry : Method → List GoType → List GoType → Option MethodHandler
  entry m (receiver ∷ args) (result ∷ _) =
      some (record { method = m; arg_types = args; result_type = result })
  entry m _ _ = none

  abbrev pub entry_of : Method → Option MethodHandler
  entry_of m = if is_valid_method m then entry m m.inputs m.outputs else none

  abbrev put : Text → Option MethodHandler → Map Text MethodHandler → Map Text MethodHandler
  put key none table = table
  put key (some h) table = insert key h table

  -- The loop of `RegisterService`: an invalid method is skipped, a later one of the same name
  -- replaces the earlier.
  unfoldable pub register_service :
      Text → List Method → Map Text MethodHandler → Map Text MethodHandler
  unfolding is_valid_method
  register_service namespace [] table = table
  register_service namespace (m ∷ ms) table =
      register_service namespace ms (put (method_name namespace m) (entry_of m) table)

  -- The calls of `RegisterService` in cmd/rpc/main.go, one after the other: each service with its
  -- namespace.
  unfoldable pub register_services :
      List (Text × List Method) → Map Text MethodHandler → Map Text MethodHandler
  unfolding register_service
  register_services [] table = table
  register_services ((namespace, ms) ∷ rest) table =
      register_services rest (register_service namespace ms table)
