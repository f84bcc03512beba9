-- ===== src/Api/Error.antt =====
-- The error codes and `RPCError` of pkg/api/types.go, and Go's error values and results.
use evm_rpc.Prelude.{◌≡◌, ◌≢◌, refl, Text, text, ◌++◌}
use evm_rpc.Prelude.Int.{ℤ, negsuc}
use evm_rpc.Strconv.Parse.{ParseError}
use evm_rpc.Strconv.Print.{format_int}
use evm_rpc.Strconv.Quote.{num_error_text}

-- `negsuc n` is -(n + 1).
abbrev pub err_code_parse : ℤ
err_code_parse = negsuc 32699

abbrev pub err_code_invalid_request : ℤ
err_code_invalid_request = negsuc 32599

abbrev pub err_code_method_not_found : ℤ
err_code_method_not_found = negsuc 32600

abbrev pub err_code_invalid_params : ℤ
err_code_invalid_params = negsuc 32601

abbrev pub err_code_internal : ℤ
err_code_internal = negsuc 32602

abbrev pub err_code_unknown_block : ℤ
err_code_unknown_block = negsuc 31999

abbrev pub err_code_invalid_input : ℤ
err_code_invalid_input = negsuc 32000

abbrev pub err_code_resource_not_found : ℤ
err_code_resource_not_found = negsuc 32001

abbrev pub err_code_transaction_reject : ℤ
err_code_transaction_reject = negsuc 32003

abbrev pub err_code_method_not_supported : ℤ
err_code_method_not_supported = negsuc 32004

abbrev pub err_code_limit_exceeded : ℤ
err_code_limit_exceeded = negsuc 32005

-- `Data` is never set by the service.
pub record RpcError : Type 0 where
  pub code : ℤ
  pub message : Text

abbrev pub new_rpc_error : ℤ → Text → RpcError
new_rpc_error code message = record { code = code; message = message }

-- An `error` that is not nil: an `*api.RPCError`, the sentinel `storage.ErrNotFound`, the
-- `*strconv.NumError` of `ParseUint` with its input, `fmt.Errorf("prefix: %w", err)`, and any other
-- error with its text.
pub data GoError : Type 0 where
  rpc : RpcError → GoError
  not_found : GoError
  num_error : Text → ParseError → GoError
  wrap : Text → GoError → GoError
  failure : Text → GoError

-- `err.Error()`.
unfoldable pub error_text : GoError → Text
unfolding format_int num_error_text
error_text (rpc e) =
    text "rpc error: code=" ++ (format_int e.code ++ (text ", message=" ++ e.message))
error_text not_found = text "not found"
error_text (num_error s e) = num_error_text s e
error_text (wrap prefix e) = prefix ++ (text ": " ++ error_text e)
error_text (failure s) = s

-- `fmt.Sprintf("what: %v", err)` in an `RPCError`.
abbrev pub rpc_about : ℤ → Text → GoError → GoError
rpc_about code what e = rpc (new_rpc_error code (what ++ (text ": " ++ error_text e)))

-- The outcome of a call: `(value, nil)`, `(_, err)`, or a run-time panic.
pub data Result {ℓ} (A : Type ℓ) : Type ℓ where
  ok : A → Result A
  err : GoError → Result A
  panic : Result A

infixl 5 ◌>>=◌
abbrev pub ◌>>=◌ {ℓ κ} : {A : Type ℓ} {B : Type κ} → Result A → (A → Result B) → Result B
ok a >>= f = f a
err e >>= f = err e
panic >>= f = panic

-- `if err != nil { return nil, wrapped(err) }`.
abbrev pub map_err {ℓ} : {A : Type ℓ} → (GoError → GoError) → Result A → Result A
map_err f (ok a) = ok a
map_err f (err e) = err (f e)
map_err f panic = panic

-- `if err == storage.ErrNotFound { return absent, nil }`, and any other error by `f`.
abbrev pub or_absent {ℓ} : {A : Type ℓ} → A → (GoError → GoError) → Result A → Result A
or_absent absent f (ok a) = ok a
or_absent absent f (err not_found) = ok absent
or_absent absent f (err e) = err (f e)
or_absent absent f panic = panic

-- Calls with the same continuation, value by value.
pub bind_cong {ℓ κ} :
    {A : Type ℓ} {B : Type κ} (r : Result A) (f g : A → Result B)
    → ((a : A) → f a ≡ g a)
    → (r >>= f) ≡ (r >>= g)
bind_cong (ok a) f g h = h a
bind_cong (err e) f g h = refl
bind_cong panic f g h = refl

-- A chain of calls of which none panics.
pub bind-ne-panic {ℓ κ} :
    {A : Type ℓ} {B : Type κ} (r : Result A) (f : A → Result B)
    → r ≢ panic
    → ((a : A) → f a ≢ panic)
    → (r >>= f) ≢ panic
bind-ne-panic (ok a) f p q = q a
bind-ne-panic (err e) f p q = λ h. cc
bind-ne-panic panic f p q = absurd (p refl)

pub map_err-ne-panic {ℓ} :
    {A : Type ℓ} (f : GoError → GoError) (r : Result A) → r ≢ panic → map_err f r ≢ panic
map_err-ne-panic f (ok a) p = λ h. cc
map_err-ne-panic f (err e) p = λ h. cc
map_err-ne-panic f panic p = p
