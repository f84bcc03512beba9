-- ===== src/Middleware/Cors.antt =====
-- `NewCORS` of pkg/middleware/cors.go: what github.com/rs/cors is given.
use evm_rpc.Prelude.{ℕ, Bool, true, Text, text, List, [], ◌∷◌}

-- The options that are set; `max_age` is in seconds.
pub record CorsOptions : Type 0 where
  pub allowed_origins : List Text
  pub allowed_methods : List Text
  pub allowed_headers : List Text
  pub exposed_headers : List Text
  pub allow_credentials : Bool
  pub max_age : ℕ

-- Without origins every origin is allowed.
abbrev pub or_any : List Text → List Text
or_any [] = text "*" ∷ []
or_any (o ∷ rest) = o ∷ rest

unfoldable pub new_cors : List Text → CorsOptions
new_cors origins = record {
  allowed_origins = or_any origins;
  allowed_methods = text "GET" ∷ text "POST" ∷ text "OPTIONS" ∷ [];
  allowed_headers =
      text "Accept"
      ∷ text "Content-Type"
      ∷ text "Content-Length"
      ∷ text "Accept-Encoding"
      ∷ text "Authorization"
      ∷ [];
  exposed_headers = text "Content-Length" ∷ [];
  allow_credentials = true;
  max_age = 86400;
}
