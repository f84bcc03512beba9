-- ===== src/Namespaces.antt =====
-- The net and web3 namespaces of pkg/api/net/api.go and pkg/api/web3/api.go.
use evm_rpc.Prelude.{ℕ, Bool, true, Text, text, text_eq, List, [], ◌++◌, if◌then◌else◌}
use evm_rpc.Strconv.Print.{format_uint}
use evm_rpc.Api.Error.{Result, ok}

pub record NetApi : Type 0 where
  pub network_id : ℕ

unfoldable pub version : NetApi → Result Text
version api = ok (format_uint api.network_id 10)

unfoldable pub listening : NetApi → Result Bool
listening api = ok true

unfoldable pub peer_count : NetApi → Result ℕ
peer_count api = ok 0

pub record Web3Api : Type 0 where
  pub version : Text

unfoldable pub new_web3_api : Text → Web3Api
new_web3_api version = record { version = if text_eq version [] then text "1.0.0" else version }

unfoldable pub client_version : Web3Api → Result Text
client_version api = ok (text "evm-rpc/" ++ api.version)

-- `crypto.Keccak256` is a parameter.
unfoldable pub sha3 : (List ℕ → List ℕ) → Web3Api → List ℕ → Result (List ℕ)
sha3 keccak256 api input = ok (keccak256 input)
