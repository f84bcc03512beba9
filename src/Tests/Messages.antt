-- ===== src/Tests/Messages.antt =====
-- A subscription and a request over one WebSocket, and the same request over HTTP.
use evm_rpc.Prelude.{◌≡◌, refl, some, text, text_eq, [], ◌∷◌}
use evm_rpc.Server.Request.{parse_request, single_or_batch, unmarshal_request}
use evm_rpc.Server.Request.Parsing.{write_request}
use evm_rpc.Server.Connection.{new_connection}
use evm_rpc.Server.Session.{handle_message, register}
use evm_rpc.Server.Session.Answers
use evm_rpc.Server.Session.OverHttp
use evm_rpc.Server.Session.Reach.{new_server}
use evm_rpc.Server.Http.{HttpRequest, extract_ip, handle_rpc}
use evm_rpc.Tests.Instances.{bucket, counter, tick}
use evm_rpc.Tests.Handling.{bump, table}
use evm_rpc.Tests.Sessions.{s₁, subscription, no_filter}

handle_message-AllAnswered_example :
    Answers.AllAnswered bucket counter (parse_request (some (write_request subscription))) 1 s₁ (
      handle_message bucket counter no_filter table
        (λ _. tick)
        (7 ∷ [])
        1
        (some (write_request subscription))
        s₁)
handle_message-AllAnswered_example =
    Answers.handle_message-AllAnswered bucket counter no_filter table (λ _. tick) (7 ∷ []) 1
      (some (write_request subscription)) s₁

abbrev posted : HttpRequest
posted = record {
  forwarded_for = text "10.0.0.1";
  real_ip = [];
  remote_addr = text "192.168.0.1:5000";
  body = some (some (write_request bump));
}

same_address : extract_ip posted ≡ (s₁.hub.conns 1).client_ip
unfolding extract_ip register new_server new_connection text_eq
same_address = refl

is_ordinary : OverHttp.IsOrdinary bucket counter (parse_request (some (write_request bump)))
unfolding parse_request single_or_batch unmarshal_request write_request text_eq
is_ordinary = (refl, refl)

handle_message-handle_rpc_example :
    handle_message bucket counter no_filter table
      (λ _. tick)
      (7 ∷ [])
      1
      (some (write_request bump))
      s₁
    ≡ OverHttp.send_reply bucket counter 1
        (handle_rpc bucket counter table (λ _. tick) posted s₁.handler)
        s₁
handle_message-handle_rpc_example =
    OverHttp.handle_message-handle_rpc bucket counter no_filter table (λ _. tick) (7 ∷ []) 1 s₁
      posted (some (write_request bump)) refl same_address is_ordinary
