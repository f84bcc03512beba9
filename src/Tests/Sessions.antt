-- ===== src/Tests/Sessions.antt =====
-- A WebSocket client that comes, subscribes, is told of a block, and goes; HTTP requests.
use mathlib.Core.Option
use evm_rpc.Prelude.{
  ◌≡◌, ◌≢◌, ◌↔◌, refl, true, false, arith, Option, none, some, text, text_eq, [], ◌∷◌, nat_eq,
  text_key, lookup, insert,
}
use evm_rpc.Prelude.Int.{pos}
use evm_rpc.Metrics.{no_metrics}
use evm_rpc.Api.Error.{ok}
use evm_rpc.Server.Json.{Json, number, string, array, nil, item}
use evm_rpc.Server.Request.{
  JsonRpcRequest, single, parse_request, single_or_batch, unmarshal_request,
}
use evm_rpc.Server.Request.Parsing.{write_request}
use evm_rpc.Server.Connection.{close}
use evm_rpc.Server.Subscription.{FilterCriteria, Subscription, new_heads, generate_subscription_id}
use evm_rpc.Server.Notify.{Head, notify_new_heads}
use evm_rpc.Server.Session.{
  Server, told, is_full, register, stop, disconnect, handle_subscribe, handle_message,
}
use evm_rpc.Server.Session.Leaving
use evm_rpc.Server.Session.Steps.{SoundServer}
use evm_rpc.Server.Session.Reach
use evm_rpc.Server.Session.Reach.{
  Site, new_site, new_server, set_hub, Step, Reach, admits, registers, stops, sends, goes,
  new_block, start, step,
}
use evm_rpc.Server.Http.{HttpRequest, extract_ip, rate_limited, handle_rpc}
use evm_rpc.Server.Http.Charges
use evm_rpc.Middleware.RateLimit.{allowed, allow_connection, check_global, check_ip, ask_key}
use evm_rpc.Tests.Instances
use evm_rpc.Server.Http.Replies
use evm_rpc.Tests.Instances.{bucket, counter, limiter, open_start, tick}

abbrev pub no_filter : Json → Option FilterCriteria
no_filter j = none

abbrev pub subscription : JsonRpcRequest
subscription = record {
  jsonrpc = text "2.0";
  id = number (text "1") (some (text "1"));
  method = text "eth_subscribe";
  params = some (array (item (string (text "newHeads")) nil));
}

abbrev site : Server bucket counter → Site bucket counter
site = new_site bucket counter

abbrev s₀ : Server bucket counter
s₀ = new_server bucket counter (pos 2) no_metrics open_start

abbrev pub s₁ : Server bucket counter
s₁ = register bucket counter (text "10.0.0.1") 1 s₀

abbrev s₂ : Server bucket counter
s₂ = handle_subscribe bucket counter no_filter (7 ∷ []) 1 subscription s₁

abbrev block : Head
block = record {
  number = 3;
  hash = text "block";
  parent_hash = text "parent";
  time = 1;
  gas_used = 21000;
  gas_limit = 30000000;
}

abbrev s₃ : Server bucket counter
s₃ = set_hub bucket counter (notify_new_heads told block s₂.hub) s₂

abbrev s₄ : Server bucket counter
s₄ = disconnect bucket counter 1 s₃

has_room : is_full bucket counter s₀ ≡ false
unfolding is_full new_server
has_room = refl

registered : lookup 1 s₁.connections ≡ some true
unfolding register new_server lookup insert
registered = refl

unused : lookup (generate_subscription_id (7 ∷ [])) s₁.hub.manager.subscriptions ≡ none
unfolding register new_server lookup
unused = refl

asked :
    handle_message bucket counter no_filter []
      (λ _. tick)
      (7 ∷ [])
      1
      (some (write_request subscription))
      s₁
    ≡ some s₂
unfolding handle_message parse_request single_or_batch unmarshal_request write_request text_eq
asked = refl

told_of_block : Reach bucket counter no_filter (λ a. a) [] (site s₀) (site s₃)
told_of_block =
    step
      (step (step (step start (admits has_room)) (registers (text "10.0.0.1") 1 (omega arith)))
        (sends (λ _. tick) (7 ∷ []) 1 (some (write_request subscription)) registered unused asked))
      (new_block block)

-- The server stops, and the client goes.
abbrev s₅ : Server bucket counter
s₅ = disconnect bucket counter 1 (stop bucket counter s₃)

visit :
    Reach bucket counter no_filter
      (λ a. a)
      []
      (site s₀)
      (record { server = s₅; admitted = 0; up = false })
visit = step (step told_of_block stops) (goes 1)

new_is_sound : SoundServer bucket counter true s₀
new_is_sound = Reach.new_server-SoundServer bucket counter (pos 2) no_metrics open_start

Reach-SoundServer_example : SoundServer bucket counter false s₅
Reach-SoundServer_example =
    Reach.Reach-SoundServer bucket counter no_filter (λ a. a) [] visit new_is_sound

abbrev newest : Subscription
newest = record { id = text "0x07"; sub_type = new_heads; filter = none; conn = 1 }

disconnect_lem_example :
    (lookup 1 s₄.connections ≡ none)
    × (s₄.hub.conns 1 ≡ close (s₃.hub.conns 1))
    × ((close (s₃.hub.conns 1)).closed ≡ true)
    × ((lookup (text "0x07") s₄.hub.manager.subscriptions ≡ some newest)
        ↔ (lookup (text "0x07") s₃.hub.manager.subscriptions ≡ some newest) × (newest.conn ≢ 1))
disconnect_lem_example =
    Leaving.disconnect_lem bucket counter true s₃ 1 1 (text "0x07") newest
      (Reach.Reach-SoundServer bucket counter no_filter (λ a. a) [] told_of_block new_is_sound)

abbrev post : HttpRequest
post = record {
  forwarded_for = [];
  real_ip = [];
  remote_addr = text "10.0.0.1:5000";
  body = some (some (write_request subscription));
}

handle_rpc-Replies_example :
    Replies.Replies bucket counter
      (Option.map parse_request post.body)
      (handle_rpc bucket counter [] (λ _. tick) post open_start).1
handle_rpc-Replies_example =
    Replies.handle_rpc-Replies bucket counter [] (λ _. tick) post open_start

parsed : parse_request (some (write_request subscription)) ≡ ok (single subscription)
unfolding parse_request single_or_batch unmarshal_request write_request text_eq
parsed = refl

lets_through : (allow_connection bucket 0 (text "10.0.0.1:5000") (limiter, no_metrics)).1 ≡ allowed
unfolding allow_connection check_global check_ip ask_key lookup
lets_through = refl

-- Of three tokens, one is left.
rate_limited-charges_twice_example :
    Charges.IsCharged bucket counter 1
      (rate_limited bucket counter 0 post
        (handle_rpc bucket counter [] (λ _. tick) post)
        Instances.start).0
unfolding extract_ip text_eq
rate_limited-charges_twice_example =
    Charges.rate_limited-charges_twice bucket counter [] 0 (λ _. tick) post
      (some (write_request subscription)) subscription 3 limiter Instances.start refl parsed refl
      refl (refl, refl) lets_through
