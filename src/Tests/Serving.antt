-- ===== src/Tests/Serving.antt =====
-- The listening loops on three messages, a logged request, and a run of the program.
use evm_rpc.Prelude.{ℕ, ◌≡◌, refl, true, false, none, some, text, List, [], ◌∷◌}
use evm_rpc.Prelude.Int.{pos}
use evm_rpc.Metrics.{no_metrics}
use evm_rpc.Api.Error.{failure, ok}
use evm_rpc.Cache.Manager.{CacheConfig, CacheTtlConfig}
use evm_rpc.Config.{Config}
use evm_rpc.Server.Json.{Json}
use evm_rpc.Server.Connection.{new_connection}
use evm_rpc.Server.Subscription.{Subscription, new_manager, new_heads}
use evm_rpc.Server.Notify.{Hub}
use evm_rpc.Storage.Pika.{value, Db}
use evm_rpc.Server.Listen.{
  Round, done, payload, returned, ChainLib, listen_new_blocks, listen_new_pending_transactions,
}
use evm_rpc.Server.Listen.Stopping
use evm_rpc.Server.Listen.Stopping.{all_told, block_notices, transaction_notices}
use evm_rpc.Wiring.{Environment, main, interrupted}
use evm_rpc.Wiring.Shutdown
use evm_rpc.Wiring.Shutdown.{IsOrderly}
use evm_rpc.Tests.Chain.{bytes}

abbrev heads : Subscription
heads = record { id = text "0x01"; sub_type = new_heads; filter = none; conn = 1 }

abbrev hub : Hub Json
hub = record {
  manager = record (new_manager no_metrics) { subscriptions = (text "0x01", heads) ∷ [] };
  conns = λ c. new_connection (text "10.0.0.1");
}

abbrev chain : ChainLib bytes
chain = record {
  hex_to_hash = λ s. s;
  address_hex = λ a. a;
  head = λ n. record {
    number = n;
    hash = [];
    parent_hash = [];
    time = 1;
    gas_used = 21000;
    gas_limit = 30000000;
  };
  receipt_logs = λ r. [];
}

-- Every key holds the digit 3.
abbrev threes : Db
threes key = value (b'3' ∷ [])

abbrev rounds : List (Round Json)
rounds =
    payload threes (text "0x01")
    ∷ Round.failed false
    ∷ payload threes (text "0x02")
    ∷ done
    ∷ payload threes (text "0x03")
    ∷ []

abbrev message : Json → Json
message j = j

loops-returned_example :
    (listen_new_blocks message bytes chain rounds hub
      ≡ returned (all_told (block_notices message bytes chain) (Stopping.until_stop rounds) hub))
    × (listen_new_pending_transactions message bytes chain rounds hub
        ≡ returned
            (all_told (transaction_notices message bytes chain) (Stopping.until_stop rounds) hub))
loops-returned_example =
    Stopping.loops-returned message bytes chain
      (record { header_safe = λ b h. cc; body_safe = λ b h. cc; receipts_safe = λ b h. cc }) rounds
      hub refl

abbrev ttl : CacheTtlConfig
ttl = record { block = pos 1; transaction = pos 1; receipt = pos 1; balance = pos 1; code = pos 1 }

abbrev caches : CacheConfig
caches = record {
  enabled = true;
  block_cache_size = pos 8;
  tx_cache_size = pos 8;
  receipt_cache_size = pos 8;
  balance_cache_size = pos 8;
  code_cache_size = pos 8;
  ttl = ttl;
}

abbrev config : Config ℕ
config = record {
  chain = record { name = text "bsc"; network_id = 56; chain_id = 56 };
  server = record {
    http = record {
      enabled = true;
      listen_addr = text ":8545";
      read_timeout = pos 30;
      write_timeout = pos 30;
      idle_timeout = pos 120;
      max_header_bytes = pos 1048576;
      cors_origins = [];
      v_hosts = [];
    };
    ws = record {
      enabled = true;
      listen_addr = text ":8546";
      max_connections = pos 1000;
      read_buffer_size = pos 1024;
      write_buffer_size = pos 1024;
    };
    health = record { enabled = false; listen_addr = [] };
  };
  storage = record {
    pika = record {
      addr = text "localhost:9221";
      password = [];
      db = pos 0;
      max_connections = pos 100;
      dial_timeout = pos 5;
      read_timeout = pos 3;
      write_timeout = pos 3;
    };
  };
  cache = caches;
  rate_limit = record {
    enabled = false;
    global = record { requests_per_second = pos 0; burst = pos 0 };
    ip = record { requests_per_second = pos 0; burst = pos 0 };
    method = [];
  };
  worker_pools = record {
    query = record { worker_count = pos 1; queue_size = pos 1 };
    compute = record { worker_count = pos 1; queue_size = pos 1 };
    write = record { worker_count = pos 1; queue_size = pos 1 };
  };
  evm = record { call_gas_limit = 50000000; estimate_gas_multiplier = 2 };
  api = record { enabled_namespaces = []; disabled_methods = [] };
  metrics = record { enabled = true; listen_addr = text ":9090" };
  logging = record {
    level = text "info";
    format = text "json";
    output = text "stdout";
    slow_query_threshold = pos 1;
  };
}

abbrev environment : Environment ℕ
environment = record {
  show_version = false;
  config = ok config;
  init_logger = none;
  new_pika_client = none;
  new_cache_manager = none;
  wake = interrupted;
  stop_error = λ f. some (failure (text "deadline exceeded"));
}

main-IsOrderly_example : IsOrderly (main environment)
main-IsOrderly_example = Shutdown.main-IsOrderly environment
