-- ===== src/Storage/Client.antt =====
-- `PikaClient` of pkg/storage/pika.go over the commands of go-redis. `Subscribe`, `Pipeline`, `Close`
-- and `GetClient` hand over what the library has.
use evm_rpc.Prelude.{ℕ, ◌≡◌, ◌≢◌, ◌↔◌, refl, ap, sym, Option, none, some, Text, text, List, [], ◌∷◌}
use evm_rpc.Prelude.Int.{ℤ, pos, negsuc}
use evm_rpc.Api.Error.{GoError, not_found, wrap, Result, ok, err}
use evm_rpc.Storage.Pika.{RedisReply, value, nil, failed, found, pika_get}
use mathlib.Core.Path.{subst}
use evm_rpc.Storage.TxPool.{Redis}
use evm_rpc.Storage.TxPool.Kept.{IsStore}
use evm_rpc.Config.{PikaConfig}

-- A command that writes returns the store after it, and a result; `Err()` is its error, none for a
-- nil. A time to live is in nanoseconds, a sorted set's range from an index to another, where -1 is
-- the last.
pub record RedisClient : Type 1 where
  pub Db : Type 0
  pub get : Db → Text → RedisReply
  pub h_get : Db → Text → Text → RedisReply
  pub set : Text → List ℕ → ℤ → Db → Db × Option GoError
  pub h_set : Text → List (Text × Text) → Db → Db × Option GoError
  pub del : List Text → Db → Db × Option GoError
  pub z_add : Text → List (ℕ × Text) → Db → Db × Option GoError
  pub z_rem : Text → List Text → Db → Db × Option GoError
  pub s_add : Text → List Text → Db → Db × Option GoError
  pub publish : Text → Text → Db → Db × Option GoError
  pub m_get : List Text → Db → Result (List (Option Text))
  pub h_get_all : Text → Db → Result (List (Text × Text))
  pub z_range : Text → ℤ → ℤ → Db → Result (List Text)
  pub z_rev_range : Text → ℤ → ℤ → Db → Result (List Text)
  pub z_card : Text → Db → Result ℕ
  pub s_members : Text → Db → Result (List Text)
  pub s_card : Text → Db → Result ℕ
  pub exists : List Text → Db → Result ℕ

-- What `redis.NewClient` is given.
pub record RedisOptions : Type 0 where
  pub addr : Text
  pub password : Text
  pub db : ℤ
  pub pool_size : ℤ
  pub dial_timeout : ℤ
  pub read_timeout : ℤ
  pub write_timeout : ℤ

abbrev options_of : PikaConfig → RedisOptions
options_of cfg = record {
  addr = cfg.addr;
  password = cfg.password;
  db = cfg.db;
  pool_size = cfg.max_connections;
  dial_timeout = cfg.dial_timeout;
  read_timeout = cfg.read_timeout;
  write_timeout = cfg.write_timeout;
}

abbrev tested : RedisOptions → Option GoError → Result RedisOptions
tested options none = ok options
tested options (some e) = err (wrap (text "failed to connect to Pika") e)

-- `NewPikaClient`: a client is what it was made with; `ping` is the answer to the first `Ping`.
unfoldable pub new_pika_client : (RedisOptions → Option GoError) → PikaConfig → Result RedisOptions
new_pika_client ping cfg = tested (options_of cfg) (ping (options_of cfg))

-- `cmd.Err()`.
abbrev err_of : {D : Type 0} → D × Option GoError → D × Result (Unit {0})
err_of (db, none) = (db, ok tt)
err_of (db, some e) = (db, err e)

module _ (client : RedisClient) where
  open client use {Db}

  unfoldable pub pika_h_get : Db → Text → Text → Result (List ℕ)
  pika_h_get db key field = found (client.h_get db key field)

  unfoldable pub pika_set : Text → List ℕ → ℤ → Db → Db × Result (Unit {0})
  pika_set key bytes ttl db = err_of (client.set key bytes ttl db)

  unfoldable pub pika_h_set : Text → List (Text × Text) → Db → Db × Result (Unit {0})
  pika_h_set key values db = err_of (client.h_set key values db)

  unfoldable pub pika_del : List Text → Db → Db × Result (Unit {0})
  pika_del keys db = err_of (client.del keys db)

  unfoldable pub pika_z_add : Text → List (ℕ × Text) → Db → Db × Result (Unit {0})
  pika_z_add key members db = err_of (client.z_add key members db)

  unfoldable pub pika_z_rem : Text → List Text → Db → Db × Result (Unit {0})
  pika_z_rem key members db = err_of (client.z_rem key members db)

  unfoldable pub pika_s_add : Text → List Text → Db → Db × Result (Unit {0})
  pika_s_add key members db = err_of (client.s_add key members db)

  unfoldable pub pika_publish : Text → Text → Db → Db × Result (Unit {0})
  pika_publish channel message db = err_of (client.publish channel message db)

  unfoldable pub pika_m_get : List Text → Db → Result (List (Option Text))
  pika_m_get keys db = client.m_get keys db

  unfoldable pub pika_h_get_all : Text → Db → Result (List (Text × Text))
  pika_h_get_all key db = client.h_get_all key db

  unfoldable pub pika_z_range : Text → ℤ → ℤ → Db → Result (List Text)
  pika_z_range key from to db = client.z_range key from to db

  unfoldable pub pika_z_rev_range : Text → ℤ → ℤ → Db → Result (List Text)
  pika_z_rev_range key from to db = client.z_rev_range key from to db

  unfoldable pub pika_z_card : Text → Db → Result ℕ
  pika_z_card key db = client.z_card key db

  unfoldable pub pika_s_members : Text → Db → Result (List Text)
  pika_s_members key db = client.s_members key db

  unfoldable pub pika_s_card : Text → Db → Result ℕ
  pika_s_card key db = client.s_card key db

  unfoldable pub pika_exists : List Text → Db → Result ℕ
  pika_exists keys db = client.exists keys db

  -- The commands of the transaction pool: without a time to live, one member at a time, and whole
  -- ranges, from 0 to -1.
  unfoldable pub pool_commands : Redis
  unfolding pika_set pika_del pika_z_add pika_z_rem pika_z_card pika_z_range pika_z_rev_range
      pika_publish
  pool_commands = record {
    Db = Db;
    get = client.get;
    set = λ key bytes db. pika_set key bytes (pos 0) db;
    del = λ key db. pika_del (key ∷ []) db;
    z_add = λ key score member db. pika_z_add key ((score, member) ∷ []) db;
    z_rem = λ key member db. pika_z_rem key (member ∷ []) db;
    z_card = λ key db. pika_z_card key db;
    z_range = λ key db. pika_z_range key (pos 0) (negsuc 0) db;
    z_rev_range = λ key db. pika_z_rev_range key (pos 0) (negsuc 0) db;
    publish = λ channel message db. pika_publish channel message db;
  }

-- A reply is read as "not found" exactly if it is `redis.Nil`.
found-not_found_iff : (r : RedisReply) → (found r ≡ err not_found) ↔ (r ≡ nil)
found-not_found_iff (value bytes) = (λ h. cc, λ h. cc)
found-not_found_iff nil = (λ h. refl, λ h. refl)
found-not_found_iff (failed why) = (λ h. cc, λ h. cc)

-- So do both lookups.
pub lookups-not_found_iff :
    (client : RedisClient) (db : client.Db) (key field : Text)
    → ((pika_get (client.get db) key ≡ err not_found) ↔ (client.get db key ≡ nil))
      × ((pika_h_get client db key field ≡ err not_found) ↔ (client.h_get db key field ≡ nil))
unfolding pika_get pika_h_get
lookups-not_found_iff client db key field =
    (found-not_found_iff (client.get db key), found-not_found_iff (client.h_get db key field))

-- What is relied on of the store, as its commands say it, is what the pool relies on.
pub record IsClientStore (client : RedisClient) : Type 0 where
  pub get-set :
      (k : Text) (v : List ℕ) (db db' : client.Db)
      → client.set k v (pos 0) db ≡ (db', none)
      → client.get db' k ≡ value v
  pub get-z_add :
      (k : Text) (v : List ℕ) (key : Text) (members : List (ℕ × Text)) (db : client.Db)
      → client.get db k ≡ value v
      → client.get (client.z_add key members db).0 k ≡ value v
  pub get-publish :
      (k : Text) (v : List ℕ) (channel message : Text) (db : client.Db)
      → client.get db k ≡ value v
      → client.get (client.publish channel message db).0 k ≡ value v

err_of-store : {D : Type 0} (r : D × Option GoError) → (err_of r).0 ≡ r.0
err_of-store (db, none) = refl
err_of-store (db, some e) = refl

err-≢-ok : {A : Type 0} (e : GoError) (a : A) → err e ≢ ok a
err-≢-ok e a q = cc

err_of-none :
    {D : Type 0} (r : D × Option GoError) (db : D) → err_of r ≡ (db, ok tt) → r ≡ (db, none)
err_of-none (d, none) db h = λ i. (ap (λ z. z.0) h i, none)
err_of-none (d, some e) db h = absurd (err-≢-ok e tt (ap (λ z. z.1) h))

pub pool_commands-IsStore :
    (client : RedisClient) → IsClientStore client → IsStore (pool_commands client)
unfolding pool_commands pika_set pika_z_add pika_publish
pool_commands-IsStore client store = record {
  get-set =
      λ k v db db' h. store.get-set k v db db' (err_of-none (client.set k v (pos 0) db) db' h);
  get-z_add = λ k v key score member db h.
      subst (λ d. client.get d k ≡ value v)
        (sym (err_of-store (client.z_add key ((score, member) ∷ []) db)))
        (store.get-z_add k v key ((score, member) ∷ []) db h);
  get-publish = λ k v channel message db h.
      subst (λ d. client.get d k ≡ value v) (sym (err_of-store (client.publish channel message db)))
        (store.get-publish k v channel message db h);
}
