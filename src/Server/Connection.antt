-- ===== src/Server/Connection.antt =====
-- `WebSocketConnection` of pkg/server/websocket.go: the buffered channel of outgoing messages and the
-- closed flag. The socket is a list of what was written to it.
use evm_rpc.Prelude.{ℕ, Bool, true, false, Text, List, [], ◌∷◌, ◌++◌, length, ltb, if◌then◌else◌}

-- `make(chan interface{}, 256)`.
abbrev pub send_capacity : ℕ
send_capacity = 256

-- `send_open` and `close_open` tell whether the channels are still open; `closed` is the flag.
pub record Connection {ℓ} (M : Type ℓ) : Type ℓ where
  pub send_chan : List M
  pub send_open : Bool
  pub close_open : Bool
  pub closed : Bool
  pub written : List M
  pub client_ip : Text

module _ {ℓ} {M : Type ℓ} where
  unfoldable pub new_connection : Text → Connection M
  new_connection ip = record {
    send_chan = [];
    send_open = true;
    close_open = true;
    closed = false;
    written = [];
    client_ip = ip;
  }

  -- `select { case c.sendChan <- msg: default: }`: a full channel drops the message.
  unfoldable pub enqueue : M → Connection M → Connection M
  enqueue msg c =
      if ltb (length c.send_chan) send_capacity
      then record c { send_chan = c.send_chan ++ msg ∷ [] }
      else c

  -- `Send`, run without another thread in between.
  unfoldable pub send : M → Connection M → Connection M
  unfolding enqueue
  send msg c = if c.closed then c else enqueue msg c

  -- `Close`, run without another thread in between.
  unfoldable pub close : Connection M → Connection M
  close c =
      if c.closed then c else record c { closed = true; close_open = false; send_open = false }
