-- ===== src/Server/Listen/Stopping.antt =====
-- When the loops return, and what they have told by then.
use mathlib.Core.Option as Options
use evm_rpc.Prelude.{
  ◌%◌, ◌≡◌, ◌≢◌, refl, Bool, true, false, Option, none, some, Text, List, [], ◌∷◌, map, any,
}
use evm_rpc.Prelude.Int.{two64}
use evm_rpc.Api.Error.{Result, ok, err, panic}
use evm_rpc.Storage.Pika.{Db, Codec}
use evm_rpc.Storage.Blocks.{get_block_by_hash, get_receipts}
use evm_rpc.Storage.Blocks.Total.{IsSafe, get_block_by_hash-ne-panic, get_receipts-ne-panic}
use evm_rpc.Server.Json.{Json}
use evm_rpc.Server.Notify.{Hub, notify_new_heads, notify_logs, notify_new_pending_transaction}
use evm_rpc.Server.Listen.{
  Round, done, payload, others, returned, listen, ChainLib, tell_logs, tell_block, on_block,
  listen_new_blocks, on_transaction, listen_new_pending_transactions,
}

-- The value of a call that succeeds.
abbrev pub readable {ℓ} : {A : Type ℓ} → Result A → Option A
readable (ok a) = some a
readable (err _) = none
readable panic = none

module _ {ℓ} {M : Type ℓ} where
  abbrev pub is_stop : Round M → Bool
  is_stop done = true
  is_stop (payload _ _) = false
  is_stop (Round.failed ctx_done) = ctx_done
  is_stop (others _) = false

  -- The rounds before the first that stops.
  abbrev pub until_stop : List (Round M) → List (Round M)
  until_stop [] = []
  until_stop (r ∷ rs) = elim (is_stop r) [ true ↦ [] | false ↦ r ∷ until_stop rs ]

  -- What a round does to the hub, if it does not stop the loop.
  abbrev pub told : (Db → Text → Hub M → Hub M) → Round M → Hub M → Hub M
  told tell done hub = hub
  told tell (payload db text) hub = tell db text hub
  told tell (Round.failed _) hub = hub
  told tell (others change) hub = change hub

  abbrev pub all_told : (Db → Text → Hub M → Hub M) → List (Round M) → Hub M → Hub M
  all_told tell [] hub = hub
  all_told tell (r ∷ rs) hub = all_told tell rs (told tell r hub)

  listen-returned :
      (on_message : Db → Text → Hub M → Option (Hub M)) (tell : Db → Text → Hub M → Hub M)
      → ((db : Db) (text : Text) (hub : Hub M) → on_message db text hub ≡ some (tell db text hub))
      → (rs : List (Round M)) (hub : Hub M) → any is_stop rs ≡ true
      → listen on_message rs hub ≡ returned (all_told tell (until_stop rs) hub)
  unfolding listen
  listen-returned on_message tell total [] hub h = cc
  listen-returned on_message tell total (done ∷ rs) hub h = refl
  listen-returned on_message tell total (payload db text ∷ rs) hub h =
      rw (total db text hub) (listen-returned on_message tell total rs (tell db text hub) h)
  listen-returned on_message tell total (Round.failed true ∷ rs) hub h = refl
  listen-returned on_message tell total (Round.failed false ∷ rs) hub h =
      listen-returned on_message tell total rs hub h
  listen-returned on_message tell total (others change ∷ rs) hub h =
      listen-returned on_message tell total rs (change hub) h

module _ {ℓ} {M : Type ℓ} (message : Json → M) (codec : Codec) (lib : ChainLib codec) where
  open codec use {Header, Transaction, Receipt}

  -- The head of a block that can be read, then the logs of its receipts, if they can.
  abbrev pub tell_readable : Db → Option (Header × List Transaction) → Hub M → Hub M
  tell_readable db none hub = hub
  tell_readable db (some (header, _)) hub =
      notify_logs message lib.address_hex
        (Options.map (map lib.receipt_logs)
          (readable (get_receipts codec db ((lib.head header).number % two64))))
        (notify_new_heads message (lib.head header) hub)

  abbrev pub block_notices : Db → Text → Hub M → Hub M
  block_notices db text =
      tell_readable db (readable (get_block_by_hash codec db (lib.hex_to_hash text)))

  abbrev pub transaction_notices : Db → Text → Hub M → Hub M
  transaction_notices db text = notify_new_pending_transaction message (lib.hex_to_hash text)

module _ {ℓ} {M : Type ℓ} (message : Json → M) (codec : Codec) (lib : ChainLib codec)
    (safe : IsSafe codec) where
  open codec use {Header, Transaction, Receipt}

  tell_logs_total :
      (r : Result (List Receipt)) (hub : Hub M)
      → r ≢ panic
      → tell_logs message codec lib r hub
        ≡ some (
            notify_logs message lib.address_hex
              (Options.map (map lib.receipt_logs) (readable r))
              hub)
  tell_logs_total (ok receipts) hub p = refl
  tell_logs_total (err _) hub p = refl
  tell_logs_total panic hub p = absurd (p refl)

  tell_block_total :
      (db : Db) (r : Result (Header × List Transaction)) (hub : Hub M)
      → r ≢ panic
      → tell_block message codec lib db r hub
        ≡ some (tell_readable message codec lib db (readable r) hub)
  tell_block_total db (ok (header, _)) hub p =
      tell_logs_total (get_receipts codec db ((lib.head header).number % two64))
        (notify_new_heads message (lib.head header) hub)
        (get_receipts-ne-panic codec safe db ((lib.head header).number % two64))
  tell_block_total db (err _) hub p = refl
  tell_block_total db panic hub p = absurd (p refl)

  -- With decoders that do not panic, both loops return at the first round that finds the context done
  -- or an error with it. By then they have told, in order, of every message before that round: the
  -- head of each block that could be read and then the logs of its receipts, if they could; and each
  -- transaction's hash. An error without the context being done ends nothing.
  pub loops-returned :
      (rs : List (Round M)) (hub : Hub M)
      → any is_stop rs ≡ true
      → (listen_new_blocks message codec lib rs hub
          ≡ returned (all_told (block_notices message codec lib) (until_stop rs) hub))
        × (listen_new_pending_transactions message codec lib rs hub
            ≡ returned (all_told (transaction_notices message codec lib) (until_stop rs) hub))
  unfolding listen_new_blocks listen_new_pending_transactions
  loops-returned rs hub h = (
    listen-returned (on_block message codec lib) (block_notices message codec lib)
        (λ db text hub.
          tell_block_total db (get_block_by_hash codec db (lib.hex_to_hash text)) hub
            (get_block_by_hash-ne-panic codec safe db (lib.hex_to_hash text)))
        rs hub h,
    listen-returned (on_transaction message codec lib) (transaction_notices message codec lib)
        (λ db text hub. refl) rs hub h,
  )
