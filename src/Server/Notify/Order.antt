-- ===== src/Server/Notify/Order.antt =====
-- The order in which Go walks a map is not fixed: what it can change of the notifications.
use mathlib.Core.List.{Perm}
use mathlib.Core.List.Perm
use evm_rpc.Prelude.{Bool, List}
use evm_rpc.Server.Json.{Json}
use evm_rpc.Server.Subscription.{Subscription}
