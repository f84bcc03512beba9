-- ===== src/Eth/Submit/Checks.antt =====
-- Which transactions the pool accepts.
use mathlib.Core.Path.{subst}
use evm_rpc.Prelude.{
  ℕ, suc, not, Option, none, some, ◌%◌, ◌==◌, ==_iff, ◌+◌, ◌-◌, ◌*◌, ◌≤◌, ◌<◌, ◌≡◌, ◌↔◌, refl, ap,
  ◌∙◌, sym, Bool, true, false, Text, text, List, arith, ltb, le→ltb,
}
use evm_rpc.Prelude.Int.{
  ℤ, pos, negsuc, pos_part, neg_part, sub_ℕ, ◌+ℤ◌, ◌*ℤ◌, ltbℤ, two63, two64, to_int64,
}
use evm_rpc.Api.Error.{GoError, Result, ok, err, panic, ◌>>=◌, map_err}
use evm_rpc.Storage.Accounts
use evm_rpc.Storage.Accounts.{AccountState}
use mathlib.Core.Option.{get_or}
use evm_rpc.Storage.TxPool.{Redis, TxLib, price_or_cap}
use evm_rpc.Eth.Submit.{reject_if, check_chain, price_of, total_cost, check_transaction}

bind_ok :
    {A B : Type 0} (P : Type 0) (r : Result A) (f : A → Result B) (b : B)
    → (r >>= f) ≡ ok b
    → ((a : A) → r ≡ ok a → f a ≡ ok b → P)
    → P
bind_ok P (ok a) f b h next = next a refl h
bind_ok P (err e) f b h next = cc
bind_ok P panic f b h next = cc

map_err_ok :
    {A : Type 0} (g : GoError → GoError) (r : Result A) (a : A) → map_err g r ≡ ok a → r ≡ ok a
map_err_ok g (ok x) a h = h
map_err_ok g (err e) a h = cc
map_err_ok g panic a h = cc

reject_if_ok :
    (b : Bool) (code : ℤ) (msg : Text) (t : Unit {0}) → reject_if b code msg ≡ ok t → b ≡ false
reject_if_ok true code msg t h = cc
reject_if_ok false code msg t h = refl

cost_small : (v p g : ℕ) → g < two63 → (pos v +ℤ (pos p *ℤ to_int64 g)) ≡ pos (v + p * g)
unfolding ◌+ℤ◌ ◌*ℤ◌ to_int64
cost_small v p g h = ground arith

sub_ℕ-le : (a b : ℕ) → a ≤ b → pos_part (sub_ℕ a b) ≡ 0
sub_ℕ-le a b h = ground arith

to_int64-huge : (g : ℕ) → two63 ≤ g → to_int64 g ≡ negsuc (two64 - 1 - g)
unfolding to_int64
to_int64-huge g h = ground arith

-- A negative cost is below every balance.
nonpositive : (b : ℕ) (z : ℤ) → pos_part z ≡ 0 → ltbℤ (pos b) z ≡ false
nonpositive b z h = le→ltb (b + neg_part z) (pos_part z + 0) (omega arith)

cost_huge :
    (b v p g : ℕ)
    → two63 ≤ g
    → g < two64
    → v ≤ p * (two64 - g)
    → ltbℤ (pos b) (pos v +ℤ (pos p *ℤ to_int64 g)) ≡ false
unfolding ◌+ℤ◌ ◌*ℤ◌
cost_huge b v p g huge fits cheap = rw (to_int64-huge g huge) (
    nonpositive b _
      (below v (p * suc (two64 - 1 - g)) (subst (λ n. v ≤ p * n) (omega arith) cheap)))
  where
    below : (v x : ℕ) → v ≤ x → pos_part (pos v +ℤ sub_ℕ 0 x) ≡ 0
    below v x h = ground arith

not_off : (b : Bool) → not b ≡ false → b ≡ true
not_off true h = refl
not_off false h = cc

not_below : (a b : ℕ) → ltb a b ≡ false → b ≤ a
not_below a b h = ground arith

-- The tests of `ltbℤ` on a balance.
funds_iff : (b c : ℕ) → (ltbℤ (pos b) (pos c) ≡ false) ↔ (c ≤ b)
funds_iff b c = (λ h. ground arith, λ h. ground arith)

-- The price of a transaction: its gas price, else its fee cap, else nothing.
abbrev pub HasPrice : Option ℕ → Option ℕ → ℕ → Type 0
HasPrice (some p) cap price = price ≡ p
HasPrice none (some p) price = price ≡ p
HasPrice none none price = price ≡ 0

price_of-HasPrice : (p cap : Option ℕ) → HasPrice p cap (get_or (price_or_cap p cap) 0)
price_of-HasPrice (some p) cap = refl
price_of-HasPrice none (some p) = refl
price_of-HasPrice none none = refl

HasPrice-price_of :
    (p cap : Option ℕ) (n : ℕ) → HasPrice p cap n → n ≡ get_or (price_or_cap p cap) 0
HasPrice-price_of (some p) cap n h = h
HasPrice-price_of none (some p) n h = h
HasPrice-price_of none none n h = h

module _ (redis : Redis) (txs : TxLib) (decode_account : List ℕ → Result AccountState)
    (chain_id : ℕ) where
  open redis use {Db}
  open txs use {Transaction}

  abbrev pub NamesChain : Option ℕ → Type 0
  NamesChain none = Unit
  NamesChain (some id) = id % two64 ≡ chain_id

  check_chain-NamesChain :
      (o : Option ℕ) → check_chain redis txs decode_account chain_id o ≡ ok tt → NamesChain o
  check_chain-NamesChain none h = tt
  check_chain-NamesChain (some id) h =
      (==_iff (id % two64) chain_id).0 (not_off (id % two64 == chain_id) (reject_if_ok _ _ _ tt h))

  NamesChain-check_chain :
      (o : Option ℕ) → NamesChain o → check_chain redis txs decode_account chain_id o ≡ ok tt
  NamesChain-check_chain none h = refl
  NamesChain-check_chain (some id) h = rw ((==_iff (id % two64) chain_id).1 h) refl

  -- A transaction that names this chain, up to a multiple of 2^64, or none, with a valid signature, a
  -- nonce that the sender has not used, a balance that pays for its value and its gas at its price,
  -- and the gas of a transfer.
  pub record IsAcceptable (db : Db) (tx : Transaction) : Type 0 where
    pub from : Text
    pub current : ℕ
    pub balance : ℕ
    pub signed : txs.sender tx ≡ ok from
    pub chain : NamesChain (txs.chain_id tx)
    pub nonce_read :
        Accounts.get_nonce decode_account (redis.get db) from (text "latest") ≡ ok current
    pub fresh : current ≤ txs.nonce tx
    pub balance_read :
        Accounts.get_balance decode_account (redis.get db) from (text "latest") ≡ ok balance
    pub price : ℕ
    pub priced : HasPrice (txs.gas_price tx) (txs.gas_fee_cap tx) price
    pub funded : txs.value tx + price * txs.gas tx ≤ balance
    pub enough_gas : 21000 ≤ txs.gas tx

  cost_of :
      (tx : Transaction)
      → txs.gas tx < two63
      → total_cost redis txs decode_account chain_id tx
        ≡ pos (txs.value tx + price_of redis txs decode_account chain_id tx * txs.gas tx)
  cost_of tx h =
      cost_small (txs.value tx) (price_of redis txs decode_account chain_id tx) (txs.gas tx) h

  check_sound :
      (db : Db) (tx : Transaction)
      → txs.gas tx < two63
      → check_transaction redis txs decode_account chain_id db tx ≡ ok tt
      → IsAcceptable db tx
  unfolding check_transaction
  check_sound db tx small h =
      bind_ok (IsAcceptable db tx) (map_err _ (txs.sender tx)) _ tt h (λ from e₁ h₁.
        bind_ok (IsAcceptable db tx)
          (check_chain redis txs decode_account chain_id (txs.chain_id tx)) _ tt h₁
          (λ _ e₂ h₂.
            bind_ok (IsAcceptable db tx)
              (map_err _ (Accounts.get_nonce decode_account (redis.get db) from (text "latest"))) _
              tt h₂
              (λ current e₃ h₃.
                bind_ok (IsAcceptable db tx) (reject_if (ltb (txs.nonce tx) current) _ _) _ tt h₃
                  (λ t₄ e₄ h₄.
                    bind_ok (IsAcceptable db tx)
                      (map_err _
                        (Accounts.get_balance decode_account (redis.get db) from (text "latest")))
                      _ tt h₄
                      (λ balance e₅ h₅.
                        bind_ok (IsAcceptable db tx)
                          (reject_if
                            (ltbℤ (pos balance) (total_cost redis txs decode_account chain_id tx)) _
                            _)
                          _ tt h₅
                          (λ t₆ e₆ h₆. record {
                            from = from;
                            current = current;
                            balance = balance;
                            signed = map_err_ok _ (txs.sender tx) from e₁;
                            chain = check_chain-NamesChain (txs.chain_id tx) e₂;
                            nonce_read = map_err_ok _ _ current e₃;
                            fresh = not_below (txs.nonce tx) current (reject_if_ok _ _ _ t₄ e₄);
                            balance_read = map_err_ok _ _ balance e₅;
                            price = price_of redis txs decode_account chain_id tx;
                            priced = price_of-HasPrice (txs.gas_price tx) (txs.gas_fee_cap tx);
                            funded = (funds_iff balance _).0 (
                                ap (ltbℤ (pos balance)) (sym (cost_of tx small))
                                ∙ reject_if_ok _ _ _ t₆ e₆);
                            enough_gas = not_below (txs.gas tx) 21000 (reject_if_ok _ _ _ tt h₆);
                          }))))))

  check_complete :
      (db : Db) (tx : Transaction)
      → txs.gas tx < two63
      → IsAcceptable db tx
      → check_transaction redis txs decode_account chain_id db tx ≡ ok tt
  unfolding check_transaction
  check_complete db tx small h =
      let funds : ltbℤ (pos h.balance) (total_cost redis txs decode_account chain_id tx) ≡ false =
        ap (ltbℤ (pos h.balance)) (cost_of tx small)
        ∙ (funds_iff h.balance _).1 (
            subst (λ n. txs.value tx + n * txs.gas tx ≤ h.balance)
              (HasPrice-price_of (txs.gas_price tx) (txs.gas_fee_cap tx) h.price h.priced)
              h.funded) in
      rw (
        h.signed,
        NamesChain-check_chain (txs.chain_id tx) h.chain,
        h.nonce_read,
        le→ltb (txs.nonce tx) h.current h.fresh,
        h.balance_read,
        funds,
        le→ltb (txs.gas tx) 21000 h.enough_gas,
      )

  -- With a gas limit below 2^63, a transaction passes the checks of SendRawTransaction exactly if it
  -- names no chain, or one whose id is this chain's up to a multiple of 2^64, and has a valid
  -- signature, a nonce that the sender has not used, a balance that pays for its value and for its gas
  -- at its price (the gas price, else the fee cap, else 0), and at least 21000 gas.
  pub check_transaction_iff :
      (db : Db) (tx : Transaction)
      → txs.gas tx < two63
      → (check_transaction redis txs decode_account chain_id db tx ≡ ok tt) ↔ IsAcceptable db tx
  check_transaction_iff db tx small = (check_sound db tx small, check_complete db tx small)

  -- A gas limit from 2^63 on makes the cost of the gas negative: whatever the sender's balance, a
  -- transaction whose value is not above that passes, if its other checks do.
  pub check_transaction-huge_gas :
      (db : Db) (tx : Transaction) (from : Text) (current balance : ℕ)
      → two63 ≤ txs.gas tx
      → txs.gas tx < two64
      → txs.value tx ≤ price_of redis txs decode_account chain_id tx * (two64 - txs.gas tx)
      → txs.sender tx ≡ ok from
      → check_chain redis txs decode_account chain_id (txs.chain_id tx) ≡ ok tt
      → Accounts.get_nonce decode_account (redis.get db) from (text "latest") ≡ ok current
      → current ≤ txs.nonce tx
      → Accounts.get_balance decode_account (redis.get db) from (text "latest") ≡ ok balance
      → check_transaction redis txs decode_account chain_id db tx ≡ ok tt
  unfolding check_transaction
  check_transaction-huge_gas db tx from current balance huge fits cheap signed chain nonce_read
        fresh balance_read =
      let funds : ltbℤ (pos balance) (total_cost redis txs decode_account chain_id tx) ≡ false =
        cost_huge balance (txs.value tx) (price_of redis txs decode_account chain_id tx)
          (txs.gas tx) huge fits cheap in
      rw (
        signed,
        chain,
        nonce_read,
        le→ltb (txs.nonce tx) current fresh,
        balance_read,
        funds,
        le→ltb (txs.gas tx) 21000 (omega arith),
      )
