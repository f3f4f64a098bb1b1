-- ===== src/Fix/Outbound.antt =====
-- src/fix/fix_app.hpp: the session, the market data request and the sender's messages; and the
-- sender thread of src/main.cpp. A message is a record of the fields that the code sets on it.
use mm_engine.Base.{
  ℕ, zero, suc, ◌+◌, ◌/◌, ◌%◌, Bool, true, false, Option, none, some, List, [], ◌∷◌, ◌++◌, ◌==◌,
  ◌>>=◌, if◌then◌else◌, u64, get_elem?,
}
use mm_engine.Base.Int.{ℤ, ◌-ℤ◌}
use mm_engine.Events.{OrderCmd, OrdCmdType, OrdSide, buy}
use mm_engine.Config.{EngineConfig}
use mm_engine.Histogram.{record_latency}
use mm_engine.Ring.{Ring, try_pop}
use mm_engine.Strategy.{ord_bits}
use mm_engine.Fix.{FixApp}
use mm_engine.Fix.Inbound.{EntryType}

-- The digits of `n` in base ten before `acc`, for a number of at most `fuel` digits.
unfoldable pub digits_of : (fuel : ℕ) → ℕ → List ℕ → List ℕ
digits_of zero n acc = acc
digits_of (suc fuel) n acc =
    let rest = digits_of fuel (n / 10) ((48 + n % 10) ∷ acc) in
    if n / 10 == 0 then (48 + n % 10) ∷ acc else rest

-- `snprintf` with `%llu`: 2 ^ 64 has twenty digits, so the buffer of 24 holds them all.
unfoldable pub decimal : ℕ → List ℕ
decimal n = digits_of 20 n []

-- "ROFX"
abbrev pub rofx : List ℕ
rofx = 82 ∷ 79 ∷ 70 ∷ 88 ∷ []

-- `Side_BUY` for `Buy` and `Side_SELL` for any other value.
abbrev pub is_buy : OrdSide → Bool
is_buy buy = true
is_buy _ = false

pub record NewOrderSingle (W : Type 0) : Type 0 where
  pub cl_ord_id : List ℕ
  pub is_buy : Bool
  pub account : List ℕ
  pub symbol : List ℕ
  pub exchange : List ℕ
  pub qty : W
  pub price : W

pub record OrderCancelRequest (W : Type 0) : Type 0 where
  pub cl_ord_id : List ℕ
  pub orig_cl_ord_id : List ℕ
  pub is_buy : Bool
  pub account : List ℕ
  pub symbol : List ℕ
  pub exchange : List ℕ
  pub qty : W

pub record MarketDataRequest : Type 0 where
  pub depth : ℤ
  pub entry_types : List EntryType
  pub symbols : List (List ℕ × List ℕ)

pub data Message (W : Type 0) : Type 0 where
  order : NewOrderSingle W → Message W
  cancel : OrderCancelRequest W → Message W
  subscribe : MarketDataRequest → Message W

-- The groups of the first `n` symbols.
abbrev pub related : (n : ℕ) → List (List ℕ) → List (List ℕ × List ℕ)
related zero symbols = []
related (suc n) [] = []
related (suc n) (s ∷ symbols) = (s, rofx) ∷ related n symbols

module _ {W : Type 0} (cfg : EngineConfig W) where
  -- `subscribe_market_data`; the fields that hold a constant of QuickFIX are left out.
  unfoldable pub subscribe_market_data : FixApp W → Message W
  subscribe_market_data app = Message.subscribe (record {
    depth = cfg.book_depth;
    entry_types = EntryType.bid ∷ EntryType.offer ∷ EntryType.trade ∷ [];
    symbols = related app.n_symbols app.symbols;
  })

  unfoldable pub on_create : FixApp W → List ℕ → FixApp W
  on_create app sid = record app { session_id = sid }

  unfoldable pub on_logon : FixApp W → List (Message W) × FixApp W
  on_logon app =
      let app' = record app { logged_on = true } in (subscribe_market_data app' ∷ [], app')

  unfoldable pub on_logout : FixApp W → FixApp W
  on_logout app = record app { logged_on = false }

  -- `toAdmin`: the user and the password that go on a message, which a logon alone gets.
  unfoldable pub to_admin : FixApp W → (is_logon : Bool) → Option (List ℕ × List ℕ)
  to_admin app is_logon = if is_logon then some (cfg.sender, app.password) else none

  unfoldable pub set_password : FixApp W → List ℕ → FixApp W
  set_password app pw = record app { password = pw }

  abbrev pub order_message : OrderCmd W → (symbol : List ℕ) → Message W
  order_message c symbol = Message.order (record {
    cl_ord_id = decimal c.cl_ord_id;
    is_buy = is_buy c.side;
    account = cfg.account;
    symbol = symbol;
    exchange = rofx;
    qty = c.qty;
    price = c.price;
  })

  abbrev pub cancel_message : OrderCmd W → (symbol : List ℕ) → Message W
  cancel_message c symbol = Message.cancel (record {
    cl_ord_id = decimal c.cl_ord_id;
    orig_cl_ord_id = decimal c.orig_cl_ord_id;
    is_buy = is_buy c.side;
    account = cfg.account;
    symbol = symbol;
    exchange = rofx;
    qty = c.qty;
  })

  -- The two branches of `send_order_cmd`, on the clock's reading `now` after the message is sent.
  unfoldable pub send_as :
      OrdCmdType → FixApp W → OrderCmd W → List ℕ → (now : ℤ) → Message W × FixApp W
  send_as OrdCmdType.new app c symbol now = (
    order_message c symbol,
    record app {
      metrics = record app.metrics {
        tick_to_trade = record_latency app.metrics.tick_to_trade (now -ℤ c.t_md_ns);
        orders_sent_total = u64 (app.metrics.orders_sent_total + 1);
      };
    },
  )
  send_as OrdCmdType.cancel app c symbol now = (
    cancel_message c symbol,
    record app {
      metrics = record app.metrics {
        cancels_sent_total = u64 (app.metrics.cancels_sent_total + 1);
      };
    },
  )

  -- `none` where the symbol is outside the array.
  unfoldable pub send_order_cmd : FixApp W → OrderCmd W → (now : ℤ) → Option (Message W × FixApp W)
  send_order_cmd app c now = do
    symbol ← get_elem? app.symbols c.symbol_id
    some (send_as c.type app c symbol now)

  -- What the sender thread does with a command that it has popped: one popped while the session is
  -- not logged on is dropped.
  abbrev pub forward_if :
      Bool → FixApp W → OrderCmd W → (now : ℤ) → Option (List (Message W) × FixApp W)
  forward_if true app c now = do sent ← send_order_cmd app c now; some (sent.0 ∷ [], sent.1)
  forward_if false app c now = some ([], app)

  unfoldable pub forward : FixApp W → OrderCmd W → (now : ℤ) → Option (List (Message W) × FixApp W)
  forward app c now = forward_if app.logged_on app c now

  abbrev pub send_next :
      Option (OrderCmd W) × Ring (OrderCmd W)
      → FixApp W
      → ℤ
      → (Ring (OrderCmd W) → FixApp W → Option (List (Message W) × Ring (OrderCmd W) × FixApp W))
      → Option (List (Message W) × Ring (OrderCmd W) × FixApp W)
  send_next (none, out) app now rest = some ([], out, app)
  send_next (some c, out) app now rest = do
    (sent, app') ← forward app c now
    (later, out', app'') ← rest out app'
    some (sent ++ later, out', app'')

  -- The loop `while (out.try_pop(c))` of the sender thread, which reads the clock once for each
  -- command and stops when `readings` run out.
  unfoldable pub send_all :
      (readings : List ℤ)
      → Ring (OrderCmd W)
      → FixApp W
      → Option (List (Message W) × Ring (OrderCmd W) × FixApp W)
  send_all [] out app = some ([], out, app)
  send_all (now ∷ readings) out app = send_next (try_pop ord_bits out) app now (send_all readings)
