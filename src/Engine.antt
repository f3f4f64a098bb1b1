-- ===== src/Engine.antt =====
-- The threads of src/main.cpp in live mode on the state that they share: the reader, the strategy and
-- the sender take turns. The reader's application and the strategy have the same rings and metrics.
pub mod Tables
pub mod Sending
pub mod Safety
pub mod Wire
pub mod Ascending
pub mod Identifiers
pub mod History
use mm_engine.Base.{ℕ, ◌+◌, ◌^◌, Option, some, List, [], ◌∷◌, ◌++◌, ◌>>=◌}
use mm_engine.Base.Int.{ℤ}
use mm_engine.Double.{Double}
use mm_engine.Config.{EngineConfig}
use mm_engine.Events.{MdEvent, OrderCmd, LogRecord, BookSnapshot, ExecEvent}
use mm_engine.Metrics.{Metrics}
use mm_engine.Ring.{Ring, empty}
use mm_engine.Strategy.{MarketMaker, Readings, exec_bits, md_bits, ord_bits, log_bits, store_bits}
use mm_engine.Strategy.Loop.{round, market_maker}
use mm_engine.Fix.{FixApp, fix_app}
use mm_engine.Fix.Dispatch.{Incoming, from_app}
use mm_engine.Fix.Outbound.{Message, on_logon, on_logout, set_password, send_all}

-- `sent` is what the session has been handed. The rings and the metrics are those of `maker`.
pub record Engine (W : Type 0) : Type 0 where
  pub app : FixApp W
  pub maker : MarketMaker W
  pub sent : List (Message W)

-- A turn: a message that comes in, a change of the session, a round of the strategy, the sender's
-- loop for as many commands as there are readings, and what the logger and the persister leave.
pub data Turn (W : Type 0) : Type 0 where
  message : ℤ → Incoming W → Turn W
  logon : Turn W
  logout : Turn W
  rounds : Readings → Turn W
  send : List ℤ → Turn W
  stored : Ring (LogRecord W) → Ring (BookSnapshot W) → Ring (ExecEvent W) → Turn W

module _ {W : Type 0} where
  -- The application with the rings and the metrics as they stand, and back.
  abbrev pub lend : Engine W → FixApp W
  lend e = record e.app { md = e.maker.md; exec = e.maker.exec; metrics = e.maker.metrics }

  abbrev pub give_back : Engine W → FixApp W → List (Message W) → Engine W
  give_back e app messages = record {
    app = app;
    maker = record e.maker { md = app.md; exec = app.exec; metrics = app.metrics };
    sent = e.sent ++ messages;
  }

  abbrev pub with_maker : Engine W → MarketMaker W → Engine W
  with_maker e m = record e { maker = m }

-- What the storage of each ring holds before anything is pushed.
pub record Storage (W : Type 0) : Type 0 where
  pub event : MdEvent W
  pub report : ExecEvent W
  pub command : OrderCmd W
  pub log : LogRecord W
  pub snapshot : BookSnapshot W

-- More turns than the ring of reports holds.
abbrev pub report_fuel : ℕ
report_fuel = 2 ^ exec_bits + 1

module _ {W : Type 0} ⦃d : Double W⦄ (cfg : EngineConfig W) where
  -- What `main` makes in live mode, with the readings of the clock in the strategy's constructor and
  -- at its start.
  unfoldable pub engine : Storage W → Metrics → (password : List ℕ) → (made started : ℕ) → Engine W
  engine a metrics password made started =
      let md = empty md_bits a.event in
      let exec = empty exec_bits a.report in
      record {
        app = set_password cfg (fix_app cfg md exec metrics) password;
        maker =
            market_maker md exec (empty ord_bits a.command) (empty log_bits a.log)
              (empty store_bits a.snapshot) (empty store_bits a.report) metrics made started;
        sent = [];
      }

  unfoldable pub turn : Engine W → Turn W → Option (Engine W)
  turn e (Turn.message now msg) = some (give_back e (from_app (lend e) now msg) [])
  turn e Turn.logon = let (messages, app) = on_logon cfg (lend e) in some (give_back e app messages)
  turn e Turn.logout = some (give_back e (on_logout cfg (lend e)) [])
  turn e (Turn.rounds now) = round cfg report_fuel e.maker now >>= λ m. some (with_maker e m)
  turn e (Turn.send readings) = do
    (messages, out, app) ← send_all cfg readings e.maker.out (lend e)
    some (
        with_maker (give_back e app messages) (record e.maker { out = out; metrics = app.metrics }))
  turn e (Turn.stored log snaps trades) =
      some (with_maker e (record e.maker { log = log; snaps = snaps; trades = trades }))

  unfoldable pub run_engine : List (Turn W) → Engine W → Option (Engine W)
  run_engine [] e = some e
  run_engine (t ∷ ts) e = turn e t >>= run_engine ts
