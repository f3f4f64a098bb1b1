-- ===== src/Engine/Identifiers.antt =====
-- The identifiers on the orders and cancellations that the engine of src/main.cpp hands to the
-- session.
use mathlib.Core.List.{append-nil}
use mathlib.Core.Option.{some-injective}
use mm_engine.Base.{
  ◌^◌, ◌<◌, length, ℕ, suc, ◌+◌, ◌≤◌, ◌/◌, ◌*◌, ◌≡◌, sym, subst, Option, none, some, List, [], ◌∷◌,
  ◌++◌, arith, >>=-eq-some, All, u64, u32,
}
use mm_engine.Base.Int.{ℤ}
use mm_engine.Double.{Double}
use mm_engine.Config.{EngineConfig}
use mm_engine.Events.{OrderCmd, MdEvent}
use mm_engine.Metrics.{Metrics}
use mm_engine.Ring.{Ring}
use mm_engine.Ring.Refine.{empty-Represents}
use mm_engine.Strategy.{MarketMaker, ord_bits, exec_bits}
use mm_engine.Strategy.Loop.{round, market_maker}
use mm_engine.Strategy.Threads.{
  Run, start, rounds, reported, quoted, stored, AnyReport, identifiers_in_order,
}
use mm_engine.Fix.{FixApp}
use mm_engine.Fix.Inbound.{
  SnapshotMsg, parse_snapshot, deliver, deliver_if, on_snapshot, on_report, exec_event,
}
use mm_engine.Fix.Dispatch.{Incoming, from_app}
use mm_engine.Fix.Outbound.{Message, send_all, on_logon, on_logout, subscribe_market_data}
use mm_engine.Engine.{
  Engine, Turn, Storage, engine, lend, give_back, with_maker, report_fuel, turn, run_engine,
}
use mm_engine.Engine.Safety.{Admissible, run_engine-total}
use mm_engine.Engine.Ascending.{
  Ascending, Ascending-within, Differ, texts, texts-Differ, Numbered-texts,
}
use mm_engine.Engine.Wire.{finished, Wire, Taken, Wire-append, wire_ids, send_all-Taken}

module _ {W : Type 0} ⦃d : Double W⦄ (cfg : EngineConfig W) where
  -- The strategy and the sender have come from `m` to the state, in at most `most` rounds, and the
  -- session has the messages of the commands that the sender took, less those that were dropped.
  record Reaches (m : MarketMaker W) (most : ℕ) (e : Engine W) : Type 0 where
    n : ℕ
    few : n ≤ most
    taken : List (OrderCmd W)
    run : Run cfg AnyReport m n taken e.maker
    wire : Wire taken e.sent

  -- The counters change, and nothing is handed over.
  counted :
      {m : MarketMaker W} {k : ℕ} {e : Engine W} (maker : MarketMaker W) (app : FixApp W)
      (metrics : Metrics) (r : Reaches m k e)
      → Run cfg AnyReport m r.n r.taken maker
      → Reaches m
          (suc k)
          (record { app = app; maker = record maker { metrics = metrics }; sent = e.sent ++ [] })
  counted {m} {k} {e} maker app metrics r run = record {
    n = r.n;
    few = omega (arith, r.few);
    taken = r.taken;
    run = stored maker.log maker.snaps maker.trades metrics run;
    wire = subst (λ ms. Wire r.taken ms) (sym (append-nil e.sent)) r.wire;
  }

  snapshot-Reaches :
      {m : MarketMaker W} {k : ℕ} {e : Engine W} (now : ℤ) (msg : SnapshotMsg W)
      → Reaches m k e
      → Reaches m (suc k) (give_back e (on_snapshot (lend e) now msg) [])
  unfolding on_snapshot deliver
  snapshot-Reaches {m} {k} {e} now msg r = go (parse_snapshot app now msg)
    where
      app : FixApp W
      app = record (lend e) { md_seq = u32 ((lend e).md_seq + 1) }

      go : (o : Option (MdEvent W)) → Reaches m (suc k) (give_back e (deliver_if app o) [])
      go none = counted e.maker app app.metrics r r.run
      go (some ev) = counted _ (deliver app ev) (deliver app ev).metrics r (quoted ev r.run)

  logon-Reaches :
      {m : MarketMaker W} {k : ℕ} {e : Engine W}
      → Reaches m k e
      → let (messages, app) = on_logon cfg (lend e) in Reaches m (suc k) (give_back e app messages)
  unfolding on_logon subscribe_market_data wire_ids
  logon-Reaches {m} {k} {e} r = record {
    n = r.n;
    few = omega (arith, r.few);
    taken = r.taken;
    run = r.run;
    wire =
        let messages = (on_logon cfg (lend e)).0 in
        subst (λ cs. Wire cs (e.sent ++ messages)) (append-nil r.taken)
          (Wire-append r.taken [] e.sent messages r.wire finished);
  }

  send-Reaches :
      {m : MarketMaker W} {k : ℕ} {e : Engine W} (r : Reaches m k e)
      (sends : List (Message W) × Ring (OrderCmd W) × FixApp W)
      → Taken cfg m r.n e.maker r.taken (lend e) sends
      → Reaches m (suc k) (
          with_maker
            (give_back e sends.2 sends.0)
            (record e.maker { out = sends.1; metrics = sends.2.metrics }))
  send-Reaches {m} {k} {e} r sends t = record {
    n = r.n;
    few = omega (arith, r.few);
    taken = r.taken ++ t.cs;
    run = stored e.maker.log e.maker.snaps e.maker.trades sends.2.metrics t.run;
    wire = Wire-append r.taken t.cs e.sent sends.0 r.wire t.wire;
  }

  turn-Reaches :
      {m : MarketMaker W} {k : ℕ} {e : Engine W} (t : Turn W) {e' : Engine W}
      → Reaches m k e
      → turn cfg e t ≡ some e'
      → Reaches m (suc k) e'
  unfolding turn from_app on_logout on_report
  turn-Reaches {m} {k} {e} (Turn.message now (Incoming.snapshot msg)) r is =
      subst (Reaches m (suc k)) (some-injective _ _ is) (snapshot-Reaches now msg r)
  turn-Reaches {m} {k} {e} (Turn.message now (Incoming.report msg)) r is =
      let app = on_report (lend e) now msg in
      subst (Reaches m (suc k)) (some-injective _ _ is)
        (counted _ app app.metrics r (reported (exec_event (lend e) now msg) tt r.run))
  turn-Reaches {m} {k} {e} (Turn.message now Incoming.other) r is =
      subst (Reaches m (suc k)) (some-injective _ _ is)
        (counted e.maker (lend e) e.maker.metrics r r.run)
  turn-Reaches {m} {k} {e} Turn.logon r is =
      subst (Reaches m (suc k)) (some-injective _ _ is) (logon-Reaches r)
  turn-Reaches {m} {k} {e} Turn.logout r is =
      subst (Reaches m (suc k)) (some-injective _ _ is)
        (counted e.maker (on_logout cfg (lend e)) e.maker.metrics r r.run)
  turn-Reaches {m} {k} {e} (Turn.rounds now) r is =
      let (maker, made, same) = >>=-eq-some (round cfg report_fuel e.maker now) _ is in
      subst (Reaches m (suc k)) (some-injective _ _ same) (record {
        n = suc r.n;
        few = omega (arith, r.few);
        taken = r.taken;
        run = rounds report_fuel now r.run made;
        wire = r.wire;
      })
  turn-Reaches {m} {k} {e} (Turn.send readings) r is =
      let (sends, made, same) = >>=-eq-some (send_all cfg readings e.maker.out (lend e)) _ is in
      subst (Reaches m (suc k)) (some-injective _ _ same) (
        send-Reaches r sends
          (send_all-Taken cfg readings e.maker (lend e) r.taken sends r.run made))
  turn-Reaches {m} {k} {e} (Turn.stored log snaps trades) r is =
      subst (Reaches m (suc k)) (some-injective _ _ is) (record {
        n = r.n;
        few = omega (arith, r.few);
        taken = r.taken;
        run = stored log snaps trades e.maker.metrics r.run;
        wire = r.wire;
      })

  run_engine-Reaches :
      {m : MarketMaker W} {k most : ℕ} (ts : List (Turn W)) {e e' : Engine W}
      → length ts + k ≤ most
      → Reaches m k e
      → run_engine cfg ts e ≡ some e'
      → Reaches m most e'
  unfolding run_engine
  run_engine-Reaches {m} {k} {most} [] le r is =
      subst (Reaches m most) (some-injective _ _ is) (record {
        n = r.n;
        few = omega (arith, le, r.few);
        taken = r.taken;
        run = r.run;
        wire = r.wire;
      })
  run_engine-Reaches {k = k} (t ∷ ts) {e} le r is =
      let (e₁, made, rest) = >>=-eq-some (turn cfg e t) (run_engine cfg ts) is in
      run_engine-Reaches {k = suc k} ts (omega (arith, le)) (turn-Reaches t r made) rest

  -- From what `main` makes in live mode on, in whatever order the threads take their turns, fewer
  -- than 2 ^ 63 of them, if every report names no symbol or one of the first eight of the settings:
  -- no two of the orders and cancellations that the session is handed have the same identifier. In
  -- the order of the hand-over each is the seed that the constructor took from the clock and a
  -- number, modulo 2 ^ 64; the numbers rise and stay below twice the number of turns. That is so
  -- whatever is dropped for want of a session or of room.
  pub identifiers_on_wire :
      (a : Storage W) (metrics : Metrics) (password : List ℕ) (made started : ℕ)
      (ts : List (Turn W))
      → All (Admissible cfg) ts
      → length ts < 2 ^ 63
      → let seed = u64 (made / 1000000 * 1000) in
        (e : Engine W) × (ns : List ℕ) × (run_engine cfg ts
            (engine cfg a metrics password made started)
          ≡ some e)
        × Ascending 0 (2 * length ts) ns
        × (wire_ids e.sent ≡ texts seed ns)
        × Differ (wire_ids e.sent)
  unfolding engine market_maker wire_ids
  identifiers_on_wire a metrics password made started ts ok few =
      let (e, is, _) = run_engine-total cfg a metrics password made started ts ok in
      let r =
        run_engine-Reaches {k = 0} {most = length ts} ts
          {e = engine cfg a metrics password made started} (omega arith)
          (record { n = 0; few = omega arith; taken = []; run = start; wire = finished }) is in
      let (later, hi, low, _, _, n) =
        identifiers_in_order cfg (empty-Represents ord_bits a.command (omega arith))
          (record {
            waiting = [];
            holds = empty-Represents exec_bits a.report (omega arith);
            all_reported = tt;
          })
          (omega arith) r.run in
      let (ns, ascending, same) =
        Numbered-texts (u64 (made / 1000000 * 1000)) 0 hi r.taken later n r.wire in
      let within : Ascending 0 (2 * length ts) ns =
        Ascending-within ns (omega arith) (omega (arith, low, r.few)) ascending in
      (
        e,
        ns,
        is,
        within,
        same,
        subst Differ (sym same) (
            texts-Differ (u64 (made / 1000000 * 1000)) 0 (2 * length ts) ns (omega (arith, few))
              within),
      )
