-- ===== src/Strategy/Fills.antt =====
-- What the inner loop of `run` in src/strategy/market_maker.hpp hands to the persister and to the
-- logger: every fill among the reports.
use mm_engine.Base.{
  ℕ, zero, suc, ◌-◌, ◌<◌, ◌^◌, ◌≡◌, refl, sym, ap, ◌∙◌, subst, inl, inr, Option, some, List, [],
  ◌∷◌, ◌++◌, map, take, if◌then◌else◌, length, arith, get_elem?-some, set, length-set, ◌>>=◌,
  Bool-cases, All,
}
use mm_engine.Double.{Double}
use mm_engine.Events.{ExecEvent, LogRecord, max_symbols}
use mm_engine.Oms.{OrderManager, report_row, on_exec}
use mm_engine.Ring.Queue
use mm_engine.Ring.{try_pop}
use mm_engine.Ring.Refine.{Represents, try_push_refines}
use mm_engine.Ring.Overflow.{push_all, push_all-take}
use mm_engine.Strategy.{MarketMaker, exec_bits, store_bits, log_bits, log_record}
use mm_engine.Strategy.Loop.{is_fill, fill_log, note_fill, take_report, drain}
use mm_engine.Strategy.Rounds.{drain_empty, drain_more}
use mm_engine.Strategy.Total.{ReportListed, on_exec-total}

module _ {W : Type 0} where
  -- The fills, whole or partial, among reports.
  abbrev pub fills : List (ExecEvent W) → List (ExecEvent W)
  fills [] = []
  fills (e ∷ es) = if is_fill e.kind then e ∷ fills es else fills es

module _ {W : Type 0} ⦃d : Double W⦄ where
  -- The order manager takes reports one after another.
  unfoldable pub on_exec_all : OrderManager W → List (ExecEvent W) → Option (OrderManager W)
  on_exec_all oms [] = some oms
  on_exec_all oms (e ∷ es) = on_exec oms e >>= λ oms'. on_exec_all oms' es

  -- A series of pushes on the ring of trades, and on the ring of log records.
  abbrev stored_all : List (ExecEvent W) → List (ExecEvent W) → List (ExecEvent W)
  stored_all trades es = push_all (2 ^ store_bits) trades es

  abbrev logged_all : List (LogRecord W) → List (ExecEvent W) → List (LogRecord W)
  logged_all logs es = push_all (2 ^ log_bits) logs (map fill_log es)

  -- What `note_fill` leaves of the rings for trades and log records.
  record Noted (m m' : MarketMaker W) (e : ExecEvent W) (trades : List (ExecEvent W))
      (logs : List (LogRecord W)) : Type 0 where
    same_exec : m'.exec ≡ m.exec
    same_oms : m'.oms ≡ m.oms
    trades₁ : List (ExecEvent W)
    logs₁ : List (LogRecord W)
    holds_trades : Represents store_bits m'.trades trades₁
    holds_logs : Represents log_bits m'.log logs₁
    trades_then :
        (es : List (ExecEvent W))
        → stored_all trades (fills (e ∷ es)) ≡ stored_all trades₁ (fills es)
    logs_then :
        (es : List (ExecEvent W)) → logged_all logs (fills (e ∷ es)) ≡ logged_all logs₁ (fills es)

  note_fill-Noted :
      (m : MarketMaker W) (e : ExecEvent W) {trades : List (ExecEvent W)}
      {logs : List (LogRecord W)}
      → Represents store_bits m.trades trades
      → Represents log_bits m.log logs
      → Noted m (note_fill m e) e trades logs
  unfolding note_fill log_record push_all
  note_fill-Noted m e {trades} {logs} rt rl = elim (Bool-cases (is_fill e.kind)) [
    | inl fill ↦ rw fill (record {
      same_exec = refl;
      same_oms = refl;
      trades₁ = (Queue.push (2 ^ store_bits) trades e).1;
      logs₁ = (Queue.push (2 ^ log_bits) logs (fill_log e)).1;
      holds_trades = (try_push_refines store_bits rt e).1;
      holds_logs = (try_push_refines log_bits rl (fill_log e)).1;
      trades_then = λ es. rw fill refl;
      logs_then = λ es. rw fill refl;
    })
    | inr no_fill ↦ rw no_fill (record {
      same_exec = refl;
      same_oms = refl;
      trades₁ = trades;
      logs₁ = logs;
      holds_trades = rt;
      holds_logs = rl;
      trades_then = λ es. rw no_fill refl;
      logs_then = λ es. rw no_fill refl;
    })
  ]

  -- What the inner loop leaves.
  pub record Recorded (oms : OrderManager W) (reports : List (ExecEvent W))
      (trades : List (ExecEvent W)) (logs : List (LogRecord W)) (o : Option (MarketMaker W))
      : Type 0 where
    pub after : MarketMaker W
    pub is : o ≡ some after
    pub orders : on_exec_all oms reports ≡ some after.oms
    pub no_reports : Represents exec_bits after.exec []
    pub stored : Represents store_bits after.trades trades
    pub logged : Represents log_bits after.log logs

  drain-pushes :
      (fuel : ℕ) (m : MarketMaker W) {trades : List (ExecEvent W)} {logs : List (LogRecord W)}
      (reports : List (ExecEvent W))
      → Represents exec_bits m.exec reports
      → Represents store_bits m.trades trades
      → Represents log_bits m.log logs
      → All ReportListed reports
      → length m.oms ≡ max_symbols
      → length reports < fuel
      → Recorded m.oms reports
          (stored_all trades (fills reports))
          (logged_all logs (fills reports))
          (drain fuel m)
  unfolding on_exec_all push_all take_report
  drain-pushes zero m reports re rt rl a n h = absurd (omega arith)
  drain-pushes (suc fuel) m [] re rt rl a n h =
      let (same, after) = drain_empty fuel m re in
      record {
        after = record m { exec = (try_pop exec_bits m.exec).1 };
        is = same;
        orders = refl;
        no_reports = after;
        stored = rt;
        logged = rl;
      }
  drain-pushes (suc fuel) m {trades} {logs} (e ∷ reports) re rt rl (ok, a) n h =
      let (same, after) = drain_more fuel m reports re in
      let (row, at) = get_elem?-some m.oms e.symbol_id (omega (arith, n)) in
      let oms : OrderManager W = set m.oms e.symbol_id (report_row e row) in
      let m₀ : MarketMaker W = record m { exec = (try_pop exec_bits m.exec).1 } in
      let m₁ : MarketMaker W = record m₀ { oms = oms } in
      let taken : on_exec m.oms e ≡ some oms = on_exec-total m.oms e at in
      let noted = note_fill-Noted m₁ e rt rl in
      let rest =
        drain-pushes fuel (note_fill m₁ e) reports
          (subst (λ ring. Represents exec_bits ring reports) (sym noted.same_exec) after)
          noted.holds_trades noted.holds_logs a
          (ap length noted.same_oms ∙ (length-set m.oms e.symbol_id (report_row e row) ∙ n))
          (omega arith) in
      record {
        after = rest.after;
        is =
            same
            ∙ (ap (λ o. (o >>= λ t. some (note_fill (record m₀ { oms = t }) e)) >>= drain fuel)
                  taken
                ∙ rest.is);
        orders =
            ap (λ o. o >>= λ t. on_exec_all t reports) taken
            ∙ (ap (λ t. on_exec_all t reports) (sym noted.same_oms) ∙ rest.orders);
        no_reports = rest.no_reports;
        stored =
            subst (Represents store_bits rest.after.trades) (sym (noted.trades_then reports))
              rest.stored;
        logged =
            subst (Represents log_bits rest.after.log) (sym (noted.logs_then reports)) rest.logged;
      }

  -- When the reports that wait name symbols of the table, and there is fuel for one turn more than
  -- there are reports, the inner loop of `run` gives each report to the order manager, in order, and
  -- hands every fill among them, whole or partial, to the persister and a record of it to the
  -- logger, in order, as many as their rings have room for; what finds a ring full is lost to it.
  pub drain-Recorded :
      (fuel : ℕ) (m : MarketMaker W) (reports trades : List (ExecEvent W))
      (logs : List (LogRecord W))
      → Represents exec_bits m.exec reports
      → Represents store_bits m.trades trades
      → Represents log_bits m.log logs
      → All ReportListed reports
      → length m.oms ≡ max_symbols
      → length reports < fuel
      → Recorded m.oms reports
          (trades ++ take (2 ^ store_bits - length trades) (fills reports))
          (logs ++ take (2 ^ log_bits - length logs) (map fill_log (fills reports)))
          (drain fuel m)
  drain-Recorded fuel m reports trades logs re rt rl a n h =
      let records : List (LogRecord W) =
        logs ++ take (2 ^ log_bits - length logs) (map fill_log (fills reports)) in
      subst (λ ts. Recorded m.oms reports ts records (drain fuel m))
        (push_all-take (2 ^ store_bits) trades (fills reports))
        (subst (λ ls. Recorded m.oms reports (stored_all trades (fills reports)) ls (drain fuel m))
          (push_all-take (2 ^ log_bits) logs (map fill_log (fills reports)))
          (drain-pushes fuel m reports re rt rl a n h))
