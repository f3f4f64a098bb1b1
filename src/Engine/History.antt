-- ===== src/Engine/History.antt =====
-- From the ring of reports to the trade history and the log: the strategy of
-- src/strategy/market_maker.hpp, then the persister of src/storage/lmdb_persister.hpp and the writer
-- of src/common/async_logger.hpp on what it has left in their rings.
use mm_engine.Base.{
  ℕ, ◌<◌, ◌≤◌, ◌^◌, ◌≡◌, refl, subst, Bool, true, false, inl, inr, Option, some, List, [], ◌∷◌,
  ◌++◌, map, length, length-map, take_whole, arith, Bool-cases, All,
}
use mm_engine.Double.{Double}
use mm_engine.Events.{ExecEvent, BookSnapshot, max_symbols}
use mm_engine.Ring.{Ring}
use mm_engine.Ring.Refine.{Represents}
use mm_engine.Strategy.{MarketMaker, exec_bits, store_bits, log_bits}
use mm_engine.Strategy.Loop.{is_fill, fill_log, drain}
use mm_engine.Strategy.Total.{ReportListed}
use mm_engine.Strategy.Fills.{fills, drain-Recorded}
use mm_engine.Persister.{Persister, Look, trade_entry, run_persister}
use mm_engine.Persister.Rounds.{entries}
use mm_engine.Persister.Shutdown.{StoredAll, Begins, run_persister-StoredAll}
use mm_engine.Logger.{AsyncLogger, run_logger}
use mm_engine.Logger.Writer.{WroteAll, run_logger-WroteAll}

-- The last two looks, which read that the engine has stopped.
abbrev off : Look
off = record { running = false; begins = true; begins_late = true }

abbrev pub stopped : List Look
stopped = off ∷ off ∷ []

module _ {W : Type 0} where
  length-fills : (es : List (ExecEvent W)) → length (fills es) ≤ length es
  length-fills [] = omega arith
  length-fills (e ∷ es) = elim (Bool-cases (is_fill e.kind)) [
    | inl fill ↦ rw fill (omega (arith, length-fills es))
    | inr other ↦ rw other (omega (arith, length-fills es))
  ]

  -- The persister with the strategy's ring of trades, and the writer with its ring of records.
  abbrev pub persister_of :
      MarketMaker W → Ring (BookSnapshot W) → (snap_seq trade_seq : ℕ) → Persister W
  persister_of m snaps snap_seq trade_seq = record {
    snaps = snaps;
    trades = m.trades;
    snap_seq = snap_seq;
    trade_seq = trade_seq;
  }

  abbrev pub logger_of : MarketMaker W → Option (List ℕ) → AsyncLogger W
  logger_of m file = record { ring = m.log; file = file }

module _ {W : Type 0} ⦃d : Double W⦄ (fixed : ℕ → W → List ℕ) where
  -- What becomes of some reports.
  pub record Remembered (fuel : ℕ) (m : MarketMaker W) (reports : List (ExecEvent W))
      (snaps : Ring (BookSnapshot W)) (snap_seq trade_seq : ℕ) (file : Option (List ℕ))
      (looks : List Look) (readings : List Bool) : Type 0 where
    pub after : MarketMaker W
    pub is : drain fuel m ≡ some after
    pub history :
        StoredAll
          (entries trade_entry trade_seq (fills reports))
          (run_persister fuel (looks ++ stopped) (persister_of after snaps snap_seq trade_seq))
    pub log :
        WroteAll fixed
          (map fill_log (fills reports))
          (logger_of after file)
          (run_logger fixed fuel (readings ++ false ∷ false ∷ []) (logger_of after file))

  -- When the reports that wait name symbols of the table, the rings of snapshots, trades and log
  -- records are empty, the fills among the reports are no more than the ring of trades holds, and
  -- there is fuel for one turn more than there are reports: after the inner loop of the strategy's
  -- `run`, and once the engine has stopped, the loops of the persister and of the writer end; every
  -- fill has been put in the trade history, in order and under consecutive numbers, if transactions
  -- begin, and the file has the line of every fill, in order. Nothing else is put or written.
  pub fills-Remembered :
      (fuel : ℕ) (m : MarketMaker W) (reports : List (ExecEvent W)) (snaps : Ring (BookSnapshot W))
      (snap_seq trade_seq : ℕ) (file : Option (List ℕ)) (looks : List Look) (readings : List Bool)
      → Represents exec_bits m.exec reports
      → Represents store_bits m.trades []
      → Represents log_bits m.log []
      → Represents store_bits snaps []
      → All ReportListed reports
      → All Begins looks
      → length m.oms ≡ max_symbols
      → length reports < fuel
      → length (fills reports) ≤ 2 ^ store_bits
      → Remembered fuel m reports snaps snap_seq trade_seq file looks readings
  fills-Remembered fuel m reports snaps snap_seq trade_seq file looks readings re rt rl rs a b n h
        room =
      let recorded = drain-Recorded fuel m reports [] [] re rt rl a n h in
      let trades : Represents store_bits recorded.after.trades (fills reports) =
        subst (Represents store_bits recorded.after.trades)
          (take_whole (2 ^ store_bits) (fills reports) room) recorded.stored in
      let logs : Represents log_bits recorded.after.log (map fill_log (fills reports)) =
        subst (Represents log_bits recorded.after.log)
          (take_whole (2 ^ log_bits) (map fill_log (fills reports))
            (omega (arith, room, length-map (fills reports) (fill_log {W = W}))))
          recorded.logged in
      record {
        after = recorded.after;
        is = recorded.is;
        history =
            run_persister-StoredAll fuel looks off off
              (persister_of recorded.after snaps snap_seq trade_seq) [] (fills reports) b
              (refl, refl) refl refl rs trades (omega arith)
              (omega (arith, h, length-fills reports));
        log =
            run_logger-WroteAll fixed fuel readings (logger_of recorded.after file)
              (map fill_log (fills reports)) logs
              (omega
                (arith, h, length-fills reports, length-map (fills reports) (fill_log {W = W})));
      }
