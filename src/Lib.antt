-- ===== src/Lib.antt =====
-- mm-engine: a market maker that quotes both sides of a few futures over FIX.
--
-- The reader thread of QuickFIX parses each message into a plain record and pushes it to a ring; the
-- strategy thread takes records from its rings, keeps a book and two quotes for each symbol, and
-- pushes order commands; the sender thread takes the commands to the FIX session. A logger and a
-- persister empty two more kinds of ring. No thread shares anything else but counters.
--
--   Base          numbers, words, integers and lists that the other modules share
--   Double        the C++ type double as an interface of constants and operations, with the laws that
--                 some theorems take; Double/Fixed computes with thousandths
--   Events        src/common/events.hpp
--   Config        src/common/config.hpp: the settings here, load in Config/Load, what a key is
--                 given in Config/Settings; stod is a parameter
--   Ring          src/common/spsc_ring.hpp: one call at a time here, the queue it promises in
--                 Ring/Queue, the refinement in Ring/Refine; Ring/Race interleaves the two threads
--   Pool          src/common/object_pool.hpp: an object is its index in the storage
--   Book          src/book/order_book.hpp
--   Oms           src/oms/order_manager.hpp
--   Histogram     src/common/latency_histogram.hpp, whose reports are of the type int64_t; its loop on
--                 the maximum is that of Metrics/Contention
--   Metrics       src/metrics/metrics.hpp; Metrics/Contention has track_max as the atomic actions of
--                 threads that contend for a mark
--   Server        src/metrics/metrics_server.hpp; Prometheus is a parameter
--   Logger        src/common/async_logger.hpp: the file and the writer here, log_record is in Strategy
--   Timestamp     src/common/timestamp.hpp
--   Affinity      src/common/affinity.hpp as built for Linux, with the scheduler as a parameter
--   Fix           src/fix/fix_app.hpp: its table of symbols here, what comes in in Fix/Inbound and
--                 Fix/Dispatch, what goes out and the sender thread of src/main.cpp in Fix/Outbound
--   Strategy      src/strategy/market_maker.hpp: cancel_side and requote here, decide and the loop of
--                 run in Strategy/Loop; Strategy/View is the order protocol that a round keeps to,
--                 Strategy/Fills has what it hands to the logger and the persister, and
--                 Strategy/Threads puts the other threads at the ends of the rings
--   Persister     src/storage/lmdb_persister.hpp: open and run; which calls of LMDB succeed is an
--                 argument
--   Engine        src/main.cpp in live mode: the reader, the strategy and the sender take turns on the
--                 rings and counters that they share; Engine/History goes on to the persister and the
--                 logger
--   Main          src/main.cpp: the choice of the mode and read_password here, run_bench in
--                 Main/Bench
--   Tests         the theorems at concrete inputs
--
-- A function of the source is a function on a state that returns the new state, under the name of
-- the source in antt's spelling (try_push, on_exec, requote, on_snapshot for onMessage on a
-- snapshot). Where the source would access an array out of its bounds, the result is none. Every
-- reading of the clock is an argument. Unsigned integers wrap as in the source.
--
-- Bounds and fuel. A ring has 2 ^ k places; the theorems hold for k up to 62, the engine uses 12 and
-- 14. A round of the strategy takes reports for as long as its fuel lasts; fuel for one turn more
-- than there are reports empties the ring. The persister's loops and
-- the logger's take fuel in the same way. A round of Engine has fuel for one report more than the
-- ring holds. The sender's loop, and the bench's sink, end with the readings of the clock that they
-- are given, one for each command. decimal has fuel for twenty digits, which 2 ^ 64 has. Theorems
-- about threads allow the other threads any step at the ends of the rings between rounds.
--
-- Not modelled: printing; QuickFIX, whose getters' results are the fields of the message records;
-- Prometheus, LMDB and the files themselves, and the text that fprintf makes of a double; signals and
-- the start of threads in src/main.cpp; the clocks; and
-- boost_priority, which is one call of the scheduler. Memory order enters as the order of each
-- thread's actions. Rounding of doubles enters where a theorem names a law that it takes.
pub mod Base
pub mod Book
pub mod Config
pub mod Double
pub mod Engine
pub mod Events
pub mod Fix
pub mod Histogram
pub mod Logger
pub mod Main
pub mod Metrics
pub mod Oms
pub mod Persister
pub mod Pool
pub mod Ring
pub mod Server
pub mod Strategy
pub mod Tests
pub mod Timestamp
pub mod Affinity
