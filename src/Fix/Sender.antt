-- ===== src/Fix/Sender.antt =====
-- The sender thread of src/main.cpp with `send_order_cmd` of src/fix/fix_app.hpp.
use mm_engine.Base.{
  ℕ, zero, suc, ◌<◌, ◌≤◌, ◌≡◌, refl, sym, ◌∙◌, ap, subst, Bool, true, false, Option, some, List, [],
  ◌∷◌, ◌++◌, map, arith, get_elem?, get_or, length, if◌then◌else◌, All,
}
use mm_engine.Base.Int.{ℤ}
use mm_engine.Config.{EngineConfig}
use mm_engine.Events.{OrderCmd, OrdCmdType}
use mm_engine.Ring.Queue
use mm_engine.Ring.{Ring, try_pop}
use mm_engine.Ring.Refine.{Represents, try_pop_refines}
use mm_engine.Strategy.{ord_bits}
use mm_engine.Fix.{FixApp}
use mm_engine.Fix.Outbound.{
  Message, order_message, cancel_message, send_as, send_order_cmd, forward_if, forward, send_next,
  send_all,
}

module _ {W : Type 0} (cfg : EngineConfig W) where
  -- The message for a command, by its kind.
  abbrev pub message_as : OrdCmdType → OrderCmd W → List ℕ → Message W
  message_as OrdCmdType.new c symbol = order_message cfg c symbol
  message_as OrdCmdType.cancel c symbol = cancel_message cfg c symbol

  abbrev pub message_of : List (List ℕ) → OrderCmd W → Message W
  message_of symbols c = message_as c.type c (get_or symbols c.symbol_id [])

  -- What the sender hands to the session for the commands of a queue.
  abbrev pub messages : (logged_on : Bool) → List (List ℕ) → List (OrderCmd W) → List (Message W)
  messages logged_on symbols q = if logged_on then map (message_of symbols) q else []

  -- The command's symbol is in the table.
  abbrev pub CmdListed : List (List ℕ) → OrderCmd W → Type 0
  CmdListed symbols c = c.symbol_id < length symbols

  send_as-lem :
      (t : OrdCmdType) (app : FixApp W) (c : OrderCmd W) (symbol : List ℕ) (now : ℤ)
      → let (m, app') = send_as cfg t app c symbol now in
        (m ≡ message_as t c symbol)
        × (app'.symbols ≡ app.symbols)
        × (app'.n_symbols ≡ app.n_symbols)
        × (app'.logged_on ≡ app.logged_on)
  unfolding send_as
  send_as-lem OrdCmdType.new app c symbol now = (refl, refl, refl, refl)
  send_as-lem OrdCmdType.cancel app c symbol now = (refl, refl, refl, refl)

  get_or-lem : (xs : List (List ℕ)) (i : ℕ) → i < length xs → get_elem? xs i ≡ some (get_or xs i [])
  get_or-lem [] i h = absurd (omega arith)
  get_or-lem (x ∷ xs) zero h = refl
  get_or-lem (x ∷ xs) (suc i) h = get_or-lem xs i (omega arith)

  pub forward_if-lem :
      (b : Bool) (app : FixApp W) (c : OrderCmd W) (now : ℤ)
      → app.logged_on ≡ b
      → CmdListed app.symbols c
      → (app' : FixApp W) × (forward_if cfg b app c now
          ≡ some (messages b app.symbols (c ∷ []), app'))
        × (app'.symbols ≡ app.symbols)
        × (app'.n_symbols ≡ app.n_symbols)
        × (app'.logged_on ≡ b)
  unfolding send_order_cmd
  forward_if-lem true app c now on h =
      let symbol : List ℕ = get_or app.symbols c.symbol_id [] in
      let (sent, symbols, count, logged) = send_as-lem c.type app c symbol now in
      (
        (send_as cfg c.type app c symbol now).1,
        rw (get_or-lem app.symbols c.symbol_id h, sent) refl,
        symbols,
        count,
        logged ∙ on,
      )
  forward_if-lem false app c now off h = (app, refl, refl, refl, off)

  messages-cons :
      (b : Bool) (symbols : List (List ℕ)) (c : OrderCmd W) (q : List (OrderCmd W))
      → messages b symbols (c ∷ []) ++ messages b symbols q ≡ messages b symbols (c ∷ q)
  messages-cons true symbols c q = refl
  messages-cons false symbols c q = refl

  messages-nil : (b : Bool) (symbols : List (List ℕ)) → messages b symbols [] ≡ []
  messages-nil true symbols = refl
  messages-nil false symbols = refl

  step :
      (out : Ring (OrderCmd W)) (app : FixApp W) (c : OrderCmd W) (now : ℤ)
      (rest : Ring (OrderCmd W)
        → FixApp W
        → Option (List (Message W) × Ring (OrderCmd W) × FixApp W))
      {ms later : List (Message W)} {out' : Ring (OrderCmd W)} {app₁ app' : FixApp W}
      → forward cfg app c now ≡ some (ms, app₁)
      → rest out app₁ ≡ some (later, out', app')
      → send_next cfg (some c, out) app now rest ≡ some (ms ++ later, out', app')
  step out app c now rest e e' = rw (e, e') refl

  send_all-lem :
      (b : Bool) (symbols : List (List ℕ)) (readings : List ℤ) (out : Ring (OrderCmd W))
      (app : FixApp W) (q : List (OrderCmd W))
      → app.logged_on ≡ b
      → app.symbols ≡ symbols
      → Represents ord_bits out q
      → All (CmdListed symbols) q
      → length q ≤ length readings
      → (out' : Ring (OrderCmd W)) × (app' : FixApp W) × (send_all cfg readings out app
          ≡ some (messages b symbols q, out', app'))
        × Represents ord_bits out' []
  unfolding send_all Queue.pop forward
  send_all-lem b symbols [] out app [] on same r a h =
      (out, app, ap (λ ms. some (ms, out, app)) (sym (messages-nil b symbols)), r)
  send_all-lem b symbols [] out app (c ∷ q) on same r a h = absurd (omega arith)
  send_all-lem b symbols (now ∷ readings) out app [] on same r a h =
      let (nothing, after) = try_pop_refines ord_bits [] r in
      (
        (try_pop ord_bits out).1,
        app,
        ap (λ o. send_next cfg (o, (try_pop ord_bits out).1) app now (send_all cfg readings))
              nothing
            ∙ ap (λ ms. some (ms, (try_pop ord_bits out).1, app)) (sym (messages-nil b symbols)),
        after,
      )
  send_all-lem b symbols (now ∷ readings) out app (c ∷ q) on same r (ok, a) h =
      let (oldest, after) = try_pop_refines ord_bits (c ∷ q) r in
      let (app₁, sent, same₁, _, on₁) =
        forward_if-lem b app c now on (subst (λ t. CmdListed t c) (sym same) ok) in
      let (out', app', rest, emptied) =
        send_all-lem b symbols readings (try_pop ord_bits out).1 app₁ q on₁ (same₁ ∙ same) after a
          (omega arith) in
      (
        out',
        app',
        ap (λ o. send_next cfg (o, (try_pop ord_bits out).1) app now (send_all cfg readings)) oldest
            ∙ (step (try_pop ord_bits out).1 app c now (send_all cfg readings)
                  (ap (λ t. forward_if cfg t app c now) {y = b} on ∙ sent) rest
                ∙ ap (λ ms. some (ms, out', app'))
                    (ap (λ t. messages b t (c ∷ []) ++ messages b symbols q) same
                      ∙ messages-cons b symbols c q)),
        emptied,
      )

  -- When the clock is read at least as often as there are commands in the ring and their symbols
  -- are in the table, the sender's loop empties the ring. Logged on, it hands the message for each
  -- command to the session, in the order of the ring; otherwise it hands over none.
  pub send_all-messages :
      (readings : List ℤ) (out : Ring (OrderCmd W)) (app : FixApp W) (q : List (OrderCmd W))
      → Represents ord_bits out q
      → All (CmdListed app.symbols) q
      → length q ≤ length readings
      → (out' : Ring (OrderCmd W)) × (app' : FixApp W) × (send_all cfg readings out app
          ≡ some (messages app.logged_on app.symbols q, out', app'))
        × Represents ord_bits out' []
  unfolding send_all Queue.pop forward
  send_all-messages readings out app q r a h =
      send_all-lem app.logged_on app.symbols readings out app q refl refl r a h
