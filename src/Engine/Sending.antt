-- ===== src/Engine/Sending.antt =====
-- The loop of the sender thread of src/main.cpp, on commands that name symbols of the table.
use mm_engine.Base.{◌≡◌, refl, ◌∙◌, Option, none, some, List, [], ◌∷◌, ◌++◌, arith}
use mm_engine.Base.Int.{ℤ}
use mm_engine.Double.{Double}
use mm_engine.Config.{EngineConfig}
use mm_engine.Events.{OrderCmd}
use mm_engine.Ring.{Ring, try_pop}
use mm_engine.Ring.Elements.{Carries, Given, try_pop-Carries}
use mm_engine.Strategy.{ord_bits}
use mm_engine.Strategy.Listed.{CommandListed}
use mm_engine.Fix.{FixApp}
use mm_engine.Fix.Outbound.{Message, send_all, send_next, forward}
use mm_engine.Fix.Sender
use mm_engine.Fix.Sender.{forward_if-lem}
use mm_engine.Engine.Tables.{Tabled, Tabled-length}

module _ {W : Type 0} ⦃d : Double W⦄ (cfg : EngineConfig W) where
  -- What the loop leaves.
  pub record Sends (app : FixApp W) (o : Option (List (Message W) × Ring (OrderCmd W) × FixApp W))
      : Type 0 where
    pub messages : List (Message W)
    pub out : Ring (OrderCmd W)
    pub after : FixApp W
    pub is : o ≡ some (messages, out, after)
    pub commands : Carries ord_bits CommandListed out
    pub symbols : after.symbols ≡ app.symbols
    pub n_symbols : after.n_symbols ≡ app.n_symbols

  -- One command, or the end of the loop, and then the rest.
  send_next-Sends :
      (p : Option (OrderCmd W) × Ring (OrderCmd W)) (app : FixApp W) (now : ℤ)
      (rest : Ring (OrderCmd W)
        → FixApp W
        → Option (List (Message W) × Ring (OrderCmd W) × FixApp W))
      → Given ord_bits CommandListed p.0
      → Carries ord_bits CommandListed p.1
      → Tabled cfg app
      → ((app₁ : FixApp W)
          → app₁.symbols ≡ app.symbols
          → app₁.n_symbols ≡ app.n_symbols
          → Sends app₁ (rest p.1 app₁))
      → Sends app (send_next cfg p app now rest)
  unfolding forward
  send_next-Sends (none, out) app now rest ok c t more = record {
    messages = [];
    out = out;
    after = app;
    is = refl;
    commands = c;
    symbols = refl;
    n_symbols = refl;
  }
  send_next-Sends (some cmd, out) app now rest ok c t more =
      let (app₁, sent, same, same_n, _) =
        forward_if-lem cfg app.logged_on app cmd now refl
          (omega (arith, ok, Tabled-length cfg app t)) in
      let later = more app₁ same same_n in
      record {
        messages = Sender.messages cfg app.logged_on app.symbols (cmd ∷ []) ++ later.messages;
        out = later.out;
        after = later.after;
        is = rw (sent, later.is) refl;
        commands = later.commands;
        symbols = later.symbols ∙ same;
        n_symbols = later.n_symbols ∙ same_n;
      }

  pub send_all-Sends :
      (readings : List ℤ) (out : Ring (OrderCmd W)) (app : FixApp W)
      → Carries ord_bits CommandListed out
      → Tabled cfg app
      → Sends app (send_all cfg readings out app)
  unfolding send_all
  send_all-Sends [] out app c t = record {
    messages = [];
    out = out;
    after = app;
    is = refl;
    commands = c;
    symbols = refl;
    n_symbols = refl;
  }
  send_all-Sends (now ∷ readings) out app c t =
      let (ok, rest) = try_pop-Carries ord_bits CommandListed c in
      send_next-Sends (try_pop ord_bits out) app now (send_all cfg readings) ok rest t
        (λ app₁ same same_n.
          send_all-Sends readings (try_pop ord_bits out).1 app₁ rest
            (record { symbols = same ∙ t.symbols; n_symbols = same_n ∙ t.n_symbols }))
