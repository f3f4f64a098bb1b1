-- ===== src/Engine/Wire.antt =====
-- The sender thread of src/main.cpp: what it takes from the ring of orders, and the identifiers on
-- what it hands to the session.
use mathlib.Core.List.{append_assoc, append-nil}
use mathlib.Core.Option.{some-injective}
use mm_engine.Base.{
  ℕ, ◌≡◌, refl, sym, ap, ◌∙◌, subst, Bool, true, false, Option, none, some, List, [], ◌∷◌, ◌++◌,
  map, >>=-eq-some, get_elem?,
}
use mm_engine.Base.Int.{ℤ}
use mm_engine.Double.{Double}
use mm_engine.Config.{EngineConfig}
use mm_engine.Events.{OrderCmd, OrdCmdType}
use mm_engine.Ring.{Ring, try_pop}
use mm_engine.Strategy.{MarketMaker, ord_bits}
use mm_engine.Strategy.Threads.{Run, sender, to_list, AnyReport}
use mm_engine.Fix.{FixApp}
use mm_engine.Fix.Outbound.{
  Message, decimal, send_as, send_order_cmd, forward_if, forward, send_next, send_all,
}

-- What is left of a list when some of its elements are dropped.
pub data Subsequence {A : Type 0} : List A → List A → Type 0 where
  finished : Subsequence [] []
  dropped : {x : A} {xs ys : List A} → Subsequence xs ys → Subsequence (x ∷ xs) ys
  kept : {x : A} {xs ys : List A} → Subsequence xs ys → Subsequence (x ∷ xs) (x ∷ ys)

Subsequence-append :
    {A : Type 0} {xs ys us vs : List A}
    → Subsequence xs ys
    → Subsequence us vs
    → Subsequence (xs ++ us) (ys ++ vs)
Subsequence-append finished t = t
Subsequence-append (dropped s) t = dropped (Subsequence-append s t)
Subsequence-append (kept s) t = kept (Subsequence-append s t)

module _ {W : Type 0} where
  -- The `ClOrdID` of a message, if it is an order or a cancellation.
  abbrev id_text : Message W → List (List ℕ)
  id_text (Message.order o) = o.cl_ord_id ∷ []
  id_text (Message.cancel c) = c.cl_ord_id ∷ []
  id_text (Message.subscribe r) = []

  unfoldable pub wire_ids : List (Message W) → List (List ℕ)
  wire_ids [] = []
  wire_ids (m ∷ ms) = id_text m ++ wire_ids ms

  -- The identifiers of commands, as text.
  abbrev pub command_ids : List (OrderCmd W) → List (List ℕ)
  command_ids cs = map (λ (c : OrderCmd W). decimal c.cl_ord_id) cs

  pub wire_ids-append :
      (ms ns : List (Message W)) → wire_ids (ms ++ ns) ≡ wire_ids ms ++ wire_ids ns
  unfolding wire_ids
  wire_ids-append [] ns = refl
  wire_ids-append (m ∷ ms) ns =
      ap (λ t. id_text m ++ t) (wire_ids-append ms ns)
      ∙ sym (append_assoc (id_text m) (wire_ids ms) (wire_ids ns))

  command_ids-append :
      (cs ds : List (OrderCmd W)) → command_ids (cs ++ ds) ≡ command_ids cs ++ command_ids ds
  command_ids-append [] ds = refl
  command_ids-append (c ∷ cs) ds = ap (λ t. decimal c.cl_ord_id ∷ t) (command_ids-append cs ds)

  -- The messages of some commands, less those that were dropped.
  abbrev pub Wire : List (OrderCmd W) → List (Message W) → Type 0
  Wire cs ms = Subsequence (command_ids cs) (wire_ids ms)

  pub Wire-append :
      (cs ds : List (OrderCmd W)) (ms ns : List (Message W))
      → Wire cs ms
      → Wire ds ns
      → Wire (cs ++ ds) (ms ++ ns)
  Wire-append cs ds ms ns s t =
      rw (command_ids-append cs ds, wire_ids-append ms ns) (Subsequence-append s t)

module _ {W : Type 0} ⦃d : Double W⦄ (cfg : EngineConfig W) where
  -- The reader's rings, which the sender leaves alone.
  abbrev pub SameRings : FixApp W → FixApp W → Type 0
  SameRings app app' = (app'.md ≡ app.md) × (app'.exec ≡ app.exec)

  send_as-Wire :
      (t : OrdCmdType) (app : FixApp W) (c : OrderCmd W) (symbol : List ℕ) (now : ℤ)
      → let (m, app') = send_as cfg t app c symbol now in
        Wire (c ∷ []) (m ∷ []) × SameRings app app'
  unfolding send_as wire_ids
  send_as-Wire OrdCmdType.new app c symbol now = (kept finished, (refl, refl))
  send_as-Wire OrdCmdType.cancel app c symbol now = (kept finished, (refl, refl))

  forward_if-Wire :
      (b : Bool) (app : FixApp W) (c : OrderCmd W) (now : ℤ) (r : List (Message W) × FixApp W)
      → forward_if cfg b app c now ≡ some r
      → Wire (c ∷ []) r.0 × SameRings app r.1
  unfolding send_order_cmd wire_ids
  forward_if-Wire true app c now r e =
      let (sent, is, same) = >>=-eq-some (send_order_cmd cfg app c now) _ e in
      let (symbol, _, made) = >>=-eq-some (get_elem? app.symbols c.symbol_id) _ is in
      subst (λ (out : List (Message W) × FixApp W). Wire (c ∷ []) out.0 × SameRings app out.1)
        (some-injective _ _ same)
        (subst (λ (out : Message W × FixApp W). Wire (c ∷ []) (out.0 ∷ []) × SameRings app out.1)
          (some-injective _ _ made) (send_as-Wire c.type app c symbol now))
  forward_if-Wire false app c now r e =
      subst (λ (out : List (Message W) × FixApp W). Wire (c ∷ []) out.0 × SameRings app out.1)
        (some-injective _ _ e) (dropped finished, (refl, refl))

  -- What the sender's loop takes, and what it hands over.
  pub record Taken (m : MarketMaker W) (n : ℕ) (a : MarketMaker W) (ts : List (OrderCmd W))
      (app : FixApp W) (r : List (Message W) × Ring (OrderCmd W) × FixApp W) : Type 0 where
    pub cs : List (OrderCmd W)
    pub run : Run cfg AnyReport m n (ts ++ cs) (record a { out = r.1 })
    pub wire : Wire cs r.0
    pub same : SameRings app r.2

  -- Nothing.
  ended :
      {m : MarketMaker W} {n : ℕ} {ts : List (OrderCmd W)} (a : MarketMaker W) (app : FixApp W)
      (out : Ring (OrderCmd W))
      → Run cfg AnyReport m n (ts ++ []) (record a { out = out })
      → Taken m n a ts app ([], out, app)
  unfolding wire_ids
  ended a app out run = record { cs = []; run = run; wire = finished; same = (refl, refl) }

  -- One command, or the end of the loop, and then the rest.
  send_next-Taken :
      {m : MarketMaker W} {n : ℕ} (o : Option (OrderCmd W)) (left : Ring (OrderCmd W))
      (a : MarketMaker W) (app : FixApp W) (now : ℤ) (ts : List (OrderCmd W))
      (rest : Ring (OrderCmd W)
        → FixApp W
        → Option (List (Message W) × Ring (OrderCmd W) × FixApp W))
      (r : List (Message W) × Ring (OrderCmd W) × FixApp W)
      → Run cfg AnyReport m n (ts ++ to_list o) (record a { out = left })
      → ((app₁ : FixApp W) (ts₁ : List (OrderCmd W))
            (r₁ : List (Message W) × Ring (OrderCmd W) × FixApp W)
          → Run cfg AnyReport m n ts₁ (record a { out = left })
          → rest left app₁ ≡ some r₁
          → Taken m n (record a { out = left }) ts₁ app₁ r₁)
      → send_next cfg (o, left) app now rest ≡ some r
      → Taken m n a ts app r
  unfolding forward
  send_next-Taken {m} {n} none left a app now ts rest r run more e =
      subst (Taken m n a ts app) (some-injective _ _ e) (ended a app left run)
  send_next-Taken {m} {n} (some c) left a app now ts rest r run more e =
      let (first, is, then) = >>=-eq-some (forward cfg app c now) _ e in
      let (later, is', same) = >>=-eq-some (rest left first.1) _ then in
      let (wire, (md, exec)) = forward_if-Wire app.logged_on app c now first is in
      let taken = more first.1 (ts ++ c ∷ []) later run is' in
      subst (Taken m n a ts app) (some-injective _ _ same) (record {
        cs = c ∷ taken.cs;
        run =
            subst (λ us. Run cfg AnyReport m n us (record a { out = later.1 }))
              (append_assoc ts (c ∷ []) taken.cs) taken.run;
        wire = Wire-append (c ∷ []) taken.cs first.0 later.0 wire taken.wire;
        same = (taken.same.0 ∙ md, taken.same.1 ∙ exec);
      })

  pub send_all-Taken :
      {m : MarketMaker W} {n : ℕ} (readings : List ℤ) (a : MarketMaker W) (app : FixApp W)
      (ts : List (OrderCmd W)) (r : List (Message W) × Ring (OrderCmd W) × FixApp W)
      → Run cfg AnyReport m n ts a
      → send_all cfg readings a.out app ≡ some r
      → Taken m n a ts app r
  unfolding send_all
  send_all-Taken {m} {n} [] a app ts r run e =
      subst (Taken m n a ts app) (some-injective _ _ e)
        (ended a app a.out (subst (λ cs. Run cfg AnyReport m n cs a) (sym (append-nil ts)) run))
  send_all-Taken {m} {n} (now ∷ readings) a app ts r run e =
      send_next-Taken (try_pop ord_bits a.out).0 (try_pop ord_bits a.out).1 a app now ts
        (send_all cfg readings) r (sender run)
        (λ app₁. send_all-Taken readings (record a { out = (try_pop ord_bits a.out).1 }) app₁) e
