-- ===== src/Engine/Tables.antt =====
-- The table of symbols of src/fix/fix_app.hpp, and what names a symbol of it.
use mathlib.Core.Path.{ap₂}
use mm_engine.Base.{
  ℕ, ◌+◌, ◌<◌, ◌≡◌, refl, sym, ap, ◌∙◌, inl, inr, Option, none, some, List, [], ◌∷◌, arith,
  >>=-eq-some, length, get_elem?, replicate, u32, min, length-replicate, length-set, Bool-cases,
  ltb, set,
}
use mm_engine.Base.Int.{ℤ}
use mm_engine.Double.{Double}
use mm_engine.Config.{EngineConfig}
use mm_engine.Events.{MdEvent, ExecEvent, max_symbols}
use mm_engine.Metrics.{Metrics}
use mm_engine.Ring.{Ring}
use mm_engine.Strategy.Total.{ReportListed, SnapshotListed}
use mm_engine.Fix.{FixApp, fix_app, copy_symbols, scan, symbol_id}
use mm_engine.Fix.Symbols.{symbol_id_sound, symbol_id-first}
use mm_engine.Fix.Inbound.{SnapshotMsg, ExecMsg, parse_snapshot, known, exec_event, symbol_of}
use mm_engine.Fix.Levels.{parse_snapshot-levels}

module _ {W : Type 0} ⦃d : Double W⦄ (cfg : EngineConfig W) where
  -- The table of symbols is the one that the constructor filled.
  pub record Tabled (app : FixApp W) : Type 0 where
    pub symbols : app.symbols ≡ copy_symbols 0 cfg.symbols (replicate max_symbols [])
    pub n_symbols : app.n_symbols ≡ u32 (min (length cfg.symbols) max_symbols)

  -- The report names no symbol, or one of the first eight of the settings.
  abbrev pub NamesKnown : Option (List ℕ) → Type 0
  NamesKnown none = Unit
  NamesKnown (some s) = (k : ℕ) × (k < max_symbols) × (get_elem? cfg.symbols k ≡ some s)

  -- An application with that table finds what the constructed one finds.
  Tabled-symbol_id :
      (app : FixApp W) (md : Ring (MdEvent W)) (exec : Ring (ExecEvent W)) (metrics : Metrics)
      (s : List ℕ)
      → Tabled app
      → symbol_id (fix_app cfg md exec metrics) s ≡ symbol_id app s
  unfolding symbol_id fix_app
  Tabled-symbol_id app md exec metrics s t =
      ap₂ (λ n xs. scan n 0 xs s) (sym t.n_symbols) (sym t.symbols)

  pub parse_snapshot-SnapshotListed :
      (app : FixApp W) (t0 : ℤ) (msg : SnapshotMsg W) (ev : MdEvent W)
      → Tabled app
      → parse_snapshot app t0 msg ≡ some ev
      → SnapshotListed ev
  unfolding parse_snapshot
  parse_snapshot-SnapshotListed app t0 msg ev t is =
      let (s, es, rest) = >>=-eq-some msg.symbol _ is in
      let (id, known_id, rest') = >>=-eq-some (known (symbol_id app s)) _ rest in
      let (n, en, _) = >>=-eq-some msg.count _ rest' in
      let (named, ours, _, _, _, _) = parse_snapshot-levels app t0 msg s n ev es en is in
      elim (symbol_id_sound cfg app.md app.exec app.metrics s) [
        | inl nowhere ↦
            absurd (
              ours (named ∙ (sym (Tabled-symbol_id app app.md app.exec app.metrics s t) ∙ nowhere)))
        | inr (listed, _) ↦
            omega (arith, named, Tabled-symbol_id app app.md app.exec app.metrics s t, listed)
      ]

  pub exec_event-ReportListed :
      (app : FixApp W) (now : ℤ) (msg : ExecMsg W)
      → Tabled app
      → NamesKnown msg.symbol
      → ReportListed (exec_event app now msg)
  unfolding exec_event
  exec_event-ReportListed app now msg t k = go msg.symbol k
    where
      go : (o : Option (List ℕ)) → NamesKnown o → symbol_of app o < max_symbols
      go none k = omega arith
      go (some s) (i, lt, found) = omega (
        arith,
        (symbol_id-first cfg app.md app.exec app.metrics s i lt found).0,
        Tabled-symbol_id app app.md app.exec app.metrics s t,
      )

  length-copy_symbols :
      (i : ℕ) (from to : List (List ℕ)) → length (copy_symbols i from to) ≡ length to
  length-copy_symbols i [] to = refl
  length-copy_symbols i (s ∷ from) to = elim (Bool-cases (ltb i max_symbols)) [
    | inl room ↦ rw room (length-copy_symbols (i + 1) from (set to i s) ∙ length-set to i s)
    | inr full ↦ rw full refl
  ]

  pub Tabled-length : (app : FixApp W) → Tabled app → length app.symbols ≡ max_symbols
  Tabled-length app t =
      ap length t.symbols
      ∙ (length-copy_symbols 0 cfg.symbols (replicate max_symbols [])
          ∙ length-replicate {A = List ℕ} max_symbols [])
