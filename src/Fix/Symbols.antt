-- ===== src/Fix/Symbols.antt =====
-- src/fix/fix_app.hpp: the symbol table, as the constructor fills it and as `symbol_id` reads it.
use mm_engine.Base.{
  ℕ, zero, suc, ◌+◌, ◌≤◌, ◌<◌, min, ◌≡◌, refl, sym, ap, ◌∙◌, ◌⊎◌, inl, inr, some, List, [], ◌∷◌,
  arith, ltb, lt→ltb, Bool-cases, length, set, get_elem?, replicate, length-replicate, length-set,
  get_elem?-set_self, get_elem?-set_ne, get_elem?-lt,
}
use mathlib.Core.Option.{some-injective}
use mm_engine.Config.{EngineConfig}
use mm_engine.Events.{MdEvent, ExecEvent, max_symbols}
use mm_engine.Metrics.{Metrics}
use mm_engine.Ring.{Ring}
use mm_engine.Base.{same_text, same_text_refl, same_text-eq}
use mm_engine.Fix.{copy_symbols, fix_app, scan, symbol_id, no_symbol}

-- The scan gives the first place that holds the symbol, or none.
scan_lem :
    (left i : ℕ) (symbols : List (List ℕ)) (s : List ℕ)
    → (scan left i symbols s ≡ no_symbol)
      ⊎ ((j : ℕ) × (scan left i symbols s ≡ i + j) × (j < left) × (get_elem? symbols j ≡ some s))
unfolding scan
scan_lem zero i symbols s = inl refl
scan_lem (suc left) i [] s = inl refl
scan_lem (suc left) i (x ∷ symbols) s = elim (Bool-cases (same_text x s)) [
  | inl same ↦ rw same (inr (0, omega arith, omega arith, ap some (same_text-eq x s same)))
  | inr apart ↦ rw apart (later (scan_lem left (i + 1) symbols s))
]
  where
    later :
        (scan left (i + 1) symbols s ≡ no_symbol)
          ⊎ ((j : ℕ) × (scan left (i + 1) symbols s ≡ i + 1 + j)
              × (j < left)
              × (get_elem? symbols j ≡ some s))
        → (scan left (i + 1) symbols s ≡ no_symbol)
          ⊎ ((j : ℕ) × (scan left (i + 1) symbols s ≡ i + j)
              × (j < suc left)
              × (get_elem? (x ∷ symbols) j ≡ some s))
    later (inl none_of_them) = inl none_of_them
    later (inr (j, e, inside, found)) = inr (suc j, omega (arith, e), omega arith, found)

scan-le :
    (left i : ℕ) (symbols : List (List ℕ)) (s : List ℕ) (k : ℕ)
    → k < left
    → get_elem? symbols k ≡ some s
    → scan left i symbols s ≤ i + k
unfolding scan
scan-le zero i symbols s k h found = absurd (omega arith)
scan-le (suc left) i [] s k h found = cc
scan-le (suc left) i (x ∷ symbols) s zero h found =
    rw (ap (λ t. same_text t s) (some-injective _ _ found), same_text_refl s) (omega arith)
scan-le (suc left) i (x ∷ symbols) s (suc k) h found = elim (Bool-cases (same_text x s)) [
  | inl same ↦ rw same (omega arith)
  | inr apart ↦ rw apart (omega (arith, scan-le left (i + 1) symbols s k (omega arith) found))
]

copied_before :
    (i : ℕ) (from to : List (List ℕ)) (k : ℕ)
    → k < i
    → get_elem? (copy_symbols i from to) k ≡ get_elem? to k
copied_before i [] to k h = refl
copied_before i (s ∷ from) to k h = elim (Bool-cases (ltb i max_symbols)) [
  | inl room ↦ rw room (
      copied_before (i + 1) from (set to i s) k (omega arith)
      ∙ get_elem?-set_ne to s (λ e. absurd (omega (arith, e))))
  | inr full ↦ rw full refl
]

copied :
    (i : ℕ) (from to : List (List ℕ)) (j : ℕ)
    → length to ≡ max_symbols
    → i + j < max_symbols
    → j < length from
    → get_elem? (copy_symbols i from to) (i + j) ≡ get_elem? from j
copied i [] to j size room inside = absurd (omega arith)
copied i (s ∷ from) to zero size room inside = rw (lt→ltb i max_symbols (omega arith)) (
    copied_before (i + 1) from (set to i s) (i + 0) (omega arith)
    ∙ (ap (get_elem? (set to i s)) {y = i} (omega arith)
        ∙ get_elem?-set_self to i s (omega (arith, size))))
copied i (s ∷ from) to (suc j) size room inside = rw (lt→ltb i max_symbols (omega arith)) (
    ap (get_elem? (copy_symbols (i + 1) from (set to i s))) {y = i + 1 + j} (omega arith)
    ∙ copied (i + 1) from (set to i s) j (length-set to i s ∙ size) (omega arith) (omega arith))

module _ {W : Type 0} (cfg : EngineConfig W) (md : Ring (MdEvent W)) (exec : Ring (ExecEvent W))
    (metrics : Metrics) where
  table :
      (k : ℕ)
      → k < min (length cfg.symbols) max_symbols
      → get_elem? (fix_app cfg md exec metrics).symbols k ≡ get_elem? cfg.symbols k
  unfolding fix_app
  table k h =
      ap (get_elem? (fix_app cfg md exec metrics).symbols) {x = k} {y = 0 + k} (omega arith)
      ∙ copied 0 cfg.symbols (replicate max_symbols []) k
          (length-replicate {A = List ℕ} max_symbols []) (omega arith) (omega arith)

  in_table :
      (j : ℕ)
      → j < (fix_app cfg md exec metrics).n_symbols
      → j < min (length cfg.symbols) max_symbols
  unfolding fix_app
  in_table j h = omega arith

  -- Any symbol gets the identifier of a place in the settings, below eight, that holds it, or
  -- `UINT32_MAX`.
  pub symbol_id_sound :
      (s : List ℕ)
      → let id = symbol_id (fix_app cfg md exec metrics) s in
        (id ≡ no_symbol) ⊎ ((id < max_symbols) × (get_elem? cfg.symbols id ≡ some s))
  unfolding symbol_id
  symbol_id_sound s = go (scan_lem _ 0 _ s)
    where
      go :
          let app = fix_app cfg md exec metrics in
          let id = symbol_id app s in
          (id ≡ no_symbol)
            ⊎ ((j : ℕ) × (id ≡ 0 + j) × (j < app.n_symbols) × (get_elem? app.symbols j ≡ some s))
          → (id ≡ no_symbol) ⊎ ((id < max_symbols) × (get_elem? cfg.symbols id ≡ some s))
      go (inl nowhere) = inl nowhere
      go (inr (j, e, inside, found)) = inr (
        omega (arith, e, in_table j inside),
        ap (get_elem? cfg.symbols) (e ∙ omega arith) ∙ (sym (table j (in_table j inside)) ∙ found),
      )

  -- In an application that the constructor made, a symbol among the first eight of the settings
  -- gets the identifier of its first place there.
  pub symbol_id-first :
      (s : List ℕ) (k : ℕ)
      → k < max_symbols
      → get_elem? cfg.symbols k ≡ some s
      → let id = symbol_id (fix_app cfg md exec metrics) s in
        (id ≤ k) × (get_elem? cfg.symbols id ≡ some s)
  unfolding symbol_id fix_app
  symbol_id-first s k h found = go (symbol_id_sound s)
    where
      inside : k < min (length cfg.symbols) max_symbols
      inside = omega (arith, get_elem?-lt cfg.symbols k found)

      before : symbol_id (fix_app cfg md exec metrics) s ≤ k
      before = omega (
        arith,
        scan-le (fix_app cfg md exec metrics).n_symbols 0 (fix_app cfg md exec metrics).symbols s k
            (omega (arith, inside)) (table k inside ∙ found),
      )

      go :
          let id = symbol_id (fix_app cfg md exec metrics) s in
          (id ≡ no_symbol) ⊎ ((id < max_symbols) × (get_elem? cfg.symbols id ≡ some s))
          → (id ≤ k) × (get_elem? cfg.symbols id ≡ some s)
      go (inl nowhere) = absurd (omega (arith, before, nowhere))
      go (inr (_, there)) = (before, there)
