-- ===== src/Fix/Levels.antt =====
-- src/fix/fix_app.hpp: what the loop over a snapshot's entries leaves in the event.
use mm_engine.Base.{
  ℕ, zero, suc, Bool, true, false, ◌≡◌, ◌≢◌, refl, sym, ap, ◌∙◌, Option, none, some, ◌==◌, ==_iff,
  List, [], ◌∷◌, ◌++◌, arith, ltb, ltb→lt, inl, inr, Bool-cases, if◌then◌else◌, take,
  length-replicate, >>=-eq-some,
}
use mathlib.Core.Option.{some-injective}
use mathlib.Core.List.{append-nil, append_assoc}
use mm_engine.Base.Int.{ℤ}
use mm_engine.Double.{Double}
use mm_engine.Events.{MdEvent, max_depth}
use mm_engine.Fix.{FixApp, symbol_id, no_symbol}
use mm_engine.Fix.Arrays.{Holds, Holds-add, Holds-skip, Holds-none, ltb_false→le}
use mm_engine.Fix.Inbound.{
  EntryType, Entry, SnapshotMsg, or_else, known, add_entry, add_entries, blank_event, entry_count,
  parse_snapshot,
}

module _ {W : Type 0} where
  -- The numbers on the entries of one type, in the message's order.
  abbrev pub one : (EntryType → Bool) → (Entry W → W) → Option EntryType → Entry W → List W
  one is of none g = []
  one is of (some t) g = if is t then of g ∷ [] else []

  abbrev pub numbers : (EntryType → Bool) → (Entry W → W) → List (Entry W) → List W
  numbers is of [] = []
  numbers is of (g ∷ gs) = one is of g.type g ++ numbers is of gs

abbrev pub is_bid : EntryType → Bool
is_bid EntryType.bid = true
is_bid _ = false

abbrev pub is_offer : EntryType → Bool
is_offer EntryType.offer = true
is_offer _ = false

known-some : (id id' : ℕ) → known id ≡ some id' → (id' ≡ id) × (id ≢ no_symbol)
known-some id id' is = elim (Bool-cases (id == no_symbol)) [
  | inl absent ↦ cc (rw absent at is)
  | inr ours ↦ (sym (some-injective _ _ (rw ours at is)), λ e. cc (ours, (==_iff id no_symbol).1 e))
]

module _ {W : Type 0} ⦃d : Double W⦄ where
  open d use {nought}

  -- A price or a size that is not on the message counts as 0.
  abbrev pub price : Entry W → W
  price g = or_else g.px nought

  abbrev pub quantity : Entry W → W
  quantity g = or_else g.size nought

  abbrev Reads : MdEvent W → (bp bq op oq : List W) → Type 0
  Reads ev bp bq op oq =
      (Holds ev.n_bids ev.bid_px bp)
      × (Holds ev.n_bids ev.bid_qty bq)
      × (Holds ev.n_asks ev.ask_px op)
      × (Holds ev.n_asks ev.ask_qty oq)

  add_entry-Reads :
      (t : EntryType) (g : Entry W) (ev : MdEvent W) (bp bq op oq : List W)
      → Reads ev bp bq op oq
      → Reads
          (add_entry t (price g) (quantity g) ev)
          (bp ++ one is_bid price (some t) g)
          (bq ++ one is_bid quantity (some t) g)
          (op ++ one is_offer price (some t) g)
          (oq ++ one is_offer quantity (some t) g)
  unfolding add_entry
  add_entry-Reads EntryType.bid g ev bp bq op oq (h₁, h₂, h₃, h₄) =
      elim (Bool-cases (ltb ev.n_bids max_depth)) [
        | inl room ↦ rw room (
          Holds-add _ _ _ _ (ltb→lt _ _ room) h₁,
          Holds-add _ _ _ _ (ltb→lt _ _ room) h₂,
          Holds-none _ _ _ h₃,
          Holds-none _ _ _ h₄,
        )
        | inr full ↦ rw full (
          Holds-skip _ _ _ _ (omega (arith, ltb_false→le _ _ full)) h₁,
          Holds-skip _ _ _ _ (omega (arith, ltb_false→le _ _ full)) h₂,
          Holds-none _ _ _ h₃,
          Holds-none _ _ _ h₄,
        )
      ]
  add_entry-Reads EntryType.offer g ev bp bq op oq (h₁, h₂, h₃, h₄) =
      elim (Bool-cases (ltb ev.n_asks max_depth)) [
        | inl room ↦ rw room (
          Holds-none _ _ _ h₁,
          Holds-none _ _ _ h₂,
          Holds-add _ _ _ _ (ltb→lt _ _ room) h₃,
          Holds-add _ _ _ _ (ltb→lt _ _ room) h₄,
        )
        | inr full ↦ rw full (
          Holds-none _ _ _ h₁,
          Holds-none _ _ _ h₂,
          Holds-skip _ _ _ _ (omega (arith, ltb_false→le _ _ full)) h₃,
          Holds-skip _ _ _ _ (omega (arith, ltb_false→le _ _ full)) h₄,
        )
      ]
  add_entry-Reads EntryType.trade g ev bp bq op oq (h₁, h₂, h₃, h₄) =
      (Holds-none _ _ _ h₁, Holds-none _ _ _ h₂, Holds-none _ _ _ h₃, Holds-none _ _ _ h₄)
  add_entry-Reads EntryType.other g ev bp bq op oq (h₁, h₂, h₃, h₄) =
      (Holds-none _ _ _ h₁, Holds-none _ _ _ h₂, Holds-none _ _ _ h₃, Holds-none _ _ _ h₄)

  add_entries-Reads :
      (count : ℕ) (gs : List (Entry W)) (ev ev' : MdEvent W) (bp bq op oq : List W)
      → add_entries count gs ev ≡ some ev'
      → Reads ev bp bq op oq
      → Reads ev'
          (bp ++ numbers is_bid price (take count gs))
          (bq ++ numbers is_bid quantity (take count gs))
          (op ++ numbers is_offer price (take count gs))
          (oq ++ numbers is_offer quantity (take count gs))
  unfolding add_entries
  add_entries-Reads zero gs ev ev' bp bq op oq is h =
      rw (append-nil bp, append-nil bq, append-nil op, append-nil oq, ← some-injective _ _ is) h
  add_entries-Reads (suc count) [] ev ev' bp bq op oq is h = cc
  add_entries-Reads (suc count) (g ∷ gs) ev ev' bp bq op oq is h =
      let (t, at, rest) = >>=-eq-some g.type _ is in
      rw
        (
          at,
          ← append_assoc bp _ _,
          ← append_assoc bq _ _,
          ← append_assoc op _ _,
          ← append_assoc oq _ _,
        )
        (add_entries-Reads count gs _ ev' _ _ _ _ rest (add_entry-Reads t g ev bp bq op oq h))

  blank : (t0 : ℤ) (sym seq : ℕ) → Reads (blank_event t0 sym seq) [] [] [] []
  blank t0 sym seq = (
    (length-replicate max_depth nought, refl, refl),
    (length-replicate max_depth nought, refl, refl),
    (length-replicate max_depth nought, refl, refl),
    (length-replicate max_depth nought, refl, refl),
  )

  add_entry-symbol :
      (t : EntryType) (p q : W) (ev : MdEvent W) → (add_entry t p q ev).symbol_id ≡ ev.symbol_id
  unfolding add_entry
  add_entry-symbol EntryType.bid p q ev = elim (Bool-cases (ltb ev.n_bids max_depth)) [
    | inl room ↦ rw room refl
    | inr full ↦ rw full refl
  ]
  add_entry-symbol EntryType.offer p q ev = elim (Bool-cases (ltb ev.n_asks max_depth)) [
    | inl room ↦ rw room refl
    | inr full ↦ rw full refl
  ]
  add_entry-symbol EntryType.trade p q ev = refl
  add_entry-symbol EntryType.other p q ev = refl

  add_entries-symbol :
      (count : ℕ) (gs : List (Entry W)) (ev ev' : MdEvent W)
      → add_entries count gs ev ≡ some ev'
      → ev'.symbol_id ≡ ev.symbol_id
  unfolding add_entries
  add_entries-symbol zero gs ev ev' is =
      ap (λ (e : MdEvent W). e.symbol_id) (sym (some-injective _ _ is))
  add_entries-symbol (suc count) [] ev ev' is = cc
  add_entries-symbol (suc count) (g ∷ gs) ev ev' is =
      let (t, at, rest) = >>=-eq-some g.type _ is in
      add_entries-symbol count gs _ ev' rest ∙ add_entry-symbol t _ _ ev

  -- The event of a snapshot has the identifier of the message's symbol, which is not
  -- `UINT32_MAX`. With `used` the entries that `NoMDEntries` counts, each of its four arrays has five
  -- places and begins with the prices or the sizes on the first five bids or offers of `used`, in
  -- the message's order; `n_bids` and `n_asks` say how many there are.
  pub parse_snapshot-levels :
      (app : FixApp W) (t0 : ℤ) (msg : SnapshotMsg W) (s : List ℕ) (n : ℤ) (ev : MdEvent W)
      → msg.symbol ≡ some s
      → msg.count ≡ some n
      → parse_snapshot app t0 msg ≡ some ev
      → let used = take (entry_count n) msg.entries in
        (ev.symbol_id ≡ symbol_id app s)
        × (ev.symbol_id ≢ no_symbol)
        × (Holds ev.n_bids ev.bid_px (numbers is_bid price used))
        × (Holds ev.n_bids ev.bid_qty (numbers is_bid quantity used))
        × (Holds ev.n_asks ev.ask_px (numbers is_offer price used))
        × (Holds ev.n_asks ev.ask_qty (numbers is_offer quantity used))
  unfolding parse_snapshot
  parse_snapshot-levels app t0 msg s n ev es en is =
      let parsed = >>=-eq-some (known (symbol_id app s)) _ (rw (es, en) at is) in
      let (id, known_id, rest) = parsed in
      let (same, ours) = known-some (symbol_id app s) id known_id in
      let kept = add_entries-symbol _ _ _ ev rest in
      let (h₁, h₂, h₃, h₄) = add_entries-Reads _ _ _ ev [] [] [] [] rest (blank t0 id app.md_seq) in
      (kept ∙ same, (λ e. ours (sym (kept ∙ same) ∙ e)), h₁, h₂, h₃, h₄)
