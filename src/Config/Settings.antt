-- ===== src/Config/Settings.antt =====
-- src/common/config.hpp: the value of a key in the settings file.
use mathlib.Core.Option.{some-injective}
use mm_engine.Base.{
  ℕ, ◌≡◌, ◌≢◌, ◌>>=◌, ◌⊎◌, inl, inr, refl, sym, ◌∙◌, ap, Bool, true, false, Option, none, some,
  List, [], ◌∷◌, ◌++◌, ◌&&◌, ◌==◌, ==_iff, Bool-cases, All, same_text, same_text_refl, same_text-eq,
  get_elem?, arith,
}
use mm_engine.Config.Load.{
  is_padding, is_comment, split_line, Settings, lookup, assign, read_line, read_lines,
}
use mm_engine.Config.Trim.{ends_padded, trim_end-append}

-- The line begins with the text.
unfoldable pub begins : (text line : List ℕ) → Bool
begins [] line = true
begins (c ∷ text) [] = false
begins (c ∷ text) (x ∷ line) = (x == c) && begins text line

-- A carriage return or a space.
abbrev pub IsPad : ℕ → Type 0
IsPad c = (c ≡ 13) ⊎ (c ≡ 32)

-- The text does not end in one.
abbrev pub IsBare : List ℕ → Type 0
IsBare [] = Unit {0}
IsBare (c ∷ []) = (c ≢ 13) × (c ≢ 32)
IsBare (c ∷ x ∷ s) = IsBare (x ∷ s)

-- "=" and what follows.
abbrev pub gets : List ℕ → List ℕ
gets v = 61 ∷ v

-- A key: it has no `=`, and does not begin with `#`.
pub record IsKey (k : List ℕ) : Type 0 where
  pub plain : All (λ (c : ℕ). c ≢ 61) k
  pub no_comment : get_elem? k 0 ≢ some 35

IsBare-ends_padded : (s : List ℕ) → IsBare s → ends_padded s ≡ false
IsBare-ends_padded [] b = refl
IsBare-ends_padded (c ∷ []) (a, b) = ground (arith, a, b)
IsBare-ends_padded (c ∷ x ∷ s) b = IsBare-ends_padded (x ∷ s) b

IsPad-is_padding : (s : List ℕ) → All IsPad s → All (λ (c : ℕ). is_padding c ≡ true) s
IsPad-is_padding [] a = tt
IsPad-is_padding (c ∷ s) (p, a) = (ground (arith, p), IsPad-is_padding s a)

read_lines-append :
    (xs ys : List (List ℕ)) (kv : Settings)
    → read_lines (xs ++ ys) kv ≡ read_lines ys (read_lines xs kv)
unfolding read_lines
read_lines-append [] ys kv = refl
read_lines-append (x ∷ xs) ys kv = read_lines-append xs ys (read_line x kv)

split_line-key : (k v : List ℕ) → All (λ (c : ℕ). c ≢ 61) k → split_line (k ++ gets v) ≡ some (k, v)
unfolding split_line
split_line-key [] v a = refl
split_line-key (c ∷ k) v (other, a) =
    let apart : (c == 61) ≡ false = ground (arith, other) in rw (apart, split_line-key k v a) refl

key-is_comment : (k v : List ℕ) → get_elem? k 0 ≢ some 35 → is_comment (k ++ gets v) ≡ false
key-is_comment [] v h = refl
key-is_comment (c ∷ k) v h = elim (Bool-cases (c == 35)) [
  | inl same ↦ absurd (h (ap some ((==_iff c 35).0 same)))
  | inr apart ↦ apart
]

-- What a line is split into makes it up.
split_line-parts :
    (line key v : List ℕ) → split_line line ≡ some (key, v) → begins (key ++ gets []) line ≡ true
unfolding split_line begins
split_line-parts [] key v e = absurd (cc e)
split_line-parts (c ∷ line) key v e = elim (Bool-cases (c == 61)) [
  | inl cut ↦
      let eq : some ([], line) ≡ some (key, v) = (rw cut at e) in
      rw (sym (ap (λ (p : List ℕ × List ℕ). p.0) (some-injective _ _ eq)), cut) refl
  | inr on ↦ later (split_line line) (split_line-parts line) (rw on at e)
]
  where
    later :
        (rest : Option (List ℕ × List ℕ))
        → ((key v : List ℕ) → rest ≡ some (key, v) → begins (key ++ gets []) line ≡ true)
        → ◌>>=◌ {B = List ℕ × List ℕ} rest (λ p. some (c ∷ p.0, p.1)) ≡ some (key, v)
        → begins (key ++ gets []) (c ∷ line) ≡ true
    later none is f = absurd (cc f)
    later (some p) is f =
        rw
          (
            sym (ap (λ (p : List ℕ × List ℕ). p.0) (some-injective _ _ f)),
            (==_iff c c).1 refl,
            is p.0 p.1 refl,
          )
          refl

-- A line that does not begin with the key and `=` leaves its value.
read_line-other :
    (k line : List ℕ) (kv : Settings)
    → begins (k ++ gets []) line ≡ false
    → lookup k (read_line line kv) ≡ lookup k kv
unfolding read_line lookup
read_line-other k line kv other = elim (Bool-cases (is_comment line)) [
  | inl comment ↦ rw comment refl
  | inr setting ↦ rw setting (go (split_line line) refl)
]
  where
    go : (o : Option (List ℕ × List ℕ)) → split_line line ≡ o → lookup k (assign o kv) ≡ lookup k kv
    go none is = refl
    go (some (key, v)) is = elim (Bool-cases (same_text key k)) [
      | inl same ↦
          let eq : key ≡ k = same_text-eq key k same in
          absurd
            (cc (split_line-parts line key v is, ap (λ t. begins (t ++ gets []) line) eq, other))
      | inr apart ↦ rw apart refl
    ]

read_lines-other :
    (k : List ℕ) (lines : List (List ℕ)) (kv : Settings)
    → All (λ (line : List ℕ). begins (k ++ gets []) line ≡ false) lines
    → lookup k (read_lines lines kv) ≡ lookup k kv
unfolding read_lines
read_lines-other k [] kv a = refl
read_lines-other k (line ∷ lines) kv (other, a) =
    read_lines-other k lines (read_line line kv) a ∙ read_line-other k line kv other

-- The settings file gives a key, which has no `=` and does not begin with `#`, the value after `=`
-- on the last line that begins with the key and `=`, less the spaces and carriage returns at its
-- end, whatever else is in the file.
pub lookup-last :
    (before : List (List ℕ)) (k v pads : List ℕ) (after : List (List ℕ))
    → IsKey k
    → IsBare v
    → All IsPad pads
    → All (λ (line : List ℕ). begins (k ++ gets []) line ≡ false) after
    → lookup k (read_lines (before ++ (k ++ gets (v ++ pads)) ∷ after) []) ≡ some v
unfolding read_lines read_line lookup
lookup-last before k v pads after key bare padded none_after =
    ap (lookup k) (read_lines-append before ((k ++ gets (v ++ pads)) ∷ after) [])
    ∙ (read_lines-other k after (read_line (k ++ gets (v ++ pads)) (read_lines before []))
          none_after
        ∙ there)
  where
    there : lookup k (read_line (k ++ gets (v ++ pads)) (read_lines before [])) ≡ some v
    there =
        rw
          (
            key-is_comment k (v ++ pads) key.no_comment,
            split_line-key k (v ++ pads) key.plain,
            trim_end-append v pads (IsBare-ends_padded v bare) (IsPad-is_padding pads padded),
            same_text_refl k,
          )
          refl
