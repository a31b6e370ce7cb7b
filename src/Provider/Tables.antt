-- ===== src/Provider/Tables.antt =====
-- Searching a table with one entry for a key.
use mathlib.Core.List.{Memᴰ}
use mathlib.Core.List.Memᴰ.{head, tail}
use workflow_plugin_signal.Base.{
  ◌≡◌, refl, sym, ap, inl, inr, Bool, true, false, none, some, List, [], ◌∷◌, map, arith, Str,
  str_eq, str_eq_iff, Dict, lookup, Distinct, Bool-cases, Option-cases,
}

module _ {V : Type 0} where
  unfoldable pub keys : Dict V → List Str
  keys [] = []
  keys ((k, v) ∷ m) = k ∷ keys m

  pub lookup-keys : (k : Str) (m : Dict V) → Memᴰ k (keys m) → (v : V) × (lookup k m ≡ some v)
  unfolding keys lookup
  lookup-keys k [] i = elim i [ ]
  lookup-keys k ((j, v) ∷ m) (head e) =
      let same : str_eq j k ≡ true = (str_eq_iff j k).1 (sym e) in (v, ground arith)
  lookup-keys k ((j, v) ∷ m) (tail i) = elim (Bool-cases (str_eq j k)) [
    | inl here ↦ (v, ground arith)
    | inr other ↦ let (w, found) = lookup-keys k m i in (w, ground arith)
  ]

  pub keys-lookup : (k : Str) (v : V) (m : Dict V) → lookup k m ≡ some v → Memᴰ k (keys m)
  unfolding keys lookup
  keys-lookup k v ((j, w) ∷ m) f = elim (Bool-cases (str_eq j k)) [
    | inl here ↦ head (sym ((str_eq_iff j k).0 here))
    | inr other ↦ tail (keys-lookup k v m (ground arith))
  ]
  keys-lookup k v [] f = absurd (ground arith)

  pub lookup-mem : (k : Str) (v : V) (m : Dict V) → lookup k m ≡ some v → Memᴰ (k, v) m
  unfolding lookup
  lookup-mem k v ((j, w) ∷ m) f = elim (Bool-cases (str_eq j k)) [
    | inl here ↦
        let same_key : k ≡ j = sym ((str_eq_iff j k).0 here) in
        let same : v ≡ w = ground arith in head (rw (same_key, same) refl)
    | inr other ↦ tail (lookup-mem k v m (ground arith))
  ]
  lookup-mem k v [] f = absurd (ground arith)

  pub mem-lookup : (k : Str) (v : V) (m : Dict V) → Distinct m → Memᴰ (k, v) m → lookup k m ≡ some v
  unfolding lookup
  mem-lookup k v [] d i = elim i [ ]
  mem-lookup k v ((j, w) ∷ m) (fresh, d) (head e) =
      let same : str_eq j k ≡ true = (str_eq_iff j k).1 (sym (ap (λ p. p.0) e)) in
      let same_value : v ≡ w = ap (λ p. p.1) e in rw (same, same_value) refl
  mem-lookup k v ((j, w) ∷ m) (fresh, d) (tail i) = elim (Bool-cases (str_eq j k)) [
    | inl here ↦
        let same : j ≡ k = (str_eq_iff j k).0 here in
        let found : lookup k m ≡ some v = mem-lookup k v m d i in absurd (ground arith)
    | inr other ↦ rw other (mem-lookup k v m d i)
  ]

  unfoldable pub distinct : Dict V → Bool
  distinct [] = true
  distinct ((k, v) ∷ m) = elim (lookup k m) [ none ↦ distinct m | some w ↦ false ]

  pub distinct-Distinct : (m : Dict V) → distinct m ≡ true → Distinct m
  unfolding distinct
  distinct-Distinct [] e = tt
  distinct-Distinct ((k, v) ∷ m) e = elim (Option-cases (lookup k m)) [
    | inl fresh ↦ (fresh, distinct-Distinct m (ground arith))
    | inr (w, found) ↦ absurd (ground arith)
  ]

module _ {A B : Type 0} (g : A → B) where
  pub mem-map : (a : A) (xs : List A) → Memᴰ a xs → Memᴰ (g a) (map g xs)
  mem-map a [] i = elim i [ ]
  mem-map a (b ∷ xs) (head e) = head (ap g e)
  mem-map a (b ∷ xs) (tail i) = tail (mem-map a xs i)

  pub map-mem : (b : B) (xs : List A) → Memᴰ b (map g xs) → (a : A) × Memᴰ a xs × (b ≡ g a)
  map-mem b [] i = elim i [ ]
  map-mem b (a ∷ xs) (head e) = (a, head refl, e)
  map-mem b (a ∷ xs) (tail i) = let (x, j, e) = map-mem b xs i in (x, tail j, e)
