-- ===== src/Base/Members.antt =====
-- Members of lists.
use mathlib.Core.Path.{◌≡◌}
use mathlib.Core.Logic.{◌⊎◌, inl, inr}
use mathlib.Core.List.{List, [], ◌∷◌, ◌++◌, Memᴰ}
use mathlib.Core.List.Memᴰ.{head, tail}

module _ {A : Type 0} where
  pub mem-right : (a : A) (xs ys : List A) → Memᴰ a ys → Memᴰ a (xs ++ ys)
  mem-right a [] ys i = i
  mem-right a (b ∷ xs) ys i = tail (mem-right a xs ys i)

  pub mem-left : (a : A) (xs ys : List A) → Memᴰ a xs → Memᴰ a (xs ++ ys)
  mem-left a [] ys i = elim i [ ]
  mem-left a (b ∷ xs) ys (head e) = head e
  mem-left a (b ∷ xs) ys (tail i) = tail (mem-left a xs ys i)

  pub append-mem : (a : A) (xs ys : List A) → Memᴰ a (xs ++ ys) → Memᴰ a xs ⊎ Memᴰ a ys
  append-mem a [] ys i = inr i
  append-mem a (b ∷ xs) ys (head e) = inl (head e)
  append-mem a (b ∷ xs) ys (tail i) = elim (append-mem a xs ys i) [
    | inl left ↦ inl (tail left)
    | inr right ↦ inr right
  ]

  pub mem_cases : (a b : A) (xs : List A) → Memᴰ a (b ∷ xs) → (a ≡ b) ⊎ Memᴰ a xs
  mem_cases a b xs (head e) = inl e
  mem_cases a b xs (tail i) = inr i
