-- ===== src/Prelude/Sort.antt =====
-- `sort.Strings`, and the membership of texts.
use Prim.Native.Nat.{Ordering}
use Prim.Native.String.{compare, String}
use Prim.Native.Nat.{suc, ◌+◌}
use mathlib.Core.Path.{◌≡◌, refl}
use mathlib.Core.Logic.{◌↔◌, ◌⊎◌}
use mathlib.Core.Bool.{Bool, true, false, ◌||◌}
use mathlib.Core.List.{List, [], ◌∷◌}
use native.Mathlib.Omega.{arith}
use clash_sub_parser.Prelude.Tests.{if◌then◌else◌}
use clash_sub_parser.Prelude.Lists.{length, any, count_if}

-- The order of texts by their bytes.
abbrev pub text_le : String → String → Bool
text_le s t = elim (compare s t) [ Ordering.gt ↦ false | _ ↦ true ]

abbrev pub Occurs : String → List String → Type 0
Occurs a [] = ⊥
Occurs a (x ∷ xs) = (a ≡ x) ⊎ Occurs a xs

unfoldable pub insert_text : String → List String → List String
insert_text s [] = s ∷ []
insert_text s (t ∷ ts) = if text_le s t then s ∷ t ∷ ts else t ∷ insert_text s ts

-- `sort.Strings`. Equal texts cannot be told apart, so every sort gives this list.
unfoldable pub sort_texts : List String → List String
unfolding insert_text
sort_texts [] = []
sort_texts (s ∷ ts) = insert_text s (sort_texts ts)

Occurs-insert_text :
    (a s : String) (ts : List String)
    → (Occurs a (insert_text s ts) → (a ≡ s) ⊎ Occurs a ts)
      × ((a ≡ s) ⊎ Occurs a ts → Occurs a (insert_text s ts))
unfolding insert_text
Occurs-insert_text a s [] = ground arith
Occurs-insert_text a s (t ∷ ts) = ground (arith, Occurs-insert_text a s ts)

-- The sort keeps the members.
pub Occurs-sort_texts : (a : String) (ts : List String) → Occurs a (sort_texts ts) ↔ Occurs a ts
unfolding sort_texts
Occurs-sort_texts a [] = ground arith
Occurs-sort_texts a (t ∷ ts) =
    ground (arith, Occurs-insert_text a t (sort_texts ts), Occurs-sort_texts a ts)

length-insert_text : (s : String) (ts : List String) → length (insert_text s ts) ≡ suc (length ts)
unfolding insert_text
length-insert_text s [] = refl
length-insert_text s (t ∷ ts) = ground (arith, length-insert_text s ts)

pub length-sort_texts : (ts : List String) → length (sort_texts ts) ≡ length ts
unfolding sort_texts
length-sort_texts [] = refl
length-sort_texts (t ∷ ts) =
    ground (arith, length-insert_text t (sort_texts ts), length-sort_texts ts)

pub any-insert_text :
    (p : String → Bool) (s : String) (ts : List String)
    → any p (insert_text s ts) ≡ (p s || any p ts)
unfolding insert_text
any-insert_text p s [] = refl
any-insert_text p s (t ∷ ts) = ground (arith, any-insert_text p s ts)

pub any-sort_texts : (p : String → Bool) (ts : List String) → any p (sort_texts ts) ≡ any p ts
unfolding sort_texts
any-sort_texts p [] = refl
any-sort_texts p (t ∷ ts) = ground (arith, any-insert_text p t (sort_texts ts), any-sort_texts p ts)

module _ {A : Type 0} (lt : A → A → Bool) where
  -- In front of the first entry that is not less.
  abbrev pub insert_by : A → List A → List A
  insert_by x [] = x ∷ []
  insert_by x (y ∷ ys) = let rest = insert_by x ys in if lt y x then y ∷ rest else x ∷ y ∷ ys

  -- `sort.SliceStable`: every stable sort gives this list.
  unfoldable pub sort_by : List A → List A
  sort_by [] = []
  sort_by (x ∷ xs) = insert_by x (sort_by xs)

  count_if-insert_by :
      (p : A → Bool) (x : A) (xs : List A)
      → count_if p (insert_by x xs) ≡ (if p x then 1 else 0) + count_if p xs
  count_if-insert_by p x [] = refl
  count_if-insert_by p x (y ∷ ys) = ground (arith, count_if-insert_by p x ys)

  -- The sort keeps how many entries pass a test.
  pub count_if-sort_by : (p : A → Bool) (xs : List A) → count_if p (sort_by xs) ≡ count_if p xs
  unfolding sort_by
  count_if-sort_by p [] = refl
  count_if-sort_by p (x ∷ xs) =
      omega (arith, count_if-insert_by p x (sort_by xs), count_if-sort_by p xs)
