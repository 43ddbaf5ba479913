-- ===== src/Prelude/Members.antt =====
-- Entries of lists.
use clash_sub_parser.Prelude.{
  ◌≤◌, ◌<◌, ◌≡◌, refl, ap, ◌∙◌, ◌⊎◌, inl, inr, String, Bool, true, false, not, List, [], ◌∷◌, map,
  arith, length, any, count_if, filter_if, same, String_discrete, Bool-cases, if_cases,
}

module _ {A : Type 0} where
  abbrev pub In : A → List A → Type 0
  In x [] = ⊥
  In x (y ∷ ys) = (x ≡ y) ⊎ In x ys

  pub any-In : (p : A → Bool) (xs : List A) → any p xs ≡ true → (x : A) × In x xs × (p x ≡ true)
  any-In p [] h = absurd cc
  any-In p (x ∷ xs) h = elim (Bool-cases (p x)) [
    | inl e ↦ (x, inl refl, e)
    | inr e ↦ let (y, i, f) = any-In p xs (ground (arith, e)) in (y, inr i, f)
  ]

  pub In-any : (p : A → Bool) (xs : List A) (x : A) → In x xs → p x ≡ true → any p xs ≡ true
  In-any p [] x i h = absurd i
  In-any p (y ∷ ys) x (inl e) h = ground (arith, ap p e)
  In-any p (y ∷ ys) x (inr i) h = ground (arith, In-any p ys x i h)

  pub In-filter_if :
      (p : A → Bool) (xs : List A) (x : A) → In x (filter_if p xs) → In x xs × (p x ≡ true)
  In-filter_if p [] x i = absurd i
  In-filter_if p (y ∷ ys) x i =
      if_cases (λ zs. In x zs → In x (y ∷ ys) × (p x ≡ true)) (p y) (y ∷ filter_if p ys)
        (filter_if p ys)
        (λ h k. elim k [
          | inl e ↦ (inl e, ap p e ∙ h)
          | inr j ↦ (inr (In-filter_if p ys x j).0, (In-filter_if p ys x j).1)
        ])
        (λ h k. (inr (In-filter_if p ys x k).0, (In-filter_if p ys x k).1)) i

  length-filter_if-le : (p : A → Bool) (xs : List A) → length (filter_if p xs) ≤ length xs
  length-filter_if-le p [] = omega arith
  length-filter_if-le p (x ∷ xs) = ground (arith, length-filter_if-le p xs)

  -- A list with an entry that the test drops gets shorter.
  pub length-filter_if :
      (p : A → Bool) (xs : List A)
      → any p xs ≡ true
      → length (filter_if (λ x. not (p x)) xs) < length xs
  length-filter_if p [] h = absurd cc
  length-filter_if p (x ∷ xs) h =
      ground (arith, length-filter_if p xs, length-filter_if-le (λ x. not (p x)) xs)

  pub In-same :
      (f : A → String) (xs : List A) (x : A) → In x xs → any (same (f x)) (map f xs) ≡ true
  In-same f [] x i = absurd i
  In-same f (y ∷ ys) x (inl e) = ground (arith, ap f e)
  In-same f (y ∷ ys) x (inr i) = ground (arith, In-same f ys x i)

  pub same-In :
      (f : A → String) (k : String) (xs : List A)
      → any (same k) (map f xs) ≡ true
      → (x : A) × In x xs × (k ≡ f x)
  same-In f k [] h = absurd cc
  same-In f k (y ∷ ys) h = elim (String_discrete k (f y)) [
    | yes e ↦ (y, inl refl, e)
    | no ne ↦ let (x, i, e) = same-In f k ys (ground (arith, ne)) in (x, inr i, e)
  ]

  pub count_if-zero :
      (p : A → Bool) (xs : List A) (x : A) → count_if p xs ≡ 0 → In x xs → p x ≡ false
  count_if-zero p [] x h i = absurd i
  count_if-zero p (y ∷ ys) x h (inl e) = ground (arith, ap p e)
  count_if-zero p (y ∷ ys) x h (inr i) = count_if-zero p ys x (omega arith) i
