-- ===== src/Filters/Regex/Cached.antt =====
-- The cache of compiled expressions in internal/domain/node_filter.go.
use clash_sub_parser.Prelude.{
  ℕ, ◌≡◌, refl, sym, ap, ◌∙◌, ◌⊎◌, inl, inr, List, [], ◌∷◌, map, Option, none, some, Option-cases,
  Bool-cases, arith,
}
use clash_sub_parser.Prelude.Strings.{trim_space}
use clash_sub_parser.Filters.Regex.{
  Library, Store, Matcher, compile_pattern, compile_filter_regex, compile_cached, is_bounded,
  look_up, add_compiled,
}

-- What the store promises: a look-up adds nothing, and an entry that is found after an addition is the
-- one that was added or was there before. An addition may drop any entry.
pub record IsStore (store : Store) : Type 0 where
  pub get_of_get :
      (j k : List ℕ) (re : Matcher) (c : store.Cache)
      → (store.get j (store.get k c).1).0 ≡ some re
      → (store.get j c).0 ≡ some re
  pub get_of_add :
      (j k : List ℕ) (re added : Matcher) (c : store.Cache)
      → (store.get j (store.add k added c)).0 ≡ some re
      → ((j ≡ k) × (re ≡ added)) ⊎ ((store.get j c).0 ≡ some re)

module _ (lib : Library) (store : Store) where
  -- An entry is what its expression compiles to.
  abbrev IsConsistent : store.Cache → Type 0
  IsConsistent c =
      (k : List ℕ) (re : Matcher) → (store.get k c).0 ≡ some re → compile_pattern lib k ≡ some re

  -- Expressions compiled one after the other.
  unfoldable pub compile_each : List (List ℕ) → store.Cache → List (Option Matcher)
  compile_each [] c = []
  compile_each (p ∷ ps) c = let (re, c') = compile_cached lib store p c in re ∷ compile_each ps c'

  module _ (laws : IsStore store) where
    add_compiled-IsConsistent :
        (k : List ℕ) (c : store.Cache)
        → IsConsistent c
        → IsConsistent (add_compiled lib store k (compile_pattern lib k) c).1
          × ((add_compiled lib store k (compile_pattern lib k) c).0 ≡ compile_pattern lib k)
    add_compiled-IsConsistent k c h = elim (Option-cases (compile_pattern lib k)) [
      | inl e ↦ rw e (h, refl)
      | inr (re, e) ↦ rw e (
        λ j r g. elim (laws.get_of_add j k r re c g) [
          | inl (q, s) ↦ ap (compile_pattern lib) q ∙ e ∙ ap some (sym s)
          | inr o ↦ h j r o
        ],
        refl,
      )
    ]

    look_up-IsConsistent :
        (k : List ℕ) (c : store.Cache)
        → IsConsistent c
        → IsConsistent (look_up lib store k (store.get k c)).1
          × ((look_up lib store k (store.get k c)).0 ≡ compile_pattern lib k)
    look_up-IsConsistent k c h = elim (Option-cases (store.get k c).0) [
      | inl e ↦ rw e (
          add_compiled-IsConsistent k (store.get k c).1
            (λ j r g. h j r (laws.get_of_get j k r c g)))
      | inr (re, e) ↦ rw e (λ j r g. h j r (laws.get_of_get j k r c g), sym (h k re e))
    ]

    compile_cached-IsConsistent :
        (p : List ℕ) (c : store.Cache)
        → IsConsistent c
        → IsConsistent (compile_cached lib store p c).1
          × ((compile_cached lib store p c).0 ≡ compile_filter_regex lib p)
    unfolding compile_cached compile_filter_regex
    compile_cached-IsConsistent p c h = elim (Bool-cases (is_bounded lib (trim_space p))) [
      | inl e ↦ rw e (look_up-IsConsistent (trim_space p) c h)
      | inr e ↦ rw e (h, refl)
    ]

    compile_each_consistent :
        (ps : List (List ℕ)) (c : store.Cache)
        → IsConsistent c
        → compile_each ps c ≡ map (compile_filter_regex lib) ps
    unfolding compile_each
    compile_each_consistent [] c h = refl
    compile_each_consistent (p ∷ ps) c h =
        let (k, e) = compile_cached-IsConsistent p c h in
        rw (e, compile_each_consistent ps (compile_cached lib store p c).1 k) refl

-- From an empty cache, whatever the cache drops on the way, expressions compile one after the other to
-- what each compiles to without a cache.
pub compile_each_lem :
    (lib : Library) (store : Store) (ps : List (List ℕ)) (c : store.Cache)
    → IsStore store
    → ((k : List ℕ) → (store.get k c).0 ≡ none)
    → compile_each lib store ps c ≡ map (compile_filter_regex lib) ps
compile_each_lem lib store ps c laws h =
    compile_each_consistent lib store laws ps c (λ k re e. absurd (ground (arith, h k)))
