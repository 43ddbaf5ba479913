-- ===== src/Filters/Regex.antt =====
-- `compileFilterRegex` and `match` of internal/domain/node_filter.go. A compiled expression is its
-- function on texts. The two engines and the store behind the cache are not of the repository. A text
-- is its code points, and its bytes are those of UTF-8.
pub mod Cached
pub mod Engines
use clash_sub_parser.Prelude.{
  ℕ, ◌+◌, ◌&&◌, String, Bool, true, false, ◌||◌, List, [], ◌∷◌, ◌++◌, if◌then◌else◌, ltb, ◌==◌,
  Option, none, some,
}
use clash_sub_parser.Prelude.Strings.{codes, has_prefix, trim_space}

-- The length of a text in bytes.
abbrev pub byte_length : List ℕ → ℕ
byte_length [] = 0
byte_length (c ∷ cs) =
    (if ltb c 0x80 then 1 else if ltb c 0x800 then 2 else if ltb c 0x10000 then 3 else 4)
    + byte_length cs

-- What a match comes to: an error, or whether the text matches.
abbrev pub Matcher : Type 0
Matcher = List ℕ → Option Bool

-- `regexp` and `regexp2`, and the letter cases of `strings`. RE2 has no errors when it matches.
pub record Library : Type 0 where
  pub compile_re2 : List ℕ → Option (List ℕ → Bool)
  pub compile_backtracking : List ℕ → Option Matcher
  pub lower_case : List ℕ → List ℕ
  pub equal_fold : List ℕ → List ℕ → Bool

-- `filterRegexCache`
pub record Store : Type 1 where
  pub Cache : Type 0
  pub get : List ℕ → Cache → Option Matcher × Cache
  pub add : List ℕ → Matcher → Cache → Cache

abbrev ignore_case : List ℕ
ignore_case = codes "(?i)"

-- The expression with its mode.
abbrev full_pattern : List ℕ → List ℕ
full_pattern p = if has_prefix p ignore_case then p else ignore_case ++ p

module _ (lib : Library) where
  -- The engine for an expression: RE2, or backtracking where RE2 cannot compile it.
  unfoldable pub compile_pattern : List ℕ → Option Matcher
  compile_pattern p = elim (lib.compile_re2 (full_pattern p)) [
    | some re ↦ some (λ text. some (re text))
    | none ↦ lib.compile_backtracking (full_pattern p)
  ]

  abbrev pub is_bounded : List ℕ → Bool
  is_bounded p = ltb 0 (byte_length p) && ltb (byte_length p) 1025

  -- `compileFilterRegex` without its cache
  unfoldable pub compile_filter_regex : List ℕ → Option Matcher
  unfolding compile_pattern
  compile_filter_regex pattern =
      let p = trim_space pattern in
      let compiled = compile_pattern p in if is_bounded p then compiled else none

  module _ (store : Store) where
    abbrev add_compiled : List ℕ → Option Matcher → store.Cache → Option Matcher × store.Cache
    add_compiled p none c = (none, c)
    add_compiled p (some re) c = (some re, store.add p re c)

    -- What the cache has, or else the expression compiled anew.
    abbrev look_up : List ℕ → Option Matcher × store.Cache → Option Matcher × store.Cache
    look_up p (some re, c) = (some re, c)
    look_up p (none, c) = add_compiled p (compile_pattern p) c

    -- `compileFilterRegex`
    unfoldable pub compile_cached : List ℕ → store.Cache → Option Matcher × store.Cache
    unfolding compile_pattern
    compile_cached pattern c =
        let p = trim_space pattern in
        let found = look_up p (store.get p c) in if is_bounded p then found else (none, c)

-- `match`
unfoldable pub match_regex : Matcher → List ℕ → Option Bool
match_regex re input = let run = re input in if ltb 4096 (byte_length input) then none else run
