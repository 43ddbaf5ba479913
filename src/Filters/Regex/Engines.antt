-- ===== src/Filters/Regex/Engines.antt =====
-- What the engines of internal/domain/node_filter.go say of a name.
use clash_sub_parser.Prelude.{
  ℕ, ◌<◌, ◌≤◌, ◌≡◌, ◌↔◌, ◌⊎◌, inl, inr, refl, ap, subst, ◌∙◌, Bool, true, false, List, ◌++◌, arith,
  Option, none, some, Bool-cases, Option-cases,
}
use clash_sub_parser.Prelude.Strings.{codes, has_prefix, trim_space}
use clash_sub_parser.Filters.Regex.{
  byte_length, Matcher, Library, full_pattern, compile_pattern, is_bounded, compile_filter_regex,
  match_regex,
}

-- The expression that an engine compiles: without the blanks around it, of 1 to 1024 bytes, and with
-- the mode that ignores the letter case in front.
pub record IsFull (pattern full : List ℕ) : Type 0 where
  pub not_empty : 0 < byte_length (trim_space pattern)
  pub bounded : byte_length (trim_space pattern) ≤ 1024
  pub with_mode :
      ((has_prefix (trim_space pattern) (codes "(?i)") ≡ true) × (full ≡ trim_space pattern))
      ⊎ ((has_prefix (trim_space pattern) (codes "(?i)") ≡ false)
          × (full ≡ codes "(?i)" ++ trim_space pattern))

-- Whether a compiled expression is found in a text, or an error.
abbrev pub evaluate : Option Matcher → List ℕ → Option Bool
evaluate none text = none
evaluate (some re) text = match_regex re text

match_regex-some :
    (re : Matcher) (text : List ℕ) (b : Bool)
    → (match_regex re text ≡ some b) ↔ ((byte_length text ≤ 4096) × (re text ≡ some b))
unfolding match_regex
match_regex-some re text b = ground arith

module _ (lib : Library) where
  -- RE2 answers, or backtracking where RE2 cannot compile the expression.
  abbrev pub Answers : List ℕ → List ℕ → Bool → Type 0
  Answers full name found =
      ((re : List ℕ → Bool) × (lib.compile_re2 full ≡ some re) × (re name ≡ found))
      ⊎ ((lib.compile_re2 full ≡ none)
          × ((re : Matcher) × (lib.compile_backtracking full ≡ some re) × (re name ≡ some found)))

  -- An engine says of a name of at most 4096 bytes whether the expression is found in it.
  abbrev pub Says : List ℕ → List ℕ → Bool → Type 0
  Says pattern name found =
      (full : List ℕ) × IsFull pattern full × (byte_length name ≤ 4096) × Answers full name found

  full_pattern-IsFull :
      (pattern : List ℕ)
      → is_bounded lib (trim_space pattern) ≡ true
      → IsFull pattern (full_pattern (trim_space pattern))
  full_pattern-IsFull pattern h = record {
    not_empty = ground (arith, h);
    bounded = ground (arith, h);
    with_mode = elim (Bool-cases (has_prefix (trim_space pattern) (codes "(?i)"))) [
      | inl e ↦ inl (e, rw e refl)
      | inr e ↦ inr (e, rw e refl)
    ];
  }

  IsFull-full_pattern :
      (pattern full : List ℕ)
      → IsFull pattern full
      → (is_bounded lib (trim_space pattern) ≡ true) × (full ≡ full_pattern (trim_space pattern))
  IsFull-full_pattern pattern full c = (
    ground (arith, c.not_empty, c.bounded),
    elim c.with_mode [ inl (e, f) ↦ rw e f | inr (e, f) ↦ rw e f ],
  )

  compile_pattern-Answers :
      (p name : List ℕ) (b : Bool)
      → (evaluate (compile_pattern lib p) name ≡ some b)
        ↔ ((byte_length name ≤ 4096) × Answers (full_pattern p) name b)
  unfolding compile_pattern
  compile_pattern-Answers p name b = elim (Option-cases (lib.compile_re2 (full_pattern p))) [
    | inr (re, e) ↦
        let (f, g) = match_regex-some (λ text. some (re text)) name b in
        rw (e, compile_pattern)
          (
            λ h. let (k, x) = f h in (k, inl (re, refl, cc)),
            λ (k, x). elim x [
              | inl (q, s, y) ↦
                  let same_one : re ≡ q = cc in
                  g (k, ap some (ap (λ (z : List ℕ → Bool). z name) same_one ∙ y))
              | inr (n, x) ↦ absurd cc
            ],
          )
    | inl e ↦ elim (Option-cases (lib.compile_backtracking (full_pattern p))) [
      | inl n ↦
          rw (e, n, compile_pattern)
            (
              λ h. absurd cc,
              λ (k, x). elim x [ inl (q, s, y) ↦ absurd cc | inr (_, (q, s, y)) ↦ absurd cc ],
            )
      | inr (re, n) ↦
          let (f, g) = match_regex-some re name b in
          rw (e, n, compile_pattern)
            (
              λ h. let (k, x) = f h in (k, inr (refl, (re, refl, x))),
              λ (k, x). elim x [
                | inl (q, s, y) ↦ absurd cc
                | inr (_, (q, s, y)) ↦
                    let same_one : re ≡ q = cc in g (k, ap (λ (z : Matcher). z name) same_one ∙ y)
              ],
            )
    ]
  ]

  -- What comes of compiling and matching is what an engine says.
  pub evaluate_lem :
      (pattern name : List ℕ) (b : Bool)
      → (evaluate (compile_filter_regex lib pattern) name ≡ some b) ↔ Says pattern name b
  unfolding compile_filter_regex
  evaluate_lem pattern name b = elim (Bool-cases (is_bounded lib (trim_space pattern))) [
    | inr e ↦ (
      λ h. absurd (ground (arith, h, e)),
      λ (full, c, k, x). absurd (ground (arith, (IsFull-full_pattern pattern full c).0, e)),
    )
    | inl e ↦
        let (f, g) = compile_pattern-Answers (trim_space pattern) name b in
        (
          λ h.
              let (k, x) = f (ground (arith, h, e)) in
              (full_pattern (trim_space pattern), full_pattern-IsFull pattern e, k, x),
          λ (full, c, k, x).
              let same_one = (IsFull-full_pattern pattern full c).1 in
              ground (arith, e, g (k, subst (λ y. Answers y name b) same_one x)),
        )
  ]
