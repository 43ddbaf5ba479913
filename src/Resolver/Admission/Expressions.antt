-- ===== src/Resolver/Admission/Expressions.antt =====
-- `matchesAdmissionExpression` of internal/resolver/admission.go.
use clash_sub_parser.Prelude.{
  ℕ, String, Bool, true, false, not, ◌||◌, List, [], ◌∷◌, ◌++◌, if◌then◌else◌, ◌==◌, length, drop,
  Option, none, some,
}
use clash_sub_parser.Prelude.Strings.{codes, contains, has_prefix, same_codes, trim_space}
use clash_sub_parser.Resolver.Admission.{AdmissionNode}

-- `regexp`, and the letter cases of `strings`.
pub record TextLibrary : Type 0 where
  pub compile : List ℕ → Option (List ℕ → Bool)
  pub lower_case : List ℕ → List ℕ
  pub upper_case : List ℕ → List ℕ
  pub equal_fold : List ℕ → List ℕ → Bool

-- `strings.SplitN(s, sep, 2)`, where the separator occurs: what stands in front of it and behind it.
unfoldable pub split_at : List ℕ → List ℕ → Option (List ℕ × List ℕ)
split_at sep [] = if has_prefix [] sep then some ([], drop (length sep) []) else none
split_at sep (c ∷ cs) =
    let rest = split_at sep cs in
    if has_prefix (c ∷ cs) sep then some ([], drop (length sep) (c ∷ cs)) else add_front c rest
  where
    add_front : ℕ → Option (List ℕ × List ℕ) → Option (List ℕ × List ℕ)
    add_front c none = none
    add_front c (some (a, b)) = some (c ∷ a, b)

-- The text without its last character, where that is `q`.
abbrev without_last : ℕ → List ℕ → Option (List ℕ)
without_last q [] = none
without_last q (c ∷ []) = if c == q then some [] else none
without_last q (c ∷ d ∷ cs) = elim (without_last q (d ∷ cs)) [ none ↦ none | some r ↦ some (c ∷ r) ]

abbrev unquote : ℕ → List ℕ → Option (List ℕ)
unquote q [] = none
unquote q (c ∷ cs) = let rest = without_last q cs in if c == q then rest else none

-- `cleanQuotes`
unfoldable pub clean_quotes : List ℕ → List ℕ
clean_quotes s =
    let t = trim_space s in
    elim (unquote 39 t) [ some r ↦ r | none ↦ elim (unquote 34 t) [ some r ↦ r | none ↦ t ] ]

module _ (lib : TextLibrary) where
  abbrev is_found : List ℕ → List ℕ → Bool
  is_found text part = contains (lib.lower_case text) (lib.lower_case part)

  abbrev is_found_upper : List ℕ → List ℕ → Bool
  is_found_upper text part = contains (lib.upper_case text) (lib.upper_case part)

  -- `matchFieldEqual`
  unfoldable pub match_field_equal : AdmissionNode → List ℕ → List ℕ → Bool
  match_field_equal n field value =
      if same_codes field (codes "protocol")
      then lib.equal_fold (codes n.protocol) value
      else if same_codes field (codes "country")
      then is_found_upper (codes n.display_name) value
      else if same_codes field (codes "logical_id") || same_codes field (codes "id")
      then same_codes (codes n.logical_id) value
      else lib.equal_fold (codes n.display_name) value

  -- `matchFieldContains`
  unfoldable pub match_field_contains : AdmissionNode → List ℕ → List ℕ → Bool
  match_field_contains n field value =
      if same_codes field (codes "protocol")
      then is_found (codes n.protocol) value
      else if same_codes field (codes "country")
      then is_found_upper (codes n.display_name) value
      else is_found (codes n.display_name) value

  -- `matchFieldRegex`
  unfoldable pub match_field_regex : AdmissionNode → List ℕ → List ℕ → Bool
  match_field_regex n field pattern = elim (lib.compile pattern) [
    | none ↦ false
    | some re ↦
        re (codes (if same_codes field (codes "protocol") then n.protocol else n.display_name))
  ]

  -- A name on its own: an expression, or a part of the display name.
  abbrev matches_name : AdmissionNode → List ℕ → Bool
  matches_name n text =
      found_by (lib.compile (codes "(?i)" ++ text)) || is_found (codes n.display_name) text
    where
      found_by : Option (List ℕ → Bool) → Bool
      found_by none = false
      found_by (some re) = re (codes n.display_name)

  abbrev field_of : List ℕ → List ℕ
  field_of a = lib.lower_case (trim_space a)

  abbrev value_of : List ℕ → List ℕ
  value_of b = clean_quotes (trim_space b)

  abbrev regex_parts : List ℕ → Option (List ℕ × List ℕ)
  regex_parts t = elim (split_at (codes "~=") t) [
    | some p ↦ some p
    | none ↦ split_at (codes "=~") t
  ]

  -- The forms with an operator, in the order of the code. No letter case changes the operators without
  -- letters, so an operator occurs when the split by it succeeds.
  abbrev matches_operator : AdmissionNode → List ℕ → Bool
  matches_operator n t = elim (split_at (codes "==") t) [
    | some (a, b) ↦ match_field_equal n (field_of a) (value_of b)
    | none ↦ elim (split_at (codes "!=") t) [
      | some (a, b) ↦ not (match_field_equal n (field_of a) (value_of b))
      | none ↦ elim (split_at (codes "contains") (lib.lower_case t)) [
        | some (a, b) ↦ match_field_contains n (trim_space a) (value_of b)
        | none ↦ elim (regex_parts t) [
          | some (a, b) ↦ match_field_regex n (field_of a) (value_of b)
          | none ↦ matches_name n t
        ]
      ]
    ]
  ]

  -- `matchesAdmissionExpression`
  unfoldable pub matches_admission_expression : AdmissionNode → String → Bool
  unfolding split_at clean_quotes match_field_equal match_field_contains match_field_regex
  matches_admission_expression n expression =
      let t = trim_space (codes expression) in
      let by_operator = matches_operator n t in
      if same_codes t []
        || (same_codes t (codes "*")
            || (lib.equal_fold t (codes "ALL") || lib.equal_fold t (codes "ANY")))
      then true
      else by_operator
