-- ===== src/Resolver/Groups/Resolve/Enough.antt =====
-- The fuel of `resolveGroupMemo` in internal/resolver/graph.go: each nested call is for a group that is
-- not being resolved, so the number of groups is enough.
use clash_sub_parser.Prelude.{
  ℕ, zero, suc, ◌≡◌, ◌≤◌, ◌<◌, refl, ap, subst, ◌∙◌, sym, String, false, not, List, [], ◌∷◌, any,
  same, filter_if, count_if, length, some, String_discrete, arith, count_if-le-length,
}
use clash_sub_parser.Prelude.Maps.{Map, find}
use clash_sub_parser.Filters.Regex.{Library}
use clash_sub_parser.Resolver.Items.{Item}
use clash_sub_parser.Resolver.Groups.{Call, Shared, Group, Inventory}
use clash_sub_parser.Resolver.Groups.Removal.{apply_sources}
use clash_sub_parser.Resolver.Groups.Resolve.{
  sorted_sources, start_work, start_leaves, enter, resolve_group, resolve_group_memo, resolve_each,
}
use clash_sub_parser.Resolver.Groups.Resolve.Steps.{resolve_group_memo_cases}
use clash_sub_parser.Resolver.Groups.Preserved.{All, Kept}
use clash_sub_parser.Resolver.Groups.Preserved.Removed.{apply_sources-IsGood}
use clash_sub_parser.Resolver.Groups.Preserved.Gathered.{gather-IsGoodLeaves}

leave_entered :
    (t : String) (r : List String)
    → any (same t) r ≡ false
    → filter_if (λ x. not (same t x)) (t ∷ r) ≡ r
leave_entered t r h = ground (arith, others r h)
  where
    others : (r : List String) → any (same t) r ≡ false → filter_if (λ x. not (same t x)) r ≡ r
    others [] h = refl
    others (x ∷ r) h = ground (arith, h, others r)

-- How many groups are not being resolved.
abbrev free : {V : Type 0} → Map String V → List String → ℕ
free m r = count_if (λ e. not (any (same e.0) r)) m

free_le : {V : Type 0} (t : String) (m : Map String V) (r : List String) → free m (t ∷ r) ≤ free m r
free_le t [] r = omega arith
free_le t ((j, w) ∷ m) r = ground (arith, free_le t m r)

free_of_entered :
    {V : Type 0} (t : String) (v : V) (m : Map String V) (r : List String)
    → find String_discrete t m ≡ some v
    → any (same t) r ≡ false
    → free m (t ∷ r) < free m r
unfolding find
free_of_entered t v [] r h f = absurd cc
free_of_entered t v ((j, w) ∷ m) r h f = elim (String_discrete j t) [
  | yes e ↦
      subst (λ x. free ((x, w) ∷ m) (t ∷ r) < free ((x, w) ∷ m) r) (sym e)
        (ground (arith, f, free_le t m r))
  | no ne ↦ ground (arith, free_of_entered t v m r (ground (arith, h, ne)) f)
]

trivial_items : (is : List Item) → All (λ i. Unit) is
trivial_items [] = tt
trivial_items (i ∷ is) = (tt, trivial_items is)

module _ (lib : Library) (inv : Inventory lib) where
  -- The fuel has not run out, and these groups are being resolved.
  abbrev IsCalm : List String → Shared → Type 0
  IsCalm r sh = (sh.is_exhausted ≡ false) × (sh.resolving ≡ r)

  kept_calm :
      (r : List String) (call : Call)
      → ((t : String) (sh : Shared) → IsCalm r sh → IsCalm r (call t sh).1)
      → Kept lib inv call
  kept_calm r call h = record {
    P = IsCalm r;
    Q = λ i. Unit;
    R = λ t. Unit;
    C = λ c. Unit;
    of_add = λ i c h. tt;
    of_drop = λ pre is i seen h. tt;
    of_call = λ t sh p. (h t sh p, trivial_items (call t sh).0.leaf_items);
    of_notice = λ n sh p. p;
    of_global = λ id n e. tt;
    of_sorted = λ n i. tt;
    of_group = λ t g. tt;
    of_leaf = λ i q k. tt;
    of_builtin = λ b. tt;
  }

  resolve_group-IsCalm :
      (r : List String) (call : Call) (gid : String) (g : Group lib) (sh : Shared)
      → ((t : String) (sh : Shared) → IsCalm r sh → IsCalm r (call t sh).1)
      → IsCalm r sh
      → IsCalm r (resolve_group lib inv call gid g sh).1
  unfolding resolve_group kept_calm
  resolve_group-IsCalm r call gid g sh h p =
      let kept = kept_calm r call h in
      let w = apply_sources lib inv call g (sorted_sources lib inv g) (start_work lib inv sh) in
      let (a, b, agrees) =
        apply_sources-IsGood lib inv call kept g (sorted_sources lib inv g) (start_work lib inv sh)
          (p, tt, tt) in
      let (c, d, e) =
        gather-IsGoodLeaves lib inv call kept g w.current.items (start_leaves lib inv w.shared) b
          (a, tt, tt) in
      c

  resolve_group_memo-IsCalm :
      (fuel : ℕ) (gid : String) (r : List String) (sh : Shared)
      → free inv.groups r < fuel
      → IsCalm r sh
      → IsCalm r (resolve_group_memo lib inv fuel gid sh).1
  resolve_group_memo-IsCalm zero gid r sh f p = absurd (omega (arith, f))
  resolve_group_memo-IsCalm (suc fuel) gid r sh f (p, q) =
      resolve_group_memo_cases lib inv fuel gid sh (λ x. IsCalm r x.1) (λ m e. (p, q)) (p, q)
        (λ n. (
          p,
          ap (λ x. filter_if (λ y. not (same gid y)) (gid ∷ x)) q ∙ leave_entered gid r (absent n),
        ))
        (λ g n k.
          let less = free_of_entered gid g inv.groups r k (absent n) in
          let (u, v) =
            resolve_group-IsCalm (gid ∷ r) (resolve_group_memo lib inv fuel) gid g
              (enter lib inv gid sh)
              (λ t s c. resolve_group_memo-IsCalm fuel t (gid ∷ r) s (omega (arith, f, less)) c)
              (p, ap (λ x. gid ∷ x) q) in
          (u, ap (filter_if (λ y. not (same gid y))) v ∙ leave_entered gid r (absent n)))
    where
      absent : any (same gid) sh.resolving ≡ false → any (same gid) r ≡ false
      absent n = sym (ap (any (same gid)) q) ∙ n

-- On more fuel than there are groups, the groups are resolved one after the other without running out of
-- it, where none is being resolved before.
pub resolve_each_total :
    (lib : Library) (inv : Inventory lib) (fuel : ℕ) (gids : List String) (sh : Shared)
    → length inv.groups < fuel
    → sh.is_exhausted ≡ false
    → sh.resolving ≡ []
    → (resolve_each lib inv fuel gids sh).1.is_exhausted ≡ false
unfolding resolve_each
resolve_each_total lib inv fuel [] sh f p q = p
resolve_each_total lib inv fuel (gid ∷ gids) sh f p q =
    let enough =
      count_if-le-length (λ (e : String × Group lib). not (any (same e.0) [])) inv.groups in
    let (u, v) =
      resolve_group_memo-IsCalm lib inv fuel gid [] sh (omega (arith, f, enough)) (p, q) in
    resolve_each_total lib inv fuel gids (resolve_group_memo lib inv fuel gid sh).1 f u v
