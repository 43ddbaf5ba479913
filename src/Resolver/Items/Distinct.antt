-- ===== src/Resolver/Items/Distinct.antt =====
-- The items of a group in internal/resolver/graph.go agree with the set of those seen.
use clash_sub_parser.Prelude.{
  ◌≡◌, ◌⊎◌, inl, inr, refl, subst, ◌∙◌, sym, Bool, true, false, not, ◌&&◌, ◌||◌, List, [], ◌∷◌,
  ◌++◌, if_cases, any, Bool-cases, arith,
}
use clash_sub_parser.Compiler.Prune.{MemberKind, group, node, builtin, no_kind}
use clash_sub_parser.Resolver.Items.{
  Item, Key, key_of, same_kind, same_key, Current, add_item, forget,
}

same_kind-eq : (k l : MemberKind) → same_kind k l ≡ true → k ≡ l
same_kind-eq group group h = refl
same_kind-eq node node h = refl
same_kind-eq builtin builtin h = refl
same_kind-eq no_kind no_kind h = refl
same_kind-eq group node h = absurd cc
same_kind-eq group builtin h = absurd cc
same_kind-eq group no_kind h = absurd cc
same_kind-eq node group h = absurd cc
same_kind-eq node builtin h = absurd cc
same_kind-eq node no_kind h = absurd cc
same_kind-eq builtin group h = absurd cc
same_kind-eq builtin node h = absurd cc
same_kind-eq builtin no_kind h = absurd cc
same_kind-eq no_kind group h = absurd cc
same_kind-eq no_kind node h = absurd cc
same_kind-eq no_kind builtin h = absurd cc

same_key-eq : (k l : Key) → same_key k l ≡ true → k ≡ l
same_key-eq (k, t) (l, u) h =
    let e : k ≡ l = same_kind-eq k l (ground (arith, h)) in let f : t ≡ u = ground (arith, h) in cc

same_kind_self : (k : MemberKind) → same_kind k k ≡ true
same_kind_self group = refl
same_kind_self node = refl
same_kind_self builtin = refl
same_kind_self no_kind = refl

same_key_self : (k : Key) → same_key k k ≡ true
same_key_self (k, t) = ground (arith, same_kind_self k)

same_key_comm : (k l : Key) → same_key k l ≡ same_key l k
same_key_comm k l = elim (Bool-cases (same_key k l)) [
  | inl e ↦ e ∙ sym (subst (λ x. same_key x k ≡ true) (same_key-eq k l e) (same_key_self k))
  | inr e ↦ elim (Bool-cases (same_key l k)) [
    | inl f ↦
        absurd (
          ground (arith, e, subst (λ x. same_key x l ≡ true) (same_key-eq l k f) (same_key_self l)))
    | inr f ↦ e ∙ sym f
  ]
]

-- An item with the key is among these.
abbrev pub has_key : Key → List Item → Bool
has_key k is = any (λ i. same_key k (key_of i)) is

-- No two items have the same key.
abbrev pub IsDistinct : List Item → Type 0
IsDistinct [] = Unit
IsDistinct (i ∷ is) = (has_key (key_of i) is ≡ false) × IsDistinct is

-- The items are distinct, and the set has their keys.
abbrev pub Agrees : Current → Type 0
Agrees c = IsDistinct c.items × ((k : Key) → any (same_key k) c.seen ≡ has_key k c.items)

has_key-append :
    (k : Key) (xs ys : List Item) → has_key k (xs ++ ys) ≡ (has_key k xs || has_key k ys)
has_key-append k [] ys = refl
has_key-append k (x ∷ xs) ys = ground (arith, has_key-append k xs ys)

append-IsDistinct :
    (xs : List Item) (i : Item)
    → IsDistinct xs
    → has_key (key_of i) xs ≡ false
    → IsDistinct (xs ++ (i ∷ []))
append-IsDistinct [] i d h = (refl, tt)
append-IsDistinct (x ∷ xs) i d h = (
  ground
      (arith, d.0, h, has_key-append (key_of x) xs (i ∷ []), same_key_comm (key_of x) (key_of i)),
  append-IsDistinct xs i d.1 (ground (arith, h)),
)

pub add_item-Agrees : (i : Item) (c : Current) → Agrees c → Agrees (add_item i c)
unfolding add_item
add_item-Agrees i c (d, a) =
    if_cases Agrees (any (same_key (key_of i)) c.seen) _ _ (λ h. (d, a))
      (λ h. (
        append-IsDistinct c.items i d (sym (a (key_of i)) ∙ h),
        λ k. ground (arith, a k, has_key-append k c.items (i ∷ [])),
      ))

any-forget :
    (i : Item) (k : Key) (seen : List Key)
    → any (same_key k) (forget i seen) ≡ (any (same_key k) seen && not (same_key (key_of i) k))
unfolding forget
any-forget i k [] = ground arith
any-forget i k (l ∷ seen) = elim (Bool-cases (same_key k l)) [
  | inl e ↦
      subst
        (λ x.
          any (same_key k) (forget i (x ∷ seen))
          ≡ (any (same_key k) (x ∷ seen) && not (same_key (key_of i) k)))
        (same_key-eq k l e) (ground (arith, any-forget i k seen, same_key_self k))
  | inr e ↦ ground (arith, e, any-forget i k seen)
]

drop-IsDistinct :
    (pre is : List Item) (i : Item)
    → IsDistinct (pre ++ (i ∷ is))
    → IsDistinct (pre ++ is) × (has_key (key_of i) (pre ++ is) ≡ false)
drop-IsDistinct [] is i d = (d.1, d.0)
drop-IsDistinct (x ∷ pre) is i d =
    let (u, v) = drop-IsDistinct pre is i d.1 in
    let a = has_key-append (key_of x) pre (i ∷ is) in
    let b = has_key-append (key_of x) pre is in
    ((ground (arith, d.0, a, b), u), ground (arith, d.0, a, v, same_key_comm (key_of i) (key_of x)))

-- An item that is dropped and forgotten leaves the set of the others.
pub drop-Agrees :
    (pre is : List Item) (i : Item) (seen : List Key)
    → Agrees (record { items = pre ++ (i ∷ is); seen = seen })
    → Agrees (record { items = pre ++ is; seen = forget i seen })
drop-Agrees pre is i seen (d, a) =
    let (u, v) = drop-IsDistinct pre is i d in
    (u, λ k. any-forget i k seen ∙ others k (Bool-cases (same_key (key_of i) k)) v)
  where
    others :
        (k : Key)
        → (same_key (key_of i) k ≡ true) ⊎ (same_key (key_of i) k ≡ false)
        → has_key (key_of i) (pre ++ is) ≡ false
        → (any (same_key k) seen && not (same_key (key_of i) k)) ≡ has_key k (pre ++ is)
    others k (inl e) v =
        ground (arith, e, subst (λ x. has_key x (pre ++ is) ≡ false) (same_key-eq (key_of i) k e) v)
    others k (inr e) v = ground (
      arith,
      e,
      a k,
      has_key-append k pre (i ∷ is),
      has_key-append k pre is,
      same_key_comm k (key_of i),
    )
