-- ===== src/Resolver/Groups/Resolve/Steps.antt =====
-- The four ways of `resolveGroupMemo` in internal/resolver/graph.go.
use clash_sub_parser.Prelude.{
  ℕ, suc, ◌≡◌, refl, String, Bool, true, false, any, same, Option, none, some, String_discrete,
}
use clash_sub_parser.Prelude.Maps.{find}
use clash_sub_parser.Filters.Regex.{Library}
use clash_sub_parser.Resolver.Groups.{Call, GroupMemo, empty_memo, Shared, Group, Inventory}
use clash_sub_parser.Resolver.Groups.Resolve.{
  enter, leave, resolve_group, resolve_found, resolve_guarded, resolve_with, resolve_group_memo,
}

module _ (lib : Library) (inv : Inventory lib) (fuel : ℕ) (gid : String) (sh : Shared) where
  -- A memo, a group that is being resolved, one that is missing, and one whose members are resolved.
  pub resolve_group_memo_cases :
      (P : GroupMemo × Shared → Type 0)
      → ((m : GroupMemo) → find String_discrete gid sh.memo ≡ some m → P (m, sh))
      → P (empty_memo, sh)
      → (any (same gid) sh.resolving ≡ false
          → P (leave lib inv gid (empty_memo, enter lib inv gid sh)))
      → ((g : Group lib)
          → any (same gid) sh.resolving ≡ false
          → find String_discrete gid inv.groups ≡ some g
          → P (
              leave lib inv gid (
                resolve_group lib inv
                  (resolve_group_memo lib inv fuel)
                  gid
                  g
                  (enter lib inv gid sh))))
      → P (resolve_group_memo lib inv (suc fuel) gid sh)
  unfolding resolve_group_memo
  resolve_group_memo_cases P memo busy missing present =
      with_memo (find String_discrete gid sh.memo) refl
    where
      call : Call
      call = resolve_group_memo lib inv fuel

      with_group :
          (o : Option (Group lib))
          → find String_discrete gid inv.groups ≡ o
          → any (same gid) sh.resolving ≡ false
          → P (leave lib inv gid (resolve_found lib inv call gid o (enter lib inv gid sh)))
      with_group none k f = missing f
      with_group (some g) k f = present g f k

      guarded :
          (b : Bool) → any (same gid) sh.resolving ≡ b → P (resolve_guarded lib inv call gid b sh)
      guarded true f = busy
      guarded false f = with_group (find String_discrete gid inv.groups) refl f

      with_memo :
          (o : Option GroupMemo)
          → find String_discrete gid sh.memo ≡ o
          → P (resolve_with lib inv call gid o sh)
      with_memo (some m) e = memo m e
      with_memo none e = guarded (any (same gid) sh.resolving) refl
