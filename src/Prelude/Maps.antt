-- ===== src/Prelude/Maps.antt =====
-- Go maps as association lists. The order of the entries is the order in which `range` visits them,
-- which Go leaves open: what is proved for every list holds for every order.
use Prim.Native.Nat.{◌+◌, suc}
use clash_sub_parser.Prelude.Lists.{length, count_if}
use clash_sub_parser.Prelude.Tests.{if◌then◌else◌}
use mathlib.Core.Path.{◌≡◌, refl}
use mathlib.Core.Bool.{Bool, true, false}
use mathlib.Core.Logic.{◌≢◌, ite}
use mathlib.Core.List.{List, [], ◌∷◌}
use mathlib.Core.Option.{Option, none, some}
use native.Mathlib.Omega.{arith}

abbrev pub Map : Type 0 → Type 0 → Type 0
Map K V = List (K × V)

module _ {K V : Type 0} (dec : Discrete K) where
  -- `m[k]` with its presence.
  unfoldable pub find : K → Map K V → Option V
  find k [] = none
  find k ((j, v) ∷ m) = ite (dec j k) (some v) (find k m)

  -- `m[k]`, with the zero value where the key is missing.
  unfoldable pub get : V → K → Map K V → V
  get d k [] = d
  get d k ((j, v) ∷ m) = ite (dec j k) v (get d k m)

  unfoldable pub has : K → Map K V → Bool
  has k [] = false
  has k ((j, v) ∷ m) = ite (dec j k) true (has k m)

  -- `m[k] = v`
  unfoldable pub set : K → V → Map K V → Map K V
  set k v [] = (k, v) ∷ []
  set k v ((j, w) ∷ m) = ite (dec j k) ((j, v) ∷ m) ((j, w) ∷ set k v m)

  -- `delete(m, k)`
  unfoldable pub remove : K → Map K V → Map K V
  remove k [] = []
  remove k ((j, w) ∷ m) = ite (dec j k) m ((j, w) ∷ remove k m)

  -- A key has one entry.
  abbrev pub IsUnique : Map K V → Type 0
  IsUnique [] = Unit
  IsUnique ((k, v) ∷ m) = (has k m ≡ false) × IsUnique m

  pub find-set :
      (k j : K) (v : V) (m : Map K V) → find j (set k v m) ≡ ite (dec k j) (some v) (find j m)
  unfolding find set
  find-set k j v [] = refl
  find-set k j v ((i, w) ∷ m) = ground (arith, find-set k j v m)

  pub get-set :
      (d : V) (k j : K) (v : V) (m : Map K V) → get d j (set k v m) ≡ ite (dec k j) v (get d j m)
  unfolding get set
  get-set d k j v [] = refl
  get-set d k j v ((i, w) ∷ m) = ground (arith, get-set d k j v m)

  pub has-set : (k j : K) (v : V) (m : Map K V) → has j (set k v m) ≡ ite (dec k j) true (has j m)
  unfolding has set
  has-set k j v [] = refl
  has-set k j v ((i, w) ∷ m) = ground (arith, has-set k j v m)

  pub get_of_missing : (d : V) (k : K) (m : Map K V) → has k m ≡ false → get d k m ≡ d
  unfolding get has
  get_of_missing d k [] h = refl
  get_of_missing d k ((j, w) ∷ m) h = ground (arith, get_of_missing d k m)

  pub has-remove :
      (k j : K) (m : Map K V) → IsUnique m → has j (remove k m) ≡ ite (dec k j) false (has j m)
  unfolding has remove
  has-remove k j [] u = ground arith
  has-remove k j ((i, w) ∷ m) u = ground (arith, has-remove k j m u.1)

  pub get-remove :
      (d : V) (k j : K) (m : Map K V)
      → IsUnique m
      → get d j (remove k m) ≡ ite (dec k j) d (get d j m)
  unfolding get remove
  get-remove d k j [] u = ground arith
  get-remove d k j ((i, w) ∷ m) u = ground (arith, get-remove d k j m u.1, get_of_missing d i m)

  pub set-IsUnique : (k : K) (v : V) (m : Map K V) → IsUnique m → IsUnique (set k v m)
  unfolding set has
  set-IsUnique k v [] u = (refl, tt)
  set-IsUnique k v ((j, w) ∷ m) u = ground (arith, set-IsUnique k v m u.1, has-set k j v m)

  pub remove-IsUnique : (k : K) (m : Map K V) → IsUnique m → IsUnique (remove k m)
  unfolding remove
  remove-IsUnique k [] u = tt
  remove-IsUnique k ((j, w) ∷ m) u = ground (arith, remove-IsUnique k m u.1, has-remove k j m u.1)

  -- A new key adds an entry.
  pub length-set_of_missing :
      (k : K) (v : V) (m : Map K V) → has k m ≡ false → length (set k v m) ≡ suc (length m)
  unfolding set has
  length-set_of_missing k v [] h = refl
  length-set_of_missing k v ((j, w) ∷ m) h = ground (arith, length-set_of_missing k v m)

  pub count_if-set_of_missing :
      (p : V → Bool) (k : K) (v : V) (m : Map K V)
      → has k m ≡ false
      → count_if (λ e. p e.1) (set k v m) ≡ count_if (λ e. p e.1) m + (if p v then 1 else 0)
  unfolding set has
  count_if-set_of_missing p k v [] h = ground arith
  count_if-set_of_missing p k v ((j, w) ∷ m) h = ground (arith, count_if-set_of_missing p k v m)

  -- A key that is there loses its entry.
  pub length-remove_of_find :
      (k : K) (v : V) (m : Map K V) → find k m ≡ some v → suc (length (remove k m)) ≡ length m
  unfolding find remove
  length-remove_of_find k v [] h = ground arith
  length-remove_of_find k v ((j, w) ∷ m) h = ground (arith, length-remove_of_find k v m)

  pub count_if-remove_of_find :
      (p : V → Bool) (k : K) (v : V) (m : Map K V)
      → find k m ≡ some v
      → count_if (λ e. p e.1) (remove k m) + (if p v then 1 else 0) ≡ count_if (λ e. p e.1) m
  unfolding find remove
  count_if-remove_of_find p k v [] h = ground arith
  count_if-remove_of_find p k v ((j, w) ∷ m) h = ground (arith, count_if-remove_of_find p k v m)

  pub find-remove_of_ne : (k j : K) (m : Map K V) → k ≢ j → find j (remove k m) ≡ find j m
  unfolding find remove
  find-remove_of_ne k j [] h = refl
  find-remove_of_ne k j ((i, w) ∷ m) h = ground (arith, find-remove_of_ne k j m h)
