-- ===== src/Prelude/Text.antt =====
-- Equality of texts as a decision.
use Prim.Native.String.{String}
use mathlib.Core.Path.{◌≡◌, refl}
use mathlib.Core.Logic.{◌↔◌}
use mathlib.Core.Bool.{Bool, true, false}
use text.Mathlib.Text.{◌==◌}
use clash_sub_parser.Prelude.Tests.{is_yes}
use text.Mathlib.TextEquality.{eq_iff}

pub decide_by {ℓ} : {P : Type ℓ} (b : Bool) → (b ≡ true) ↔ P → Dec P
decide_by true e = yes (e.0 refl)
decide_by false e = no (λ p. cc (e.1 p))

unfoldable pub String_discrete : Discrete String
unfolding decide_by
String_discrete s t = decide_by (s == t) (eq_iff s t)

abbrev pub same : String → String → Bool
same s t = is_yes (String_discrete s t)
