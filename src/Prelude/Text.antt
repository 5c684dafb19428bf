-- ===== src/Prelude/Text.antt =====
-- What the program uses of Go's package strings.
use Prim.Native.Char.{Char, code}
use Prim.Native.String.append
use Prim.Native.String.{String, [], ◌∷◌, ◌++◌}
use Prim.Native.Nat.{ℕ}
use mathlib.Core.Path.{◌≡◌, ap}
use native.Mathlib.Omega.{arith}
use a2a_gateway_mcp.Prelude.Tests.{nat_eq, if◌then◌else◌}

trim_step : ℕ → Char → String → String
trim_step c d [] = if nat_eq (code d) c then [] else d ∷ []
trim_step c d (e ∷ r) = d ∷ (e ∷ r)

-- strings.TrimRight(s, cutset), for a cutset of one character, given by its code
unfoldable pub trim_right : ℕ → String → String
unfolding trim_step
trim_right c [] = []
trim_right c (d ∷ s) = trim_step c d (trim_right c s)

-- The cutset's character, any number of times, at the end makes no difference.
pub trim_right-append :
    (d : Char) (s : String) → trim_right (code d) (s ++ (d ∷ [])) ≡ trim_right (code d) s
unfolding trim_right
trim_right-append d [] = rw append.nil (ground arith)
trim_right-append d (e ∷ s) = rw append.cons (ap (trim_step (code d) e) (trim_right-append d s))
