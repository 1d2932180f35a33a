-- ===== src/Common/Trims.antt =====
-- `String.trim` and `String.startsWith`.
use Prim.Native.Nat.{ℕ}
use mathlib.Core.Bool.{Bool, true, ◌&&◌, ◌||◌}
use mathlib.Core.List.{[], ◌∷◌}
use mathlib.Core.Option.{Option, none, some}
use agentic_collab.Common.Tests.{leb, ◌==◌, if◌then◌else◌}
use agentic_collab.Common.Codes.{Text}

-- White space and line ends, at both ends.
abbrev pub is_space : ℕ → Bool
is_space c =
    (leb 9 c && leb c 13)
    || (c == 32)
    || (c == 160)
    || (c == 5760)
    || (leb 8192 c && leb c 8202)
    || (c == 8232)
    || (c == 8233)
    || (c == 8239)
    || (c == 8287)
    || (c == 12288)
    || (c == 65279)

unfoldable pub trim_start : Text → Text
trim_start [] = []
trim_start (c ∷ cs) = let rest = trim_start cs in if is_space c then rest else c ∷ cs

unfoldable pub all_space : Text → Bool
all_space [] = true
all_space (c ∷ cs) = is_space c && all_space cs

unfoldable pub trim_end : Text → Text
trim_end [] = []
trim_end (c ∷ cs) = if all_space (c ∷ cs) then [] else c ∷ trim_end cs

unfoldable pub trim : Text → Text
trim s = trim_end (trim_start s)

-- What follows a prefix, where the text starts with it.
unfoldable pub after_prefix : Text → Text → Option Text
after_prefix [] cs = some cs
after_prefix (p ∷ ps) [] = none
after_prefix (p ∷ ps) (c ∷ cs) = if p == c then after_prefix ps cs else none
