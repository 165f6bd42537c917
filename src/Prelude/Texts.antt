-- ===== src/Prelude/Texts.antt =====
-- C strings as lists of their bytes, without the NUL, and the functions of string.h on them. A
-- pointer into a string is the rest of the string behind it.
use Prim.Native.Char.{code}
use Prim.Native.String.{String}
use Prim.Native.Nat.{ℕ, zero, suc}
use mathlib.Core.Bool.{Bool, true, false, ◌&&◌}
use mathlib.Core.List.{List, [], ◌∷◌}
use mathlib.Core.Option.{Option, none, some}
use ucloud_iot_rtthread_pack.Prelude.Tests.{◌==◌, if◌then◌else◌}

abbrev pub Text : Type 0
Text = List ℕ

-- The bytes of a text.
abbrev pub codes : String → Text
codes String.[] = []
codes (String.◌∷◌ c s) = code c ∷ codes s

-- strchr: `none` is NULL.
abbrev pub strchr : Text → ℕ → Option Text
strchr [] k = none
strchr (c ∷ s) k = if c == k then some (c ∷ s) else strchr s k

-- strncmp(s, t, n) == 0
abbrev pub strncmp_eq : Text → Text → ℕ → Bool
strncmp_eq s t zero = true
strncmp_eq [] [] (suc n) = true
strncmp_eq [] (d ∷ t) (suc n) = false
strncmp_eq (c ∷ s) [] (suc n) = false
strncmp_eq (c ∷ s) (d ∷ t) (suc n) = c == d && strncmp_eq s t n
