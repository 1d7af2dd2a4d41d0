-- ===== src/Base/Strings.antt =====
-- C strings in fixed arrays: `strncpy` pads with NUL bytes, `strncmp` stops at one.
use mac_fdisk.Base.Tests.{◌==◌, if◌then◌else◌}
use Prim.Native.Nat.{ℕ, zero, suc}
use Prim.Native.Char.{code}
use Prim.Native.String.{String}
use mathlib.Core.Bool.{Bool, true, false}
use mathlib.Core.List.{List, [], ◌∷◌}

-- The bytes of an ASCII text, without the NUL at its end.
abbrev pub codes : String → List ℕ
codes String.[] = []
codes (String.◌∷◌ c s) = code c ∷ codes s

-- `strncpy(dst, s, n)` on an array of `n` bytes.
unfoldable pub strncpy : ℕ → List ℕ → List ℕ
strncpy zero s = []
strncpy (suc n) [] = 0 ∷ strncpy n []
strncpy (suc n) (c ∷ s) = c ∷ strncpy n s

-- `strncmp(s, t, n) == 0`. The end of a list stands for a NUL byte.
unfoldable pub strncmp_eq : ℕ → List ℕ → List ℕ → Bool
strncmp_eq zero s t = true
strncmp_eq (suc n) [] [] = true
strncmp_eq (suc n) [] (d ∷ t) = d == 0
strncmp_eq (suc n) (c ∷ s) [] = c == 0
strncmp_eq (suc n) (c ∷ s) (d ∷ t) =
    let rest = strncmp_eq n s t in if c == d then (if c == 0 then true else rest) else false
