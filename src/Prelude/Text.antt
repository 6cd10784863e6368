-- ===== src/Prelude/Text.antt =====
-- Rust strings as their bytes, with the standard library's tests on them.
use Prim.Native.Nat.{ℕ, ◌+◌, ◌-◌, ◌*◌, ◌^◌}
use Prim.Native.Char.{code}
use Prim.Native.String.{String}
use mathlib.Core.Bool.{Bool, true, false, ◌&&◌, ◌||◌}
use mathlib.Core.Option.{Option, none, some}
use mathlib.Core.List.{List, [], ◌∷◌}
use vault_client_rs.Prelude.Tests.{ltb, leb, ◌==◌, if◌then◌else◌}

abbrev pub Text : Type 0
Text = List ℕ

-- The bytes of an ASCII literal.
abbrev pub codes : String → Text
codes String.[] = []
codes (String.◌∷◌ c s) = code c ∷ codes s

abbrev pub text_eq : Text → Text → Bool
text_eq [] [] = true
text_eq [] (b ∷ t) = false
text_eq (a ∷ s) [] = false
text_eq (a ∷ s) (b ∷ t) = a == b && text_eq s t

-- `s.starts_with(p)`, the prefix first.
unfoldable pub starts_with : Text → Text → Bool
starts_with [] s = true
starts_with (a ∷ p) [] = false
starts_with (a ∷ p) (b ∷ s) = a == b && starts_with p s

-- `s.contains(p)`, the needle first.
unfoldable pub contains : Text → Text → Bool
unfolding starts_with
contains p [] = starts_with p []
contains p (a ∷ s) = starts_with p (a ∷ s) || contains p s

-- `s.ends_with(c)` for a one-byte character.
unfoldable pub ends_with : ℕ → Text → Bool
ends_with c [] = false
ends_with c (a ∷ []) = a == c
ends_with c (a ∷ b ∷ s) = ends_with c (b ∷ s)

-- `s.trim_start_matches(c)`.
unfoldable pub trim_start_matches : ℕ → Text → Text
trim_start_matches c [] = []
trim_start_matches c (a ∷ s) = let rest = trim_start_matches c s in if a == c then rest else a ∷ s

-- `str::parse::<u64>` without its optional sign: digits only, at least one, no overflow.
digits : ℕ → Text → Option ℕ
digits n [] = some n
digits n (c ∷ rest) =
    let m = n * 10 + (c - 48) in
    let more = digits m rest in if leb 48 c && leb c 57 && ltb m (2 ^ 64) then more else none

unfoldable pub parse_u64 : Text → Option ℕ
unfolding digits
parse_u64 [] = none
parse_u64 (c ∷ []) = digits 0 (c ∷ [])
parse_u64 (c ∷ d ∷ rest) = if c == 43 then digits 0 (d ∷ rest) else digits 0 (c ∷ d ∷ rest)
