-- ===== src/Prelude/Trim.antt =====
-- `str::trim`: the white space of Unicode, by its UTF-8 bytes.
use Prim.Native.Nat.{ℕ}
use mathlib.Core.Bool.{Bool, true, false, ◌&&◌, ◌||◌}
use mathlib.Core.Option.{Option, none, some}
use mathlib.Core.List.{[], ◌∷◌}
use vault_client_rs.Prelude.Tests.{leb, ◌==◌, if◌then◌else◌}
use vault_client_rs.Prelude.Text.{Text}

-- How much of a white space character has been read: nothing, the first byte of one of two, what may be
-- a line of the blocks 0xe280 and 0xe281, or all but a last 0x80.
pub data Scan : Type 0 where
  between after_c2 after_e1 after_e2 after_e280 after_e281 after_e3 before_80 : Scan

within : ℕ → ℕ → ℕ → Bool
within a b c = leb a c && leb c b

expect : Bool → Scan → Option Scan
expect b st = if b then some st else none

-- The state after a byte, or `none` if it is part of no white space.
scan : Scan → ℕ → Option Scan
unfolding within expect
scan between c =
    if within 9 13 c || c == 32
    then some between
    else if c == 0xc2
    then some after_c2
    else if c == 0xe1
    then some after_e1
    else if c == 0xe2
    then some after_e2
    else expect (c == 0xe3) after_e3
scan after_c2 c = expect (c == 0x85 || c == 0xa0) between
scan after_e1 c = expect (c == 0x9a) before_80
scan after_e2 c = if c == 0x80 then some after_e280 else expect (c == 0x81) after_e281
scan after_e280 c = expect (within 0x80 0x8a c || c == 0xa8 || c == 0xa9 || c == 0xaf) between
scan after_e281 c = expect (c == 0x9f) between
scan after_e3 c = expect (c == 0x80) before_80
scan before_80 c = expect (c == 0x80) between

-- All white space, from a state.
is_blank : Scan → Text → Bool
unfolding scan
is_blank between [] = true
is_blank _ [] = false
is_blank st (c ∷ s) = elim (scan st c) [ none ↦ false | some next ↦ is_blank next s ]

-- The text from its first character that is none, where `held` starts at the character being read.
skip_blank : Scan → Text → Text → Text
unfolding scan
skip_blank between held [] = []
skip_blank _ held [] = held
skip_blank between held (c ∷ s) = elim (scan between c) [
  | none ↦ c ∷ s
  | some next ↦ skip_blank next (c ∷ s) s
]
skip_blank st held (c ∷ s) = elim (scan st c) [ none ↦ held | some next ↦ skip_blank next held s ]

trim_end : Text → Text
unfolding is_blank
trim_end [] = []
trim_end (c ∷ s) = let rest = trim_end s in if is_blank between (c ∷ s) then [] else c ∷ rest

unfoldable pub trim : Text → Text
unfolding skip_blank trim_end
trim s = trim_end (skip_blank between s s)
