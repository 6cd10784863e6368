-- ===== src/VaultPath/Validated.antt =====
-- What `validate_vault_path` of types/secret.rs accepts, without its string searches.
use vault_client_rs.Prelude.{
  ℕ, ◌≤◌, ◌≡◌, ◌≢◌, ◌↔◌, refl, ap, true, false, inl, inr, [], ◌∷◌, ◌++◌, All, leb, ◌==◌, ◌&&◌,
  arith, Bool-cases,
}
use vault_client_rs.Prelude.Text.{Text, codes, starts_with, ends_with}
use vault_client_rs.Prelude.Search.{
  Lacks, starts_with-split, contains-Lacks, Lacks-contains, ends_with-append, ends_with-split,
}
use vault_client_rs.VaultPath.{is_empty, has_control, is_invalid, new}

-- A path that is accepted: no empty path, no separator at either end, no `..`, no encoded dot or
-- separator, and no control character: none of ASCII, and none of U+0080 to U+009F, whose bytes are 0xC2
-- and that code.
pub record IsVaultPath (s : Text) : Type 0 where
  pub nonempty : s ≢ []
  pub no_leading : (rest : Text) → s ≢ b'/' ∷ rest
  pub no_trailing : (front : Text) → s ≢ front ++ b'/' ∷ []
  pub no_traversal : Lacks (codes "..") s
  pub no_dot : Lacks (codes "%2e") s × Lacks (codes "%2E") s
  pub no_separator : Lacks (codes "%2f") s × Lacks (codes "%2F") s
  pub no_nul : Lacks (0 ∷ []) s
  pub no_ascii_control : All (λ b. (0x20 ≤ b) × (b ≢ 0x7f)) s
  pub no_other_control : (c : ℕ) → 0x80 ≤ c → c ≤ 0x9f → Lacks (0xc2 ∷ c ∷ []) s

has_control-tail : (b : ℕ) (s : Text) → has_control s ≡ true → has_control (b ∷ s) ≡ true
unfolding has_control
has_control-tail b [] h = absurd (cc h)
has_control-tail b (c ∷ s) h = ground (arith, h)

has_control-append :
    (before after : Text) (c : ℕ)
    → 0x80 ≤ c
    → c ≤ 0x9f
    → has_control (before ++ (0xc2 ∷ c ∷ after)) ≡ true
unfolding has_control
has_control-append [] after c l r = ground arith
has_control-append (b ∷ before) after c l r =
    has_control-tail b (before ++ (0xc2 ∷ c ∷ after)) (has_control-append before after c l r)

has_control-ascii : (s : Text) → has_control s ≡ false → All (λ b. (0x20 ≤ b) × (b ≢ 0x7f)) s
unfolding has_control
has_control-ascii [] h = tt
has_control-ascii (b ∷ []) h = ground arith
has_control-ascii (b ∷ c ∷ s) h = (ground arith, has_control-ascii (c ∷ s) (ground arith))

has_control-other :
    (s : Text) → has_control s ≡ false → (c : ℕ) → 0x80 ≤ c → c ≤ 0x9f → Lacks (0xc2 ∷ c ∷ []) s
has_control-other s h c l r before after e =
    cc (h, ap has_control e, has_control-append before after c l r)

no-has_control :
    (s : Text)
    → All (λ b. (0x20 ≤ b) × (b ≢ 0x7f)) s
    → ((c : ℕ) → 0x80 ≤ c → c ≤ 0x9f → Lacks (0xc2 ∷ c ∷ []) s)
    → has_control s ≡ false
unfolding has_control
no-has_control [] a o = refl
no-has_control (b ∷ []) a o = ground arith
no-has_control (b ∷ c ∷ s) a o =
    let rest =
      no-has_control (c ∷ s) a.1
        (λ d l r before after e. o d l r (b ∷ before) after (ap (λ (t : Text). b ∷ t) e)) in
    elim (Bool-cases (b == 0xc2 && leb 0x80 c && leb c 0x9f)) [
      | inl e ↦
          let first : b ≡ 0xc2 = ground arith in
          absurd (o c (ground arith) (ground arith) [] s (ap (λ (x : ℕ). x ∷ c ∷ s) first))
      | inr e ↦ ground (arith, rest, a.0)
    ]

starts_with-slash : (s : Text) → starts_with (codes "/") s ≡ false → (rest : Text) → s ≢ b'/' ∷ rest
unfolding starts_with
starts_with-slash s h rest e = cc (h, e)

is_invalid-IsVaultPath : (s : Text) → is_invalid s ≡ false → IsVaultPath s
unfolding is_invalid
is_invalid-IsVaultPath s h = record {
  nonempty = λ e. let full : is_empty s ≡ false = ground arith in cc (full, ap is_empty e);
  no_leading = starts_with-slash s (ground arith);
  no_trailing = λ front e.
      let other : ends_with b'/' s ≡ false = ground arith in
      cc (other, ap (ends_with b'/') e, ends_with-append b'/' front);
  no_traversal = contains-Lacks (codes "..") s (ground arith);
  no_dot = (
    contains-Lacks (codes "%2e") s (ground arith),
    contains-Lacks (codes "%2E") s (ground arith),
  );
  no_separator = (
    contains-Lacks (codes "%2f") s (ground arith),
    contains-Lacks (codes "%2F") s (ground arith),
  );
  no_nul = contains-Lacks (0 ∷ []) s (ground arith);
  no_ascii_control = has_control-ascii s (ground arith);
  no_other_control = has_control-other s (ground arith);
}

nonempty-is_empty : (s : Text) → s ≢ [] → is_empty s ≡ false
unfolding is_empty
nonempty-is_empty [] h = absurd (h refl)
nonempty-is_empty (b ∷ s) h = refl

slash-starts_with :
    (s : Text) → ((rest : Text) → s ≢ b'/' ∷ rest) → starts_with (codes "/") s ≡ false
slash-starts_with s h = elim (Bool-cases (starts_with (codes "/") s)) [
  | inl e ↦ let (rest, e') = starts_with-split (codes "/") s e in absurd (h rest e')
  | inr e ↦ e
]

slash-ends_with : (s : Text) → ((front : Text) → s ≢ front ++ b'/' ∷ []) → ends_with b'/' s ≡ false
slash-ends_with s h = elim (Bool-cases (ends_with b'/' s)) [
  | inl e ↦ let (front, e') = ends_with-split b'/' s e in absurd (h front e')
  | inr e ↦ e
]

IsVaultPath-is_invalid : (s : Text) → IsVaultPath s → is_invalid s ≡ false
unfolding is_invalid
IsVaultPath-is_invalid s v =
    rw
      (
        nonempty-is_empty s v.nonempty,
        Lacks-contains (codes "..") s v.no_traversal,
        slash-starts_with s v.no_leading,
        slash-ends_with s v.no_trailing,
        Lacks-contains (0 ∷ []) s v.no_nul,
        Lacks-contains (codes "%2e") s v.no_dot.0,
        Lacks-contains (codes "%2E") s v.no_dot.1,
        Lacks-contains (codes "%2f") s v.no_separator.0,
        Lacks-contains (codes "%2F") s v.no_separator.1,
      )
      (no-has_control s v.no_ascii_control v.no_other_control)

-- `MountPath::new` and `SecretPath::new` accept a string exactly if it is a vault path in this sense,
-- and then keep it as it is.
pub new_accepts :
    (debug : Text → Text) (label s : Text) → (new debug label s ≡ inr s) ↔ IsVaultPath s
unfolding new
new_accepts debug label s = (
  (λ h. is_invalid-IsVaultPath s (ground arith)),
  (λ v. ground (arith, IsVaultPath-is_invalid s v)),
)
