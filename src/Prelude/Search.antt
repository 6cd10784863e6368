-- ===== src/Prelude/Search.antt =====
-- The string searches of Prelude.Text, against the texts that they look for.
use mathlib.Core.Path.{◌≡◌, refl, sym, ap}
use mathlib.Core.Logic.{◌≢◌, inl, inr}
use mathlib.Core.Bool.{true, false}
use mathlib.Core.List.{[], ◌∷◌, ◌++◌}
use Prim.Native.Nat.{ℕ}
use native.Mathlib.Omega.{arith}
use vault_client_rs.Prelude.Tests.{◌==◌, ==_iff, Bool-cases}
use vault_client_rs.Prelude.Text.{Text, text_eq, starts_with, contains, ends_with}

-- The needle stands nowhere in the text.
abbrev pub Lacks : Text → Text → Type 0
Lacks p s = (before after : Text) → s ≢ before ++ (p ++ after)

starts_with-append : (p s : Text) → starts_with p (p ++ s) ≡ true
unfolding starts_with
starts_with-append [] s = refl
starts_with-append (a ∷ p) s = ground (arith, starts_with-append p s)

contains_of_starts_with : (p s : Text) → starts_with p s ≡ true → contains p s ≡ true
unfolding contains
contains_of_starts_with p [] h = h
contains_of_starts_with p (a ∷ s) h = rw h refl

contains-tail : (p : Text) (b : ℕ) (s : Text) → contains p s ≡ true → contains p (b ∷ s) ≡ true
unfolding contains
contains-tail p b s h = elim (Bool-cases (starts_with p (b ∷ s))) [
  | inl e ↦ rw e refl
  | inr e ↦ rw e h
]

pub contains-append : (p before after : Text) → contains p (before ++ (p ++ after)) ≡ true
contains-append p [] after = contains_of_starts_with p (p ++ after) (starts_with-append p after)
contains-append p (b ∷ before) after =
    contains-tail p b (before ++ (p ++ after)) (contains-append p before after)

pub starts_with-split : (p s : Text) → starts_with p s ≡ true → (rest : Text) × (s ≡ p ++ rest)
unfolding starts_with
starts_with-split [] s h = (s, refl)
starts_with-split (a ∷ p) [] h = cc
starts_with-split (a ∷ p) (b ∷ s) h =
    let parts : ((a == b) ≡ true) × (starts_with p s ≡ true) = ground arith in
    let (rest, e) = starts_with-split p s parts.1 in
    let first : b ≡ a = sym ((==_iff a b).0 parts.0) in (rest, cc (first, e))

contains-split :
    (p s : Text)
    → contains p s ≡ true
    → (before : Text) × (after : Text) × (s ≡ before ++ (p ++ after))
unfolding contains
contains-split p [] h = let (rest, e) = starts_with-split p [] h in ([], rest, e)
contains-split p (b ∷ s) h = elim (Bool-cases (starts_with p (b ∷ s))) [
  | inl e ↦ let (rest, e') = starts_with-split p (b ∷ s) e in ([], rest, e')
  | inr e ↦
      let (before, after, e') = contains-split p s (rw e at h) in
      (b ∷ before, after, ap (λ (t : Text). b ∷ t) e')
]

-- A search fails exactly if the needle stands nowhere.
pub contains-Lacks : (p s : Text) → contains p s ≡ false → Lacks p s
contains-Lacks p s h before after e = cc (h, ap (contains p) e, contains-append p before after)

pub Lacks-contains : (p s : Text) → Lacks p s → contains p s ≡ false
Lacks-contains p s h = elim (Bool-cases (contains p s)) [
  | inl e ↦ let (before, after, e') = contains-split p s e in absurd (h before after e')
  | inr e ↦ e
]

pub ends_with-append : (c : ℕ) (front : Text) → ends_with c (front ++ c ∷ []) ≡ true
unfolding ends_with
ends_with-append c [] = ground arith
ends_with-append c (a ∷ []) = ground arith
ends_with-append c (a ∷ b ∷ front) = ends_with-append c (b ∷ front)

pub ends_with-split :
    (c : ℕ) (s : Text) → ends_with c s ≡ true → (front : Text) × (s ≡ front ++ c ∷ [])
unfolding ends_with
ends_with-split c [] h = cc
ends_with-split c (a ∷ []) h = ([], ap (λ (x : ℕ). x ∷ []) ((==_iff a c).0 h))
ends_with-split c (a ∷ b ∷ s) h =
    let (front, e) = ends_with-split c (b ∷ s) h in (a ∷ front, ap (λ (t : Text). a ∷ t) e)

pub text_eq_path : (s t : Text) → text_eq s t ≡ true → s ≡ t
text_eq_path [] [] h = refl
text_eq_path [] (b ∷ t) h = absurd (cc h)
text_eq_path (a ∷ s) [] h = absurd (cc h)
text_eq_path (a ∷ s) (b ∷ t) h =
    let head : a ≡ b = ground arith in
    let rest : text_eq s t ≡ true = ground arith in cc (head, text_eq_path s t rest)

pub text_eq_refl : (s : Text) → text_eq s s ≡ true
text_eq_refl [] = refl
text_eq_refl (a ∷ s) = ground (arith, text_eq_refl s)
