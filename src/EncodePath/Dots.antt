-- ===== src/EncodePath/Dots.antt =====
-- Dot segments of a URL path, which `Url::parse` removes (the URL standard, RFC 3986 section 5.2.4),
-- and what `encode_path` does to them.
use vault_client_rs.Prelude.{
  ℕ, ◌≡◌, refl, sym, ap, ◌∙◌, subst, false, inl, inr, List, [], ◌∷◌, ◌++◌, All, ◌==◌, if◌then◌else◌,
  arith, Bool-cases, append_assoc,
}
use vault_client_rs.Prelude.Text.{Text, codes, text_eq}

-- A byte before a text that has been cut.
abbrev pub attach : ℕ → List Text → List Text
attach b [] = (b ∷ []) ∷ []
attach b (s ∷ ss) = if b == b'/' then [] ∷ s ∷ ss else (b ∷ s) ∷ ss

-- The segments between the separators, at least one.
abbrev pub segments : Text → List Text
segments [] = [] ∷ []
segments (b ∷ s) = attach b (segments s)

abbrev pub joined : List Text → Text
joined [] = []
joined (s ∷ []) = s
joined (s ∷ t ∷ ss) = s ++ (b'/' ∷ joined (t ∷ ss))

-- A dot segment at the end leaves an empty one.
abbrev closed : List Text → List Text → List Text
closed [] stack = [] ∷ stack
closed (s ∷ ss) stack = stack

abbrev tail : List Text → List Text
tail [] = []
tail (s ∷ ss) = ss

-- The segments so far, the last first, with one more, before those to come.
abbrev pub next : Text → List Text → List Text → List Text
next s ss stack =
    if text_eq s (codes "..")
    then closed ss (tail stack)
    else if text_eq s (codes ".")
    then closed ss stack
    else s ∷ stack

abbrev pub reverse_onto : List Text → List Text → List Text
reverse_onto [] ys = ys
reverse_onto (x ∷ xs) ys = reverse_onto xs (x ∷ ys)

abbrev pub resolve : List Text → List Text → List Text
resolve stack [] = reverse_onto stack []
resolve stack (s ∷ ss) = resolve (next s ss stack) ss

-- The path with its dot segments removed.
abbrev pub without_dots : Text → Text
without_dots p = joined (resolve [] (segments p))

abbrev pub IsNotUp : Text → Type 0
IsNotUp s = text_eq s (codes "..") ≡ false

abbrev pub IsPlain : Text → Type 0
IsPlain s = IsNotUp s × (text_eq s (codes ".") ≡ false)

pub segments-nonempty : (s : Text) → (h : Text) × ((t : List Text) × (segments s ≡ h ∷ t))
segments-nonempty [] = ([], ([], refl))
segments-nonempty (b ∷ s) =
    let (h, (t, e)) = segments-nonempty s in
    elim (Bool-cases (b == b'/')) [
      | inl q ↦ ([], (h ∷ t, rw (e, q) refl))
      | inr q ↦ (b ∷ h, (t, rw (e, q) refl))
    ]

pub segments-slash : (b : Text) → segments (b'/' ∷ b) ≡ [] ∷ segments b
segments-slash b = let (h, (t, e)) = segments-nonempty b in rw e refl

attach-append :
    (b : ℕ) (h : Text) (t xs : List Text) → attach b (h ∷ t) ++ xs ≡ attach b (h ∷ (t ++ xs))
attach-append b h t xs = elim (Bool-cases (b == b'/')) [ inl q ↦ rw q refl | inr q ↦ rw q refl ]

pub segments-append : (a b : Text) → segments (a ++ (b'/' ∷ b)) ≡ segments a ++ segments b
segments-append [] b = segments-slash b
segments-append (x ∷ a) b =
    let (h, (t, e)) = segments-nonempty a in
    rw (segments-append a b, e) (sym (attach-append x h t (segments b)))

joined-attach : (b : ℕ) (h : Text) (t : List Text) → joined (attach b (h ∷ t)) ≡ b ∷ joined (h ∷ t)
joined-attach b h [] = ground arith
joined-attach b h (x ∷ t) = ground arith

pub joined-segments : (s : Text) → joined (segments s) ≡ s
joined-segments [] = refl
joined-segments (b ∷ s) =
    let (h, (t, e)) = segments-nonempty s in
    ap (λ (ss : List Text). joined (attach b ss)) e
    ∙ (joined-attach b h t ∙ ap (λ (x : Text). b ∷ x) (ap joined (sym e) ∙ joined-segments s))

next-plain : (s : Text) (ss stack : List Text) → IsPlain s → next s ss stack ≡ s ∷ stack
next-plain s ss stack h = rw (h.0, h.1) refl

pub resolve-plain :
    (stack xs ys : List Text)
    → All IsPlain xs
    → resolve stack (xs ++ ys) ≡ resolve (reverse_onto xs stack) ys
resolve-plain stack [] ys h = refl
resolve-plain stack (x ∷ xs) ys h =
    ap (λ (st : List Text). resolve st (xs ++ ys)) (next-plain x (xs ++ ys) stack h.0)
    ∙ resolve-plain (x ∷ stack) xs ys h.1

-- Without `..`, nothing is taken off the stack, and something is put on it.
pub resolve-onto :
    (stack : List Text) (s : Text) (ss : List Text)
    → All IsNotUp (s ∷ ss)
    → (r : Text) × ((rs : List Text) × (resolve stack (s ∷ ss) ≡ reverse_onto stack (r ∷ rs)))
resolve-onto stack s [] h = elim (Bool-cases (text_eq s (codes "."))) [
  | inl q ↦ ([], ([], rw (h.0, q) refl))
  | inr q ↦ (s, ([], rw (h.0, q) refl))
]
resolve-onto stack s (t ∷ ss) h = elim (Bool-cases (text_eq s (codes "."))) [
  | inl q ↦ let (r, (rs, e)) = resolve-onto stack t ss h.1 in (r, (rs, rw (h.0, q) e))
  | inr q ↦ let (r, (rs, e)) = resolve-onto (s ∷ stack) t ss h.1 in (s, (r ∷ rs, rw (h.0, q) e))
]

pub reverse_onto-reverse_onto :
    (xs ys zs : List Text) → reverse_onto (reverse_onto xs ys) zs ≡ reverse_onto ys (xs ++ zs)
reverse_onto-reverse_onto [] ys zs = refl
reverse_onto-reverse_onto (x ∷ xs) ys zs = reverse_onto-reverse_onto xs (x ∷ ys) zs

pub joined-append :
    (x : Text) (xs : List Text) (r : Text) (rs : List Text)
    → joined ((x ∷ xs) ++ (r ∷ rs)) ≡ joined (x ∷ xs) ++ (b'/' ∷ joined (r ∷ rs))
joined-append x [] r rs = refl
joined-append x (y ∷ xs) r rs =
    ap (λ (s : Text). x ++ (b'/' ∷ s)) (joined-append y xs r rs)
    ∙ sym (append_assoc x (b'/' ∷ joined (y ∷ xs)) (b'/' ∷ joined (r ∷ rs)))

-- Below a prefix without dot segments, a path without `..` stays.
pub without_dots-stays :
    (p q : Text)
    → All IsPlain (segments p)
    → All IsNotUp (segments q)
    → (rest : Text) × (without_dots (p ++ (b'/' ∷ q)) ≡ p ++ (b'/' ∷ rest))
without_dots-stays p q hp hq =
    let (x, (xs, ex)) = segments-nonempty p in
    let (y, (ys, ey)) = segments-nonempty q in
    let stack = reverse_onto (segments p) [] in
    let (r, (rs, er)) = resolve-onto stack y ys (subst (All IsNotUp) ey hq) in
    let resolved : resolve [] (segments (p ++ (b'/' ∷ q))) ≡ segments p ++ (r ∷ rs) =
      ap (resolve []) (segments-append p q)
      ∙ (resolve-plain [] (segments p) (segments q) hp
          ∙ (ap (resolve stack) ey ∙ (er ∙ reverse_onto-reverse_onto (segments p) [] (r ∷ rs)))) in
    (
      joined (r ∷ rs),
      ap joined resolved
          ∙ (ap (λ (ss : List Text). joined (ss ++ (r ∷ rs))) ex
              ∙ (joined-append x xs r rs
                  ∙ ap (λ (s : Text). s ++ (b'/' ∷ joined (r ∷ rs)))
                      (ap joined (sym ex) ∙ joined-segments p))),
    )
