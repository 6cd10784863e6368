-- ===== src/Redaction/Reveals.antt =====
-- How much of a secret `redact` of types/redaction.rs shows.
use vault_client_rs.Prelude.{
  ◌≤◌, ◌<◌, ◌⊎◌, ◌≡◌, refl, [], ◌∷◌, ◌++◌, length, take, arith, ltb, if◌then◌else◌,
}
use vault_client_rs.Prelude.Text.{Text, codes}
use vault_client_rs.Redaction.{
  RedactionLevel, full, partial, unredacted, as_u8, redaction_level, redact,
}

-- What is set is read back.
pub redaction_level-as_u8 : (l : RedactionLevel) → redaction_level (as_u8 l) ≡ l
unfolding redaction_level as_u8
redaction_level-as_u8 full = refl
redaction_level-as_u8 partial = refl
redaction_level-as_u8 unredacted = refl

-- `partial` in terms of the length of the secret.
redact-partial :
    (a : Text)
    → redact partial a ≡ (if ltb 4 (length a) then take 4 a ++ codes "..." else codes "[REDACTED]")
unfolding redact
redact-partial [] = refl
redact-partial (p ∷ []) = refl
redact-partial (p ∷ q ∷ []) = refl
redact-partial (p ∷ q ∷ r ∷ []) = refl
redact-partial (p ∷ q ∷ r ∷ s ∷ []) = refl
redact-partial (p ∷ q ∷ r ∷ s ∷ t ∷ rest) = ground arith

-- At the level `full`, any two secrets are shown alike. At `partial`, so are two secrets of at most four
-- characters, and two longer ones that agree in their first four.
redact_hides :
    (a b : Text)
    → ((length a ≤ 4) × (length b ≤ 4)) ⊎ ((4 < length a) × (4 < length b) × (take 4 a ≡ take 4 b))
    → (redact full a ≡ redact full b) × (redact partial a ≡ redact partial b)
redact_hides a b h = (unfold redact in refl, rw (redact-partial a, redact-partial b) (ground arith))
