-- ===== src/Redaction/Cut.antt =====
-- Debug output of types/response.rs and types/kv.rs: how much of the secrets of a response it depends on.
use vault_client_rs.Prelude.{ℕ, ◌≡◌, refl, ap, Option, none, some, [], ◌∷◌, take}
use vault_client_rs.Prelude.Text.{Text}
use vault_client_rs.VaultResponse.{AuthInfo, WrapInfo, VaultResponse}
use vault_client_rs.Kv.{KvReadResponse}
use vault_client_rs.Redaction.{RedactionLevel, full, partial, redact}
use vault_client_rs.Redaction.Shown.{
  Shown, text, present, optional, debug_auth_info, debug_wrap_info, debug_response,
  debug_kv_read_response,
}

cut_option : {A B : Type 0} → (A → B) → Option A → Option B
cut_option f none = none
cut_option f (some x) = some (f x)

cut_auth : ℕ → AuthInfo → AuthInfo
cut_auth n a = record a { client_token = take n a.client_token }

cut_wrap : ℕ → WrapInfo → WrapInfo
cut_wrap n i = record i { token = take n i.token }

-- A response with the text of its data for the data, its secrets cut after `n` characters.
unfoldable pub cut_response : {T : Type 0} → ℕ → (T → Text) → VaultResponse T → VaultResponse Text
unfolding cut_option cut_auth cut_wrap
cut_response n format r = record {
  request_id = r.request_id;
  lease_id = r.lease_id;
  lease_duration = r.lease_duration;
  renewable = r.renewable;
  data_field = cut_option (λ d. take n (format d)) r.data_field;
  auth = cut_option (cut_auth n) r.auth;
  warnings = r.warnings;
  wrap_info = cut_option (cut_wrap n) r.wrap_info;
}

unfoldable pub cut_kv_read_response :
    {T : Type 0} → ℕ → (T → Text) → KvReadResponse T → KvReadResponse Text
cut_kv_read_response n format r = record {
  data_field = take n (format r.data_field);
  metadata = r.metadata;
}

redact-full : (a : Text) → redact full [] ≡ redact full a
unfolding redact
redact-full a = refl

-- `partial` looks at five characters: the four that it shows and whether there is another.
redact-take : (a : Text) → redact partial (take 5 a) ≡ redact partial a
unfolding redact
redact-take [] = refl
redact-take (p ∷ []) = refl
redact-take (p ∷ q ∷ []) = refl
redact-take (p ∷ q ∷ r ∷ []) = refl
redact-take (p ∷ q ∷ r ∷ s ∷ []) = refl
redact-take (p ∷ q ∷ r ∷ s ∷ t ∷ rest) = refl

optional-cut :
    {A B : Type 0} (f : B → Shown) (g : A → B) (h : A → Shown) (o : Option A)
    → ((x : A) → f (g x) ≡ h x)
    → optional f (cut_option g o) ≡ optional h o
unfolding cut_option
optional-cut f g h none e = refl
optional-cut f g h (some x) e = ap present (e x)

module _ (level : RedactionLevel) (n : ℕ)
    (same : (a : Text) → redact level (take n a) ≡ redact level a) where
  auth_info-cut : (a : AuthInfo) → debug_auth_info level (cut_auth n a) ≡ debug_auth_info level a
  unfolding debug_auth_info cut_auth
  auth_info-cut a = simp (same)

  wrap_info-cut : (i : WrapInfo) → debug_wrap_info level (cut_wrap n i) ≡ debug_wrap_info level i
  unfolding debug_wrap_info cut_wrap
  wrap_info-cut i = simp (same)

  response-cut :
      {T : Type 0} (format : T → Text) (r : VaultResponse T)
      → debug_response level (λ s. s) (cut_response n format r) ≡ debug_response level format r
  unfolding debug_response cut_response
  response-cut format r =
      rw
        (
          optional-cut (λ s. text (redact level s)) (λ d. take n (format d))
              (λ d. text (redact level (format d))) r.data_field (λ d. ap text (same (format d))),
          optional-cut (debug_auth_info level) (cut_auth n) (debug_auth_info level) r.auth
              auth_info-cut,
          optional-cut (debug_wrap_info level) (cut_wrap n) (debug_wrap_info level) r.wrap_info
              wrap_info-cut,
        )
        refl

  kv_read_response-cut :
      {T : Type 0} (format : T → Text) (r : KvReadResponse T)
      → debug_kv_read_response level (λ s. s) (cut_kv_read_response n format r)
        ≡ debug_kv_read_response level format r
  unfolding debug_kv_read_response cut_kv_read_response
  kv_read_response-cut format r = simp (same)

-- The Debug output of a response does not depend on its secrets at the level `full`, and at `partial`
-- on no more than five characters of each: it is that of the response whose data, token and wrapping
-- token are cut there. So is the output of a KV secret.
pub debug-cut :
    {T : Type 0} (format : T → Text) (r : VaultResponse T) (k : KvReadResponse T)
    → (debug_response full (λ s. s) (cut_response 0 format r) ≡ debug_response full format r)
      × (debug_response partial (λ s. s) (cut_response 5 format r)
          ≡ debug_response partial format r)
      × (debug_kv_read_response full (λ s. s) (cut_kv_read_response 0 format k)
          ≡ debug_kv_read_response full format k)
      × (debug_kv_read_response partial (λ s. s) (cut_kv_read_response 5 format k)
          ≡ debug_kv_read_response partial format k)
debug-cut format r k = (
  response-cut full 0 redact-full format r,
  response-cut partial 5 redact-take format r,
  kv_read_response-cut full 0 redact-full format k,
  kv_read_response-cut partial 5 redact-take format k,
)
