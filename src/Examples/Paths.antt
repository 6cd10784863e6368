-- ===== src/Examples/Paths.antt =====
-- Runs of the functions on paths and of the redaction.
use vault_client_rs.Prelude.{
  ◌≤◌, ◌*◌, ◌≡◌, ◌↔◌, refl, true, false, none, some, inl, inr, [], ◌∷◌, length, All, arith,
}
use vault_client_rs.Prelude.Text.{Text, codes, starts_with, contains, ends_with}
use vault_client_rs.VaultError.{config}
use vault_client_rs.EncodePath.{encode_path}
use vault_client_rs.EncodePath.Safe.{IsByte, IsPathByte, count, encode_path_safe}
use vault_client_rs.EncodePath.RoundTrip.{plain, percent_decode, percent_decode-encode_path}
use vault_client_rs.VaultPath.{new, has_control}
use vault_client_rs.VaultPath.Validated.{IsVaultPath, new_accepts}
use vault_client_rs.Redaction.{full, partial, redact}
use vault_client_rs.VaultResponse.{AuthInfo, VaultResponse}
use vault_client_rs.Kv.{KvReadResponse}
use vault_client_rs.Redaction.Shown.{debug_response, debug_kv_read_response}
use vault_client_rs.Redaction.Cut.{cut_response, cut_kv_read_response, debug-cut}

-- `a b/c?`, with the two bytes of an accented letter.
abbrev raw : Text
raw = 97 ∷ 32 ∷ 98 ∷ 47 ∷ 0xc3 ∷ 0xa9 ∷ 63 ∷ []

raw-IsByte : All IsByte raw
raw-IsByte = ground arith

encoded : encode_path raw ≡ codes "a%20b/%C3%A9%3F"
unfolding encode_path
encoded = refl

encode_path_safe_example :
    All IsPathByte (encode_path raw)
    × (count b'/' (encode_path raw) ≡ count b'/' raw)
    × (length (encode_path raw) ≤ 3 * length raw)
encode_path_safe_example = encode_path_safe raw raw-IsByte

percent_decode-encode_path_example : percent_decode plain (encode_path raw) ≡ raw
percent_decode-encode_path_example = percent_decode-encode_path raw raw-IsByte

refused :
    new (λ s. s) (codes "mount path") (codes "a/../b")
    ≡ inl (config (codes "invalid mount path: a/../b"))
unfolding new starts_with contains ends_with
refused = refl

new_accepts_example :
    (new (λ s. s) (codes "secret path") (codes "kv/app") ≡ inr (codes "kv/app"))
    ↔ IsVaultPath (codes "kv/app")
new_accepts_example = new_accepts (λ s. s) (codes "secret path") (codes "kv/app")

abbrev info : AuthInfo
info = record {
  client_token = codes "hvs.secret";
  accessor = codes "a";
  policies = [];
  token_policies = [];
  metadata = none;
  lease_duration = 60;
  renewable = true;
  entity_id = [];
  token_type = codes "service";
  orphan = false;
  mfa_requirement = none;
  num_uses = none;
}

abbrev response : VaultResponse Text
response = record {
  request_id = none;
  lease_id = none;
  lease_duration = none;
  renewable = none;
  data_field = some (codes "password");
  auth = some info;
  warnings = none;
  wrap_info = none;
}

abbrev kv_secret : KvReadResponse Text
kv_secret = record {
  data_field = codes "password";
  metadata = record {
    created_time = [];
    custom_metadata = none;
    deletion_time = [];
    destroyed = false;
    version = 1;
  };
}

debug-cut_example :
    (debug_response full (λ s. s) (cut_response 0 (λ s. s) response)
      ≡ debug_response full (λ s. s) response)
    × (debug_response partial (λ s. s) (cut_response 5 (λ s. s) response)
        ≡ debug_response partial (λ s. s) response)
    × (debug_kv_read_response full (λ s. s) (cut_kv_read_response 0 (λ s. s) kv_secret)
        ≡ debug_kv_read_response full (λ s. s) kv_secret)
    × (debug_kv_read_response partial (λ s. s) (cut_kv_read_response 5 (λ s. s) kv_secret)
        ≡ debug_kv_read_response partial (λ s. s) kv_secret)
debug-cut_example = debug-cut (λ s. s) response kv_secret

-- A control character above ASCII is found by its two bytes, and a letter with an accent is none.
controls : (has_control (0x61 ∷ 0xc2 ∷ 0x85 ∷ []) ≡ true) × (has_control (0xc3 ∷ 0xa9 ∷ []) ≡ false)
unfolding has_control
controls = (refl, refl)

shown : redact partial (codes "hvs.one") ≡ codes "hvs...."
unfolding redact
shown = refl

too_short : redact partial (codes "hvs.") ≡ codes "[REDACTED]"
unfolding redact
too_short = refl
