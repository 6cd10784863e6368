-- ===== src/Sys/Rekey.antt =====
-- api/sys/rekey.rs, types/sys.rs: the Rekey endpoints of the system backend, and its types.
pub mod Versions
use vault_client_rs.Prelude.{
  ℕ, Bool, Option, none, some, List, map, ◌∷◌, [], ◌&&◌, ◌||◌, ◌==◌, true, false, ltb,
  if◌then◌else◌,
}
use vault_client_rs.Prelude.Text.{Text, codes}
use vault_client_rs.Json.{Json, string, bool, object, end, field}
use vault_client_rs.VaultError.{empty_response}
use vault_client_rs.VaultResponse.{WrapInfo}
use vault_client_rs.Client.{VaultClient}
use vault_client_rs.Effect.{Env, get, post, put, Method, World, M, pure, ok_or, ◌>>=◌}
use vault_client_rs.Execute.{exec_with_data, exec_with_auth, exec_empty, exec_direct}
use vault_client_rs.Wire.{Decode, DecodeDirect, HashMap, unless_none, u64_json, member, array_of}

pub record RekeyInitRequest : Type 0 where
  pub secret_shares : ℕ
  pub secret_threshold : ℕ
  pub pgp_keys : Option (List Text)
  pub backup : Option Bool

unfoldable pub rekey_init_request_body : RekeyInitRequest → Json
rekey_init_request_body p = object (
    field (codes "secret_shares") (u64_json p.secret_shares) (
      field (codes "secret_threshold") (u64_json p.secret_threshold) (
        unless_none (array_of string) (codes "pgp_keys") p.pgp_keys
          (unless_none bool (codes "backup") p.backup end))))

pub record RekeyStatus : Type 0 where
  pub started : Bool
  pub nonce : Text
  pub t : ℕ
  pub n : ℕ
  pub progress : ℕ
  pub required : ℕ
  pub pgp_finger_prints : Option (List Text)
  pub backup : Bool
  pub verification_required : Bool
  pub complete : Bool
  pub keys : Option (List Text)
  pub keys_base64 : Option (List Text)

pub record GenerateRootInitRequest : Type 0 where
  pub pgp_key : Option Text

unfoldable pub generate_root_init_request_body : GenerateRootInitRequest → Json
generate_root_init_request_body p = object (unless_none string (codes "pgp_key") p.pgp_key end)

pub record GenerateRootStatus : Type 0 where
  pub started : Bool
  pub nonce : Text
  pub progress : ℕ
  pub required : ℕ
  pub complete : Bool
  pub encoded_token : Option Text
  pub encoded_root_token : Option Text
  pub otp_length : Option ℕ
  pub otp : Option Text

pub record RemountStatus : Type 0 where
  pub migration_id : Text

pub record HostInfo : Type 0 where
  pub cpu : Option (List Json)
  pub disk : Option (List Json)
  pub host : Option Json
  pub memory : Option Json
  pub timestamp : Text

pub record InFlightRequest : Type 0 where
  pub request_id : Text
  pub request_path : Text
  pub client_address : Text
  pub start_time : Text

pub record VersionHistoryEntry : Type 0 where
  pub version : Text
  pub timestamp_installed : Text
  pub build_date : Option Text
  pub previous_version : Option Text

-- The entries of the map in the order in which `into_iter` gives them.
pub record VersionHistoryResponse : Type 0 where
  pub key_info : List (Text × VersionHistoryEntry)

unfoldable pub with_version : Text × VersionHistoryEntry → VersionHistoryEntry
with_version (ver, entry) = record entry { version = ver }

-- The order of strings, by their bytes.
abbrev pub text_leb : Text → Text → Bool
text_leb [] t = true
text_leb (a ∷ s) [] = false
text_leb (a ∷ s) (b ∷ t) = ltb a b || (a == b && text_leb s t)

insert_entry : VersionHistoryEntry → List VersionHistoryEntry → List VersionHistoryEntry
insert_entry e [] = e ∷ []
insert_entry e (f ∷ fs) =
    let rest = insert_entry e fs in
    if text_leb e.timestamp_installed f.timestamp_installed then e ∷ f ∷ fs else f ∷ rest

-- `sort_by(|a, b| a.timestamp_installed.cmp(&b.timestamp_installed))`, which is stable.
unfoldable sort_by_timestamp : List VersionHistoryEntry → List VersionHistoryEntry
unfolding insert_entry
sort_by_timestamp [] = []
sort_by_timestamp (e ∷ es) = insert_entry e (sort_by_timestamp es)

module _ (env : Env) (waiting : World → World) (c : VaultClient) where
  unfoldable pub rekey_init : DecodeDirect RekeyStatus → RekeyInitRequest → M RekeyStatus
  rekey_init decode params =
      exec_direct env waiting c decode put (codes "sys/rekey/init")
        (some (rekey_init_request_body params))

  unfoldable pub rekey_status : DecodeDirect RekeyStatus → M RekeyStatus
  rekey_status decode = exec_direct env waiting c decode get (codes "sys/rekey/init") none

  unfoldable pub rekey_cancel : M (Unit {0})
  rekey_cancel = exec_empty env waiting c Method.delete (codes "sys/rekey/init") none

  unfoldable pub rekey_update : DecodeDirect RekeyStatus → Text → Text → M RekeyStatus
  rekey_update decode key nonce =
      exec_direct env waiting c decode put (codes "sys/rekey/update")
        (some (object (member "key" key (member "nonce" nonce end))))

  unfoldable pub generate_root_init :
      DecodeDirect GenerateRootStatus → GenerateRootInitRequest → M GenerateRootStatus
  generate_root_init decode params =
      exec_direct env waiting c decode put (codes "sys/generate-root/attempt")
        (some (generate_root_init_request_body params))

  unfoldable pub generate_root_status : DecodeDirect GenerateRootStatus → M GenerateRootStatus
  generate_root_status decode =
      exec_direct env waiting c decode get (codes "sys/generate-root/attempt") none

  unfoldable pub generate_root_cancel : M (Unit {0})
  generate_root_cancel =
      exec_empty env waiting c Method.delete (codes "sys/generate-root/attempt") none

  unfoldable pub generate_root_update :
      DecodeDirect GenerateRootStatus → Text → Text → M GenerateRootStatus
  generate_root_update decode key nonce =
      exec_direct env waiting c decode put (codes "sys/generate-root/update")
        (some (object (member "key" key (member "nonce" nonce end))))

  unfoldable pub remount : Decode RemountStatus → Text → Text → M RemountStatus
  remount decode from dest =
      exec_with_data env waiting c decode post (codes "sys/remount")
        (some (object (member "from" from (member "to" dest end))))

  unfoldable pub metrics_json : DecodeDirect Json → M Json
  metrics_json decode = exec_direct env waiting c decode get (codes "sys/metrics") none

  unfoldable pub host_info : Decode HostInfo → M HostInfo
  host_info decode = exec_with_data env waiting c decode get (codes "sys/host-info") none

  unfoldable pub internal_counters_activity : Decode Json → M Json
  internal_counters_activity decode =
      exec_with_data env waiting c decode get (codes "sys/internal/counters/activity") none

  unfoldable pub version_history : Decode VersionHistoryResponse → M (List VersionHistoryEntry)
  unfolding sort_by_timestamp with_version
  version_history decode w =
      (do
        resp ← exec_with_data env waiting c decode get (codes "sys/version-history") none
        pure (sort_by_timestamp (map with_version resp.key_info)))
        w

  unfoldable pub rewrap : Text → M WrapInfo
  rewrap token w =
      (do
        resp ←
            exec_with_auth env waiting c env.json_value post (codes "sys/wrapping/rewrap")
              (some (object (member "token" token end)))
        ok_or resp.wrap_info empty_response)
        w

  unfoldable pub in_flight_requests :
      DecodeDirect (HashMap InFlightRequest) → M (HashMap InFlightRequest)
  in_flight_requests decode = exec_direct env waiting c decode get (codes "sys/in-flight-req") none
