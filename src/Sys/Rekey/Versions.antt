-- ===== src/Sys/Rekey/Versions.antt =====
-- The order of `version_history` in api/sys/rekey.rs.
use vault_client_rs.Prelude.{
  ◌≡◌, refl, true, false, inl, inr, List, [], ◌∷◌, map, arith, All, Bool-cases,
}
use vault_client_rs.Prelude.Text.{Text}
use mathlib.Core.List.{Perm}
use mathlib.Core.List.Perm
use vault_client_rs.Client.{VaultClient}
use vault_client_rs.Effect.{Env, get, World, ok}
use vault_client_rs.Execute.{exec_with_data}
use vault_client_rs.Wire.{Decode}
use vault_client_rs.Prelude.Text.{codes}
use vault_client_rs.Prelude.{none}
use vault_client_rs.Sys.Rekey.{
  VersionHistoryEntry, VersionHistoryResponse, with_version, text_leb, insert_entry,
  sort_by_timestamp, version_history,
}

-- Not installed after the other one.
abbrev pub IsBefore : VersionHistoryEntry → VersionHistoryEntry → Type 0
IsBefore e f = text_leb e.timestamp_installed f.timestamp_installed ≡ true

-- Each entry is before all that follow it.
abbrev pub IsSorted : List VersionHistoryEntry → Type 0
IsSorted [] = Unit
IsSorted (e ∷ es) = All (IsBefore e) es × IsSorted es

text_leb_total : (s t : Text) → text_leb s t ≡ false → text_leb t s ≡ true
text_leb_total [] t h = absurd (cc h)
text_leb_total (a ∷ s) [] h = refl
text_leb_total (a ∷ s) (b ∷ t) h = ground (arith, text_leb_total s t)

text_leb_trans : (s t u : Text) → text_leb s t ≡ true → text_leb t u ≡ true → text_leb s u ≡ true
text_leb_trans [] t u h k = refl
text_leb_trans (a ∷ s) [] u h k = absurd (cc h)
text_leb_trans (a ∷ s) (b ∷ t) [] h k = absurd (cc k)
text_leb_trans (a ∷ s) (b ∷ t) (c ∷ u) h k = ground (arith, text_leb_trans s t u)

All-IsBefore :
    (e f : VersionHistoryEntry) (es : List VersionHistoryEntry)
    → IsBefore e f
    → All (IsBefore f) es
    → All (IsBefore e) es
All-IsBefore e f [] h k = tt
All-IsBefore e f (g ∷ es) h k = (
  text_leb_trans e.timestamp_installed f.timestamp_installed g.timestamp_installed h k.0,
  All-IsBefore e f es h k.1,
)

insert_entry-All :
    (g e : VersionHistoryEntry) (es : List VersionHistoryEntry)
    → IsBefore g e
    → All (IsBefore g) es
    → All (IsBefore g) (insert_entry e es)
unfolding insert_entry
insert_entry-All g e [] h k = (h, tt)
insert_entry-All g e (f ∷ es) h k =
    elim (Bool-cases (text_leb e.timestamp_installed f.timestamp_installed)) [
      | inl q ↦ rw q (h, k)
      | inr q ↦ rw q (k.0, insert_entry-All g e es h k.1)
    ]

insert_entry-IsSorted :
    (e : VersionHistoryEntry) (es : List VersionHistoryEntry)
    → IsSorted es
    → IsSorted (insert_entry e es)
unfolding insert_entry
insert_entry-IsSorted e [] h = (tt, tt)
insert_entry-IsSorted e (f ∷ es) h =
    elim (Bool-cases (text_leb e.timestamp_installed f.timestamp_installed)) [
      | inl q ↦ rw q ((q, All-IsBefore e f es q h.0), h)
      | inr q ↦ rw q (
        insert_entry-All f e es (text_leb_total e.timestamp_installed f.timestamp_installed q) h.0,
        insert_entry-IsSorted e es h.1,
      )
    ]

insert_entry-Perm :
    (e : VersionHistoryEntry) (es : List VersionHistoryEntry) → Perm (insert_entry e es) (e ∷ es)
unfolding insert_entry
insert_entry-Perm e [] = Perm.refl (e ∷ [])
insert_entry-Perm e (f ∷ es) =
    elim (Bool-cases (text_leb e.timestamp_installed f.timestamp_installed)) [
      | inl q ↦ rw q (Perm.refl (e ∷ f ∷ es))
      | inr q ↦ rw q (Perm.trans (Perm.cons f (insert_entry-Perm e es)) (Perm.swap e f es))
    ]

sort-IsSorted : (es : List VersionHistoryEntry) → IsSorted (sort_by_timestamp es)
unfolding sort_by_timestamp
sort-IsSorted [] = tt
sort-IsSorted (e ∷ es) = insert_entry-IsSorted e (sort_by_timestamp es) (sort-IsSorted es)

sort-Perm : (es : List VersionHistoryEntry) → Perm (sort_by_timestamp es) es
unfolding sort_by_timestamp
sort-Perm [] = Perm.refl []
sort-Perm (e ∷ es) =
    Perm.trans (insert_entry-Perm e (sort_by_timestamp es)) (Perm.cons e (sort-Perm es))

-- An entry of the map as it is returned: with its key as the version, and otherwise as it was.
abbrev pub IsStamped : Text × VersionHistoryEntry → VersionHistoryEntry → Type 0
IsStamped (key, entry) e =
    (e.version ≡ key)
    × (e.timestamp_installed ≡ entry.timestamp_installed)
    × (e.build_date ≡ entry.build_date)
    × (e.previous_version ≡ entry.previous_version)

abbrev pub AllStamped : List (Text × VersionHistoryEntry) → List VersionHistoryEntry → Type 0
AllStamped [] [] = Unit
AllStamped (kv ∷ kvs) (e ∷ es) = IsStamped kv e × AllStamped kvs es
AllStamped _ _ = ⊥

with_version-AllStamped :
    (kvs : List (Text × VersionHistoryEntry)) → AllStamped kvs (map with_version kvs)
unfolding with_version
with_version-AllStamped [] = tt
with_version-AllStamped (kv ∷ kvs) = ((refl, refl, refl, refl), with_version-AllStamped kvs)

-- If the server answers, `version_history` returns the entries of its answer, each with the key that it
-- has there as its version and its other fields as they are, no entry lost or added, in the order of
-- the bytes of their timestamps.
pub version_history-IsSorted :
    (env : Env) (waiting : World → World) (c : VaultClient) (decode : Decode VersionHistoryResponse)
    (resp : VersionHistoryResponse) (w w' : World)
    → exec_with_data env waiting c decode get (codes "sys/version-history") none w ≡ (ok resp, w')
    → (es stamped : List VersionHistoryEntry) × (version_history env waiting c decode w
        ≡ (ok es, w'))
      × IsSorted es
      × AllStamped resp.key_info stamped
      × Perm es stamped
unfolding version_history
version_history-IsSorted env waiting c decode resp w w' h =
    let entries = map with_version resp.key_info in
    (
      sort_by_timestamp entries,
      entries,
      simp h refl,
      sort-IsSorted entries,
      with_version-AllStamped resp.key_info,
      sort-Perm entries,
    )
