-- ===== src/Mock/Kv2/Mirrors.antt =====
-- `read_field` of `MockKv2` against `read_field` of the handler in api/kv2.rs, which it is to mirror.
use vault_client_rs.Prelude.{
  ◌≡◌, ◌≢◌, ◌↔◌, ◌⊎◌, refl, sym, ap, ◌∙◌, subst, List, [], Option, none, some, inl, inr, ◌++◌, ◌∷◌,
}
use vault_client_rs.Prelude.Text.{Text}
use vault_client_rs.Json.{Json, null, bool, number, string, array, object}
use vault_client_rs.VaultError.{field_not_found}
use vault_client_rs.Client.{VaultClient}
use vault_client_rs.Effect.{Env, World, Exit, ok, err}
use vault_client_rs.Wire.{Decode, HashMap}
use vault_client_rs.Kv.{KvReadResponse, stringified, field_of}
use vault_client_rs.Kv.V2
use vault_client_rs.Mock.Kv2.{MockKv2, string_field, read_field}

-- The text of a string.
abbrev pub string_of : Json → Option Text
string_of (string s) = some s
string_of other = none

-- A value that is no string.
abbrev pub IsOther : Option Json → Type 0
IsOther o = (v : Json) × (o ≡ some v) × ((s : Text) → v ≢ string s)

IsOther-none : ¬ IsOther none
IsOther-none (v, e, h) = cc e

IsOther-string : (s : Text) → ¬ IsOther (some (string s))
IsOther-string s (v, e, h) = h s (cc e)

string_of-other : (v : Json) → string_of v ≡ none → (s : Text) → v ≢ string s
string_of-other v h s e = cc (h, ap string_of e)

-- An outcome without the mount that its error names.
abbrev pub without_mount : Exit Text → Exit Text
without_mount (err (field_not_found mount path name)) = err (field_not_found [] path name)
without_mount other = other

module _ (to_string : Json → Text) where
  value-cases :
      (v : Json)
      → ((s : Text) × (v ≡ string s))
        ⊎ ((string_of v ≡ none) × (stringified to_string v ≡ to_string v))
  unfolding stringified
  value-cases null = inr (refl, refl)
  value-cases (bool b) = inr (refl, refl)
  value-cases (number n) = inr (refl, refl)
  value-cases (string s) = inl (s, refl)
  value-cases (array items) = inr (refl, refl)
  value-cases (object fields) = inr (refl, refl)

  field-cases :
      (o : Option Json)
      → (o ≡ none)
        ⊎ ((s : Text) × (o ≡ some (string s)))
        ⊎ ((v : Json) × (o ≡ some v)
            × (string_of v ≡ none)
            × (stringified to_string v ≡ to_string v))
  field-cases none = inl refl
  field-cases (some v) = elim (value-cases v) [
    | inl (s, e) ↦ inr (inl (s, ap (λ x. some x) e))
    | inr (other, t) ↦ inr (inr (v, refl, other, t))
  ]

module _ (to_string : Json → Text) (mount path name : Text) (fields : HashMap Json)
    (w : World) where
  field_of-some :
      (v : Json)
      → fields name ≡ some v
      → field_of to_string mount path name fields w ≡ (ok (stringified to_string v), w)
  unfolding field_of stringified
  field_of-some v f = rw (f, field_of) refl

  field_of-none :
      fields name ≡ none
      → field_of to_string mount path name fields w ≡ (err (field_not_found mount path name), w)
  unfolding field_of
  field_of-none f = rw (f, field_of) refl

module _ (env : Env) (path name : Text) (value : Json) where
  string_field-string :
      (v : Json) (s : Text)
      → env.get name value ≡ some v
      → env.as_str v ≡ some s
      → string_field env path name value ≡ ok s
  unfolding string_field
  string_field-string v s g a = rw (g, a, string_field) refl

  string_field-other :
      (v : Json)
      → env.get name value ≡ some v
      → env.as_str v ≡ none
      → string_field env path name value ≡ err (field_not_found [] path name)
  unfolding string_field
  string_field-other v g a = rw (g, a, string_field) refl

  string_field-none :
      env.get name value ≡ none
      → string_field env path name value ≡ err (field_not_found [] path name)
  unfolding string_field
  string_field-none g = rw (g, string_field) refl

module _ (env : Env) (waiting : World → World) (c : VaultClient) (mount : Text)
    (to_string : Json → Text) (json_map : Decode (KvReadResponse (HashMap Json))) (m : MockKv2)
    (path : Text) (fields : HashMap Json) (value : Json) (calls : List Text) (w w' : World)
    (held : V2.read_data env waiting c mount json_map path w ≡ (ok fields, w'))
    (same : m.responses path ≡ some (inr value)) where
  abbrev log : List Text
  log = calls ++ (path ∷ [])

  handler :
      (name : Text)
      → V2.read_field env waiting c mount to_string json_map path name w
        ≡ field_of to_string mount path name fields w'
  handler name = unfold V2.read_field in simp held refl

  mock : (name : Text) → read_field env m path name calls ≡ (string_field env path name value, log)
  mock name = unfold read_field in simp same refl

  module _ (name : Text) where
    abbrev real : Exit Text × World
    real = V2.read_field env waiting c mount to_string json_map path name w

    abbrev mocked : Exit Text × List Text
    mocked = read_field env m path name calls

    mirrors-none : env.get name value ≡ none → fields name ≡ none → mocked.0 ≡ without_mount real.0
    mirrors-none g f =
        ap (λ x. x.0) (mock name ∙ ap (λ r. (r, log)) (string_field-none env path name value g))
        ∙ sym (
            ap (λ x. without_mount x.0)
              (handler name ∙ field_of-none to_string mount path name fields w' f))

    mirrors-string :
        (s : Text)
        → env.get name value ≡ some (string s)
        → env.as_str (string s) ≡ some s
        → fields name ≡ some (string s)
        → mocked.0 ≡ without_mount real.0
    unfolding stringified
    mirrors-string s g a f =
        ap (λ x. x.0)
          (mock name
            ∙ ap (λ r. (r, log)) (string_field-string env path name value (string s) s g a))
        ∙ sym (
            ap (λ x. without_mount x.0)
              (handler name ∙ field_of-some to_string mount path name fields w' (string s) f))

    diverges :
        (v : Json)
        → env.get name value ≡ some v
        → fields name ≡ some v
        → env.as_str v ≡ none
        → stringified to_string v ≡ to_string v
        → (real ≡ (ok (to_string v), w')) × (mocked.0 ≡ err (field_not_found [] path name))
    diverges v g f a t = (
      handler name
          ∙ (field_of-some to_string mount path name fields w' v f ∙ ap (λ s. (ok s, w')) t),
      ap (λ x. x.0) (mock name) ∙ string_field-other env path name value v g a,
    )

  -- The object that is programmed has the members of the map that the handler decodes, and `as_str`
  -- gives the text of a string and of nothing else.
  module _ (members : (name : Text) → env.get name value ≡ fields name)
      (strings : (v : Json) → env.as_str v ≡ string_of v) where
    -- Where the handler reads a map from a path and the mock holds the same object for it: the mock
    -- records the path, and gives the handler's outcome, but for the mount of an error, exactly if
    -- the field is not a value other than a string.
    pub read_field-mirrors :
        (name : Text)
        → (((read_field env m path name calls).0
              ≡ without_mount (V2.read_field env waiting c mount to_string json_map path name w).0)
            ↔ (¬ IsOther (fields name)))
          × ((read_field env m path name calls).1 ≡ calls ++ (path ∷ []))
    read_field-mirrors name =
        let recorded = ap (λ x. x.1) (mock name) in
        elim (field-cases to_string (fields name)) [
          | inl f ↦ (
            (
              (λ e o. IsOther-none (subst IsOther f o)),
              (λ h. mirrors-none name (members name ∙ f) f),
            ),
            recorded,
          )
          | inr (inl (s, f)) ↦ (
            (
              (λ e o. IsOther-string s (subst IsOther f o)),
              (λ h. mirrors-string name s (members name ∙ f) (strings (string s)) f),
            ),
            recorded,
          )
          | inr (inr (v, f, a, t)) ↦
              let (real_ok, mock_err) = diverges name v (members name ∙ f) f (strings v ∙ a) t in
              (
                (
                  (λ e. absurd (cc (e, mock_err, ap (λ x. without_mount x.0) real_ok))),
                  (λ h. absurd (h (v, f, string_of-other v a))),
                ),
                recorded,
              )
        ]

    -- For a field that is a value other than a string they differ: the handler returns its JSON text,
    -- and the mock reports that there is no such field.
    pub read_field-diverges :
        (name : Text) (v : Json)
        → fields name ≡ some v
        → ((s : Text) → v ≢ string s)
        → (V2.read_field env waiting c mount to_string json_map path name w
            ≡ (ok (to_string v), w'))
          × ((read_field env m path name calls).0 ≡ err (field_not_found [] path name))
    read_field-diverges name v f other = elim (value-cases to_string v) [
      | inl (s, e) ↦ absurd (other s e)
      | inr (a, t) ↦ diverges name v (members name ∙ f) f (strings v ∙ a) t
    ]
