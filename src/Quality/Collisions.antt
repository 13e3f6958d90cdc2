-- ===== src/Quality/Collisions.antt =====
-- `_iter_resource_docs` and `find_resource_collisions` of portal/quality_prs.py.
use agent_it.Base.{
  String, Bool, ◌&&◌, not, none, some, List, [], ◌∷◌, ◌++◌, ◌≡◌, ◌↔◌, ◌⊎◌, inl, inr, refl, sym, In,
  is_empty_text, keep_if, map, if◌then◌else◌, lookup, insert, lookup-insert, Eq, pair_eq, string_eq,
  ◌++ₛ◌, str_eq, Bool-cases, Option-cases,
}
use agent_it.Delivery.{Tools, Entry, text_of, Manifest, mappings}
use agent_it.Quality.Match.{or_else}

-- (apiVersion, kind, namespace, name)
abbrev pub ResourceKey : Type 0
ResourceKey = String × (String × (String × String))

instance abbrev pub resource_key_eq : Eq ResourceKey
resource_key_eq = pair_eq string_eq (pair_eq string_eq (pair_eq string_eq string_eq))

abbrev pub key_of : Manifest → ResourceKey
key_of m = (m.api_version, (m.kind, (m.namespace, m.name)))

abbrev pub is_keyed : Manifest → Bool
is_keyed m = not (is_empty_text m.kind) && not (is_empty_text m.name)

abbrev is_resource : Manifest → Bool
is_resource m = not (is_empty_text m.kind) && m.has_metadata

abbrev at_path : String → List Manifest → List (String × Manifest)
at_path path ms = map (λ (m : Manifest). (path, m)) ms

-- The resource documents of one file, with its path.
docs_of : Tools → Entry → List (String × Manifest)
docs_of tools f = elim (tools.load_all (text_of f.content)) [
  | none ↦ []
  | some ds ↦
      at_path (or_else f.target_path (or_else f.path "?")) (keep_if is_resource (mappings ds))
]

unfoldable pub iter_resource_docs : Tools → List Entry → List (String × Manifest)
unfolding docs_of
iter_resource_docs tools [] = []
iter_resource_docs tools (f ∷ files) = docs_of tools f ++ iter_resource_docs tools files

abbrev pub Seen : Type 0
Seen = List (ResourceKey × String)

-- The loop over the files that are committed already: a later path replaces an earlier one.
committed_from : Seen → List (String × Manifest) → Seen
committed_from seen [] = seen
committed_from seen ((path, m) ∷ docs) =
    committed_from
      (if is_keyed m then insert (key_of m) ("already committed at " ++ₛ path) seen else seen) docs

collision_text : String → String → Manifest → String
collision_text seen path m =
    let where_text = if str_eq seen path then seen else seen ++ₛ " and " ++ₛ path in
    "duplicate "
    ++ₛ m.kind
    ++ₛ "/"
    ++ₛ m.name
    ++ₛ (if is_empty_text m.namespace then "" else " in namespace " ++ₛ m.namespace)
    ++ₛ " ("
    ++ₛ where_text
    ++ₛ ") — would collide on Argo sync, not caught by per-file SSA dry-run alone"

-- The loop over the files of the batch.
collisions_from : Seen → List (String × Manifest) → List String
unfolding collision_text
collisions_from seen [] = []
collisions_from seen ((path, m) ∷ docs) =
    let skip = collisions_from seen docs in
    let fresh = collisions_from (insert (key_of m) path seen) docs in
    if not (is_keyed m) then skip else elim (lookup (key_of m) seen) [
      | none ↦ fresh
      | some place ↦ collision_text place path m ∷ skip
    ]

pub find_resource_collisions : Tools → List Entry → List Entry → List String
unfolding committed_from collisions_from
find_resource_collisions tools files existing_files =
    collisions_from (committed_from [] (iter_resource_docs tools existing_files))
      (iter_resource_docs tools files)

-- The keys of the documents that have a kind and a name.
abbrev pub keys : List (String × Manifest) → List ResourceKey
keys [] = []
keys ((path, m) ∷ docs) = if is_keyed m then key_of m ∷ keys docs else keys docs

-- No key of `ks` is in `old` or stands earlier in `ks`.
abbrev pub IsFresh : List ResourceKey → List ResourceKey → Type 0
IsFresh old [] = Unit
IsFresh old (k ∷ ks) = (In k old → ⊥) × IsFresh (k ∷ old) ks

-- `seen` has exactly the keys in `old`.
record Covers (seen : Seen) (old : List ResourceKey) : Type 0 where
  known : (k : ResourceKey) (s : String) → lookup k seen ≡ some s → In k old
  unknown : (k : ResourceKey) → lookup k seen ≡ none → In k old → ⊥

module _ (k : ResourceKey) (v : String) (seen : Seen) (old : List ResourceKey) where
  lookup-inserted :
      (j : ResourceKey)
      → lookup j (insert k v seen) ≡ (if resource_key_eq.beq k j then some v else lookup j seen)
  lookup-inserted j = lookup-insert k j v seen

  Covers-insert : Covers seen old → Covers (insert k v seen) (k ∷ old)
  Covers-insert c = record { known = known_after; unknown = unknown_after }
    where
      known_after :
          (j : ResourceKey) (s : String) → lookup j (insert k v seen) ≡ some s → (j ≡ k) ⊎ In j old
      known_after j s h = elim (Bool-cases (resource_key_eq.beq k j)) [
        | inl same ↦ inl (sym ((resource_key_eq.beq_iff k j).0 same))
        | inr other ↦ inr (c.known j s (rw (lookup-inserted j, other) at h))
      ]

      unknown_after : (j : ResourceKey) → lookup j (insert k v seen) ≡ none → (j ≡ k) ⊎ In j old → ⊥
      unknown_after j h m = elim (Bool-cases (resource_key_eq.beq k j)) [
        | inl same ↦ absurd (some-none v (rw (lookup-inserted j, same) at h))
        | inr other ↦ elim m [
          | inl e ↦ cc ((resource_key_eq.beq_iff k j).1 (sym e), other)
          | inr m' ↦ c.unknown j (rw (lookup-inserted j, other) at h) m'
        ]
      ]
        where
          some-none : (a : String) → some a ≡ none → ⊥
          some-none a e = cc

-- The keys that are seen after the committed files.
abbrev pub seen_keys : List ResourceKey → List (String × Manifest) → List ResourceKey
seen_keys old [] = old
seen_keys old ((path, m) ∷ docs) = seen_keys (if is_keyed m then key_of m ∷ old else old) docs

Covers-committed_from :
    (docs : List (String × Manifest)) (seen : Seen) (old : List ResourceKey)
    → Covers seen old
    → Covers (committed_from seen docs) (seen_keys old docs)
unfolding committed_from
Covers-committed_from [] seen old c = c
Covers-committed_from ((path, m) ∷ docs) seen old c = elim (Bool-cases (is_keyed m)) [
  | inl keyed ↦ rw keyed (Covers-committed_from docs _ _ (Covers-insert (key_of m) _ seen old c))
  | inr unkeyed ↦ rw unkeyed (Covers-committed_from docs seen old c)
]

collisions_from-IsFresh :
    (docs : List (String × Manifest)) (seen : Seen) (old : List ResourceKey)
    → Covers seen old
    → (collisions_from seen docs ≡ []) ↔ IsFresh old (keys docs)
unfolding collisions_from
collisions_from-IsFresh [] seen old c = (λ _. tt, λ _. refl)
collisions_from-IsFresh ((path, m) ∷ docs) seen old c = elim (Bool-cases (is_keyed m)) [
  | inr unkeyed ↦ rw unkeyed (collisions_from-IsFresh docs seen old c)
  | inl keyed ↦ rw keyed (elim (Option-cases (lookup (key_of m) seen)) [
    | inl absent ↦ rw absent (
        let ih = collisions_from-IsFresh docs _ _ (Covers-insert (key_of m) path seen old c) in
        (λ h. (c.unknown (key_of m) absent, ih.0 h), λ h. ih.1 h.1))
    | inr (place, present) ↦
        rw present (λ h. absurd (cc), λ h. absurd (h.0 (c.known (key_of m) place present)))
  ])
]

-- No collision is reported exactly where the resource keys of the batch are pairwise different and
-- none is the key of a committed document; documents without a kind or a name have no key.
pub find_resource_collisions-IsFresh :
    (tools : Tools) (files existing_files : List Entry)
    → (find_resource_collisions tools files existing_files ≡ [])
      ↔ IsFresh
          (seen_keys [] (iter_resource_docs tools existing_files))
          (keys (iter_resource_docs tools files))
unfolding find_resource_collisions lookup
find_resource_collisions-IsFresh tools files existing_files =
    collisions_from-IsFresh (iter_resource_docs tools files) _ _ (
      Covers-committed_from (iter_resource_docs tools existing_files) [] []
        (record { known = λ k s h. absurd (cc); unknown = λ k h m. m }))
