-- ===== src/Config/Laws.antt =====
-- What the configuration gives, whatever the order in which its maps are read.
use mathlib.Core.List.{append_assoc}
use icecast_proxy_go.Prelude.{
  ℕ, ◌≡◌, refl, ap, ◌∙◌, inl, inr, ◌⊎◌, List, [], ◌∷◌, ◌++◌, Option, none, some, Str, bytes, str_eq,
  str_eq_iff, arith, lookup, insert, text_eq, lookup-insert, lookup_of_IsFresh, HasUniqueKeys, done,
  Option-cases,
}
use icecast_proxy_go.Config.{Yaml, fill_options, create_shout_map, address_from, server_address}

-- The scalar of a node, or what was there before.
abbrev pub scalar_or : Option Str → Option Str → Option Str
scalar_or old none = old
scalar_or old (some scalar) = some scalar

abbrev pub entry_or : Yaml → Option Str → Option ℕ → Option Str
entry_or yaml old none = old
entry_or yaml old (some node) = scalar_or old (yaml.as_scalar node)

module _ (yaml : Yaml) where
  lookup-fill_options :
      (m : List (Str × ℕ)) (options : List (Str × Str)) (key : Str)
      → HasUniqueKeys m
      → lookup key (fill_options yaml m options) ≡ entry_or yaml (lookup key options) (lookup key m)
  unfolding fill_options lookup
  lookup-fill_options [] options key u = refl
  lookup-fill_options ((k, node) ∷ m) options key u =
      let fresh = lookup_of_IsFresh k m u.0 in
      elim (Option-cases (yaml.as_scalar node)) [
        | inl e ↦
            rw e
              (lookup-fill_options m options key u.1 ∙ ground (arith, e, fresh, str_eq_iff k key))
        | inr (scalar, e) ↦ rw e (
            lookup-fill_options m (insert k scalar options) key u.1
            ∙ ground (arith, e, fresh, str_eq_iff k key, lookup-insert k key scalar options))
      ]

  -- With an icecast mapping that has each key once, CreateShoutMap returns options in which a key
  -- has the scalar that the mapping has under it, and nothing where the mapping has no scalar
  -- there.
  pub create_shout_map-lookup :
      {S : Type 0} (icecast : ℕ) (m : List (Str × ℕ)) (key : Str) (s : S)
      → yaml.child yaml.root (bytes "icecast") ≡ some icecast
      → yaml.as_map icecast ≡ some m
      → HasUniqueKeys m
      → (options : List (Str × Str)) × (create_shout_map yaml s ≡ done options s)
        × (lookup key options ≡ entry_or yaml none (lookup key m))
  unfolding create_shout_map lookup
  create_shout_map-lookup icecast m key s node mapping unique =
      (fill_options yaml m [], ground (arith, node, mapping), lookup-fill_options m [] key unique)

  address-order :
      (a b : ℕ) (m : List (Str × ℕ)) (host port : Str)
      → yaml.as_scalar a ≡ some host
      → yaml.as_scalar b ≡ some port
      → (m ≡ (bytes "host", a) ∷ (bytes "port", b) ∷ [])
        ⊎ (m ≡ (bytes "port", b) ∷ (bytes "host", a) ∷ [])
      → address_from yaml m (bytes ":") ≡ host ++ (bytes ":" ++ port)
  unfolding address_from str_eq
  address-order a b m host port h p (inl e) =
      ap (λ n. address_from yaml n (bytes ":")) e
      ∙ ground (arith, h, p, append_assoc host (bytes ":") port)
  address-order a b m host port h p (inr e) =
      ap (λ n. address_from yaml n (bytes ":")) e ∙ ground (arith, h, p)

  -- If the server mapping is a scalar host and a scalar port, in either order, then the address to
  -- listen on is "host:port".
  pub server_address-order :
      {S : Type 0} (server a b : ℕ) (m : List (Str × ℕ)) (host port : Str) (s : S)
      → yaml.child yaml.root (bytes "server") ≡ some server
      → yaml.as_scalar a ≡ some host
      → yaml.as_scalar b ≡ some port
      → (m ≡ (bytes "host", a) ∷ (bytes "port", b) ∷ [])
        ⊎ (m ≡ (bytes "port", b) ∷ (bytes "host", a) ∷ [])
      → yaml.as_map server ≡ some m
      → server_address yaml s ≡ done (host ++ (bytes ":" ++ port)) s
  unfolding server_address
  server_address-order server a b m host port s node h p entries mapping =
      ground (arith, node, mapping, address-order a b m host port h p entries)
