-- ===== src/Container.antt =====
-- ClientContainer of server/client.go.
pub mod Laws
use icecast_proxy_go.Prelude.{
  ℕ, suc, ◌+◌, ◌-◌, ◌%◌, ◌^◌, ◌<◌, Bool, ◌&&◌, List, [], ◌∷◌, Option, none, some, map, ltb, ◌==◌,
  if◌then◌else◌, lookup, insert, delete, nat_eq,
}
use icecast_proxy_go.Client.{ClientId, Client}
use icecast_proxy_go.ClientHash.{hash}

-- byID maps the address of a ClientID to that of its Client; `length` is the bit pattern of the
-- int32. The code never touches the map byHash.
pub record Container : Type 0 where
  pub by_id : List (ℕ × ℕ)
  pub length : ℕ

-- NewClientContainer
unfoldable pub new_container : Container
new_container = record { by_id = []; length = 0 }

-- The loop of GetByHash, over the entries in the order in which the map yields them.
unfoldable pub find_hash : (ℕ → ClientId) → ℕ → List (ℕ × ℕ) → Option ℕ
find_hash ids h [] = none
find_hash ids h ((id, client) ∷ m) = if hash (ids id) == h then some client else find_hash ids h m

unfoldable pub get_by_hash : (ℕ → ClientId) → Container → ℕ → Option ℕ
unfolding find_hash
get_by_hash ids c h = find_hash ids h c.by_id

unfoldable pub get_by_id : Container → ℕ → Option ℕ
unfolding lookup
get_by_id c id = lookup id c.by_id

-- Add, for a client at `client` whose ClientID is at `id`.
unfoldable pub add : ℕ → ℕ → Container → Container
unfolding insert
add id client c = record { by_id = insert id client c.by_id; length = (c.length + 1) % 2 ^ 32 }

-- Remove; atomic.AddInt32 by -1 wraps.
unfoldable pub remove : ℕ → Container → Container
unfolding delete
remove id c = record { by_id = delete id c.by_id; length = (c.length + 2 ^ 32 - 1) % 2 ^ 32 }

-- `Length > 0` for the int32.
abbrev pub is_positive : ℕ → Bool
is_positive n = ltb 0 n && ltb n 2147483648

abbrev pub clients_of : Container → List ℕ
clients_of c = map (λ p. p.1) c.by_id
