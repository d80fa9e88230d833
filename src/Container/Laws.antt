-- ===== src/Container/Laws.antt =====
-- The container as a set of clients with a counter.
use icecast_proxy_go.Prelude.{
  ℕ, ◌+◌, ◌<◌, ◌≡◌, refl, ◌≢◌, inl, inr, List, [], ◌∷◌, none, some, ◌==◌, if◌then◌else◌, length,
  arith, lookup, nat_eq, HasUniqueKeys, lookup-insert, lookup-delete, insert-HasUniqueKeys,
  delete-HasUniqueKeys, length-insert_fresh, length-delete-some, length_of_lookup,
  lookup_of_IsFresh, Bool-cases,
}
use icecast_proxy_go.Client.{ClientId}
use icecast_proxy_go.ClientHash.{hash}
use icecast_proxy_go.Container.{
  Container, new_container, find_hash, get_by_hash, get_by_id, add, remove,
}

-- Each identifier has one entry, and the counter is the number of entries, below 2^31.
pub record IsValid (c : Container) : Type 0 where
  pub unique : HasUniqueKeys c.by_id
  pub counted : c.length ≡ length c.by_id
  pub bounded : c.length < 2147483648

pub new_container-IsValid : IsValid new_container
unfolding new_container
new_container-IsValid = record { unique = tt; counted = refl; bounded = omega arith }

pub add-IsValid :
    (id client : ℕ) (c : Container)
    → IsValid c
    → get_by_id c id ≡ none
    → c.length + 1 < 2147483648
    → IsValid (add id client c)
unfolding add get_by_id
add-IsValid id client c v fresh room = record {
  unique = insert-HasUniqueKeys id client c.by_id v.unique;
  counted = omega (arith, v.counted, length-insert_fresh id client c.by_id fresh);
  bounded = omega arith;
}

pub remove-IsValid :
    (id client : ℕ) (c : Container)
    → IsValid c
    → get_by_id c id ≡ some client
    → IsValid (remove id c)
unfolding remove get_by_id
remove-IsValid id client c v found = record {
  unique = delete-HasUniqueKeys id c.by_id v.unique;
  counted = omega (arith, v.counted, v.bounded, length-delete-some id client c.by_id found);
  bounded = omega (arith, v.counted, v.bounded, length-delete-some id client c.by_id found);
}

pub get_by_id-add :
    (id j client : ℕ) (c : Container)
    → get_by_id (add id client c) j ≡ (if id == j then some client else get_by_id c j)
unfolding add get_by_id
get_by_id-add id j client c = lookup-insert id j client c.by_id

pub get_by_id-remove :
    (id j : ℕ) (c : Container)
    → IsValid c
    → get_by_id (remove id c) j ≡ (if id == j then none else get_by_id c j)
unfolding remove get_by_id
get_by_id-remove id j c v = lookup-delete id j c.by_id v.unique

find_hash_sound :
    (ids : ℕ → ClientId) (h client : ℕ) (m : List (ℕ × ℕ))
    → HasUniqueKeys m
    → find_hash ids h m ≡ some client
    → (id : ℕ) × (lookup id m ≡ some client) × (hash (ids id) ≡ h)
unfolding find_hash lookup
find_hash_sound ids h client [] u e = absurd (ground arith)
find_hash_sound ids h client ((i, c) ∷ m) u e = elim (Bool-cases (hash (ids i) == h)) [
  | inl hit ↦ (i, ground arith, ground arith)
  | inr miss ↦
      let (id, found, same) = find_hash_sound ids h client m u.1 (ground arith) in
      (id, ground (arith, lookup_of_IsFresh i m u.0), same)
]

-- The client that GetByHash finds in a valid container is listed under an identifier with that
-- hash.
pub get_by_hash_sound :
    (ids : ℕ → ClientId) (c : Container) (h client : ℕ)
    → IsValid c
    → get_by_hash ids c h ≡ some client
    → (id : ℕ) × (get_by_id c id ≡ some client) × (hash (ids id) ≡ h)
unfolding get_by_hash get_by_id
get_by_hash_sound ids c h client v e = find_hash_sound ids h client c.by_id v.unique e

find_hash-none :
    (ids : ℕ → ClientId) (h id client : ℕ) (m : List (ℕ × ℕ))
    → find_hash ids h m ≡ none
    → lookup id m ≡ some client
    → hash (ids id) ≢ h
unfolding find_hash lookup
find_hash-none ids h id client [] e found = absurd (ground arith)
find_hash-none ids h id client ((i, c) ∷ m) e found =
    ground (arith, find_hash-none ids h id client m)

-- GetByHash fails only when no listed identifier has that hash.
pub get_by_hash-none :
    (ids : ℕ → ClientId) (c : Container) (h id client : ℕ)
    → get_by_hash ids c h ≡ none
    → get_by_id c id ≡ some client
    → hash (ids id) ≢ h
unfolding get_by_hash get_by_id
get_by_hash-none ids c h id client e found = find_hash-none ids h id client c.by_id e found

-- A container that lists somebody is not empty.
pub length_of_get_by_id :
    (id client : ℕ) (c : Container) → IsValid c → get_by_id c id ≡ some client → c.length ≢ 0
unfolding get_by_id
length_of_get_by_id id client c v found =
    omega (arith, v.counted, length_of_lookup id client c.by_id found)

-- The counter after an addition and a removal.
pub length-remove-add :
    (id client : ℕ) (c : Container)
    → c.length < 2147483648
    → (remove id (add id client c)).length ≡ c.length
unfolding remove add
length-remove-add id client c h = omega arith
