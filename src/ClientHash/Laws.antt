-- ===== src/ClientHash/Laws.antt =====
-- What ClientID.Hash identifies.
use icecast_proxy_go.Prelude.{ℕ, ◌<◌, ◌^◌, ◌≡◌, refl, [], ◌∷◌, ◌++◌, Str, arith}
use icecast_proxy_go.Text.Laws.{IsFree, first_part-split}
use icecast_proxy_go.Client.{ClientId}
use icecast_proxy_go.ClientHash.{offset64, fnv_byte, write_string, host, hash}

write_string-append :
    (h : ℕ) (s t : Str) → write_string h (s ++ t) ≡ write_string (write_string h s) t
unfolding write_string
write_string-append h [] t = refl
write_string-append h (c ∷ s) t = write_string-append (fnv_byte h c) s t

fnv_byte-lt : (h c : ℕ) → fnv_byte h c < 2 ^ 64
unfolding fnv_byte
fnv_byte-lt h c = omega arith

write_string-lt : (h : ℕ) (s : Str) → h < 2 ^ 64 → write_string h s < 2 ^ 64
unfolding write_string
write_string-lt h [] b = b
write_string-lt h (c ∷ s) b = write_string-lt (fnv_byte h c) s (fnv_byte-lt h c)

-- The hash is a 64-bit number.
pub hash-lt : (id : ClientId) → hash id < 2 ^ 64
unfolding hash
hash-lt id = write_string-lt _ (host id.addr) (
    write_string-lt _ id.mount
      (write_string-lt _ id.pass (write_string-lt offset64 id.name (omega arith))))

-- The bytes that are hashed.
abbrev pub identity : ClientId → Str
identity id = id.name ++ (id.pass ++ (id.mount ++ host id.addr))

hash-identity : (id : ClientId) → hash id ≡ write_string offset64 (identity id)
unfolding hash
hash-identity id = simp write_string-append

-- The fields are hashed without separators: two identifiers whose hashed bytes agree when they are
-- strung together have one hash, wherever one field ends and the next begins.
pub hash-eq_of_identity : (a b : ClientId) → identity a ≡ identity b → hash a ≡ hash b
hash-eq_of_identity a b e = rw (hash-identity a, hash-identity b, e)

pub host-append : (a rest : Str) → IsFree b':' a → host (a ++ (b':' ∷ rest)) ≡ a
unfolding host
host-append a rest h = first_part-split b':' a rest h

-- What follows the first colon of the address, such as the port, does not change the hash.
pub hash_ignores_port :
    (id : ClientId) (a port other : Str)
    → IsFree b':' a
    → hash (record id { addr = a ++ (b':' ∷ port) })
      ≡ hash (record id { addr = a ++ (b':' ∷ other) })
unfolding hash
hash_ignores_port id a port other h = rw (host-append a port h, host-append a other h)
