-- ===== src/ClientHash.antt =====
-- ClientID.Hash of server/client.go: FNV-1a with 64 bits over the name, the password, the mount and
-- the host part of the address.
pub mod Laws
use Prim.Native.Nat.{bit_xor}
use icecast_proxy_go.Prelude.{ℕ, ◌*◌, ◌%◌, ◌^◌, List, [], ◌∷◌, Str}
use icecast_proxy_go.Text.{split, first_part}
use icecast_proxy_go.Client.{ClientId}

abbrev pub offset64 : ℕ
offset64 = 14695981039346656037

abbrev pub prime64 : ℕ
prime64 = 1099511628211

-- hash/fnv, New64a: `hash ^= c; hash *= prime64`, in a uint64.
unfoldable pub fnv_byte : ℕ → ℕ → ℕ
fnv_byte h c = (bit_xor h c * prime64) % 2 ^ 64

-- io.WriteString into the hash.
unfoldable pub write_string : ℕ → Str → ℕ
unfolding fnv_byte
write_string h [] = h
write_string h (c ∷ s) = write_string (fnv_byte h c) s

-- The address up to its first colon.
unfoldable pub host : Str → Str
unfolding split
host addr = first_part (split b':' addr)

unfoldable pub hash : ClientId → ℕ
unfolding write_string host
hash id =
    write_string (write_string (write_string (write_string offset64 id.name) id.pass) id.mount)
      (host id.addr)
