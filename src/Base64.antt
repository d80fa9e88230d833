-- ===== src/Base64.antt =====
-- DecodeString of Go's encoding/base64 with the standard alphabet, as server/auth.go uses it.
pub mod Laws
use icecast_proxy_go.Prelude.{
  ℕ, ◌+◌, ◌-◌, ◌*◌, ◌/◌, ◌%◌, Bool, ◌&&◌, ◌||◌, List, [], ◌∷◌, Option, none, some, Str, ◌==◌, leb,
  if◌then◌else◌,
}

-- The six bits that a character stands for.
unfoldable pub sextet : ℕ → Option ℕ
sextet c =
    if leb b'A' c && leb c b'Z'
    then some (c - 65)
    else if leb b'a' c && leb c b'z'
    then some (c - 71)
    else if leb b'0' c && leb c b'9'
    then some (c + 4)
    else if c == b'+'
    then some 62
    else if c == b'/'
    then some 63
    else none

-- The bytes of one group of four, by its first and second sextet and what the others are.
abbrev pub one_byte : Option ℕ → Option ℕ → Option Str
one_byte (some p) (some q) = some ((p * 4 + q / 16) ∷ [])
one_byte _ _ = none

abbrev pub two_bytes : Option ℕ → Option ℕ → Option ℕ → Option Str
two_bytes (some p) (some q) (some r) = some ((p * 4 + q / 16) ∷ (q % 16 * 16 + r / 4) ∷ [])
two_bytes _ _ _ = none

abbrev pub three_bytes : Option ℕ → Option ℕ → Option ℕ → Option ℕ → Option Str → Option Str
three_bytes (some p) (some q) (some r) (some s) (some rest) =
    some ((p * 4 + q / 16) ∷ (q % 16 * 16 + r / 4) ∷ (r % 4 * 64 + s) ∷ rest)
three_bytes _ _ _ _ _ = none

-- Padding ends the text, and bits that it leaves over are not looked at.
unfoldable pub decode_groups : Str → Option Str
unfolding sextet
decode_groups [] = some []
decode_groups (a ∷ []) = none
decode_groups (a ∷ b ∷ []) = none
decode_groups (a ∷ b ∷ c ∷ []) = none
decode_groups (a ∷ b ∷ c ∷ d ∷ []) =
    if d == b'='
    then if c == b'='
      then one_byte (sextet a) (sextet b)
      else two_bytes (sextet a) (sextet b) (sextet c)
    else three_bytes (sextet a) (sextet b) (sextet c) (sextet d) (some [])
decode_groups (a ∷ b ∷ c ∷ d ∷ e ∷ s) =
    let rest = decode_groups (e ∷ s) in three_bytes (sextet a) (sextet b) (sextet c) (sextet d) rest

-- Line breaks are skipped.
unfoldable pub strip_breaks : Str → Str
strip_breaks [] = []
strip_breaks (c ∷ s) =
    let rest = strip_breaks s in if c == b'\n' || c == b'\r' then rest else c ∷ rest

unfoldable pub decode : Str → Option Str
decode s = decode_groups (strip_breaks s)
