-- ===== src/Text.antt =====
-- The functions of Go's `strings` package that server/client.go and server/auth.go use:
-- strings.Split and strings.SplitN at a one-byte separator, strings.Contains of one byte,
-- strings.ToLower on ASCII.
pub mod Laws
use icecast_proxy_go.Prelude.{
  ℕ, zero, suc, ◌+◌, Bool, false, ◌&&◌, ◌||◌, List, [], ◌∷◌, Option, none, some, map, Str, ◌==◌,
  leb, if◌then◌else◌,
}

-- The text before and after the first separator.
unfoldable pub cut : ℕ → Str → Option (Str × Str)
cut sep [] = none
cut sep (c ∷ s) =
    let rest = cut sep s in
    if c == sep then some ([], s) else elim rest [ none ↦ none | some (a, b) ↦ some (c ∷ a, b) ]

-- strings.SplitN for n ≥ 0: at most n parts, the last one unsplit.
unfoldable pub split_n : ℕ → ℕ → Str → List Str
unfolding cut
split_n sep zero s = []
split_n sep (suc zero) s = s ∷ []
split_n sep (suc (suc n)) s = elim (cut sep s) [
  | none ↦ s ∷ []
  | some (a, b) ↦ a ∷ split_n sep (suc n) b
]

abbrev pub prepend : ℕ → List Str → List Str
prepend c [] = (c ∷ []) ∷ []
prepend c (p ∷ ps) = (c ∷ p) ∷ ps

-- strings.Split: never empty.
unfoldable pub split : ℕ → Str → List Str
split sep [] = [] ∷ []
split sep (c ∷ s) = let rest = split sep s in if c == sep then [] ∷ rest else prepend c rest

unfoldable pub contains : ℕ → Str → Bool
contains sep [] = false
contains sep (c ∷ s) = c == sep || contains sep s

abbrev pub lower : ℕ → ℕ
lower c = if leb b'A' c && leb c b'Z' then c + 32 else c

unfoldable pub to_lower : Str → Str
to_lower = map lower

-- The `s[0]` of a slice that is never empty.
abbrev pub first_part : List Str → Str
first_part [] = []
first_part (p ∷ ps) = p
