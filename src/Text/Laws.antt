-- ===== src/Text/Laws.antt =====
-- Splitting text.
use icecast_proxy_go.Prelude.{
  ℕ, ◌≡◌, refl, ◌≢◌, false, List, [], ◌∷◌, ◌++◌, none, some, Str, ◌==◌, All, arith, Bool-cases, inl,
  inr, ◌↔◌,
}
use icecast_proxy_go.Text.{cut, split_n, prepend, split, contains, first_part}

-- No byte of the text is the separator.
abbrev pub IsFree : ℕ → Str → Type 0
IsFree sep = All (λ c. c ≢ sep)

abbrev pub join : ℕ → List Str → Str
join sep [] = []
join sep (p ∷ []) = p
join sep (p ∷ q ∷ ps) = p ++ (sep ∷ join sep (q ∷ ps))

pub contains-false_iff : (sep : ℕ) (s : Str) → (contains sep s ≡ false) ↔ IsFree sep s
unfolding contains
contains-false_iff sep [] = (λ _. tt, λ _. refl)
contains-false_iff sep (c ∷ s) = ground (arith, contains-false_iff sep s)

-- `cut` splits at the first separator.
pub cut-append : (sep : ℕ) (a b : Str) → IsFree sep a → cut sep (a ++ (sep ∷ b)) ≡ some (a, b)
unfolding cut
cut-append sep [] b h = ground arith
cut-append sep (c ∷ a) b h = ground (arith, cut-append sep a b h.1)

pub cut_of_IsFree : (sep : ℕ) (s : Str) → IsFree sep s → cut sep s ≡ none
unfolding cut
cut_of_IsFree sep [] h = refl
cut_of_IsFree sep (c ∷ s) h = ground (arith, cut_of_IsFree sep s h.1)

pub split_n-two : (sep : ℕ) (a b : Str) → IsFree sep a → split_n sep 2 (a ++ (sep ∷ b)) ≡ a ∷ b ∷ []
unfolding split_n
split_n-two sep a b h = rw (cut-append sep a b h, split_n)

pub split_n-two_free : (sep : ℕ) (s : Str) → IsFree sep s → split_n sep 2 s ≡ s ∷ []
unfolding split_n
split_n-two_free sep s h = rw (cut_of_IsFree sep s h, split_n)

first_part-prepend : (c : ℕ) (ps : List Str) → first_part (prepend c ps) ≡ c ∷ first_part ps
first_part-prepend c [] = refl
first_part-prepend c (p ∷ ps) = refl

-- The first part is what stands before the first separator.
pub first_part-split :
    (sep : ℕ) (a b : Str) → IsFree sep a → first_part (split sep (a ++ (sep ∷ b))) ≡ a
unfolding split
first_part-split sep [] b h = ground arith
first_part-split sep (c ∷ a) b h =
    ground (arith, first_part-split sep a b h.1, first_part-prepend c (split sep (a ++ (sep ∷ b))))

pub first_part-split_free : (sep : ℕ) (a : Str) → IsFree sep a → first_part (split sep a) ≡ a
unfolding split
first_part-split_free sep [] h = refl
first_part-split_free sep (c ∷ a) h =
    ground (arith, first_part-split_free sep a h.1, first_part-prepend c (split sep a))

join-prepend : (sep c : ℕ) (ps : List Str) → join sep (prepend c ps) ≡ c ∷ join sep ps
join-prepend sep c [] = refl
join-prepend sep c (p ∷ []) = refl
join-prepend sep c (p ∷ q ∷ ps) = refl

split-cons : (sep : ℕ) (s : Str) → (p : Str) × (ps : List Str) × (split sep s ≡ p ∷ ps)
unfolding split
split-cons sep [] = ([], [], refl)
split-cons sep (c ∷ s) = elim (Bool-cases (c == sep)) [
  | inl hit ↦ ([], split sep s, rw hit)
  | inr miss ↦ let (p, ps, e) = split-cons sep s in (c ∷ p, ps, rw (miss, e))
]

-- Splitting loses nothing: joined again, the parts give the text.
pub join-split : (sep : ℕ) (s : Str) → join sep (split sep s) ≡ s
unfolding split
join-split sep [] = refl
join-split sep (c ∷ s) =
    let (p, ps, e) = split-cons sep s in
    let ih : join sep (p ∷ ps) ≡ s = rw e at (join-split sep s) in
    ground (arith, e, ih, join-prepend sep c (p ∷ ps))

All-IsFree-prepend :
    (sep c : ℕ) (ps : List Str) → c ≢ sep → All (IsFree sep) ps → All (IsFree sep) (prepend c ps)
All-IsFree-prepend sep c [] n h = ((n, tt), tt)
All-IsFree-prepend sep c (p ∷ ps) n h = ((n, h.0), h.1)

-- No part holds the separator.
pub split-IsFree : (sep : ℕ) (s : Str) → All (IsFree sep) (split sep s)
unfolding split
split-IsFree sep [] = (tt, tt)
split-IsFree sep (c ∷ s) = elim (Bool-cases (c == sep)) [
  | inl hit ↦ rw hit (tt, split-IsFree sep s)
  | inr miss ↦ rw miss (All-IsFree-prepend sep c (split sep s) (ground arith) (split-IsFree sep s))
]
