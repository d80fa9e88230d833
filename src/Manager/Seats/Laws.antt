-- ===== src/Manager/Seats/Laws.antt =====
-- The lists of the view under the operations of the container.
use icecast_proxy_go.Prelude.{
  ℕ, ◌≡◌, ◌≢◌, refl, sym, ap, ◌∙◌, inl, inr, Bool, true, false, not, List, [], ◌∷◌, ◌++◌, none,
  some, ◌==◌, if◌then◌else◌, All, arith, Bool-cases, All-imp, All-append,
}
use icecast_proxy_go.Container.{Container, get_by_id, add, remove}
use icecast_proxy_go.Container.Laws.{IsValid, get_by_id-add, get_by_id-remove}
use icecast_proxy_go.Manager.Seats.{keep, is_some, is_on, Distinct}

pub keep-append : (p : ℕ → Bool) (xs ys : List ℕ) → keep p (xs ++ ys) ≡ keep p xs ++ keep p ys
unfolding keep
keep-append p [] ys = refl
keep-append p (x ∷ xs) ys = ground (arith, keep-append p xs ys)

pub keep_none : (p : ℕ → Bool) (xs : List ℕ) → All (λ x. p x ≡ false) xs → keep p xs ≡ []
unfolding keep
keep_none p [] h = refl
keep_none p (x ∷ xs) h = rw (h.0) (keep_none p xs h.1)

pub keep_same : (p q : ℕ → Bool) (xs : List ℕ) → All (λ x. p x ≡ q x) xs → keep p xs ≡ keep q xs
unfolding keep
keep_same p q [] h = refl
keep_same p q (x ∷ xs) h = rw (h.0) (ap (λ ys. if q x then x ∷ ys else ys) (keep_same p q xs h.1))

pub ==_ne : (a b : ℕ) → a ≢ b → (a == b) ≡ false
==_ne a b n = ground arith

pub is_on-remove :
    (id j : ℕ) (c : Container)
    → IsValid c
    → is_on (remove id c) j ≡ (if id == j then false else is_on c j)
is_on-remove id j c v = ap is_some (get_by_id-remove id j c v) ∙ by_test (id == j)
  where
    by_test :
        (same : Bool)
        → is_some (if same then none else get_by_id c j) ≡ (if same then false else is_on c j)
    by_test true = refl
    by_test false = refl

pub is_on-add :
    (id client j : ℕ) (c : Container)
    → is_on (add id client c) j ≡ (if id == j then true else is_on c j)
is_on-add id client j c = ap is_some (get_by_id-add id j client c) ∙ by_test (id == j)
  where
    by_test :
        (same : Bool)
        → is_some (if same then some client else get_by_id c j) ≡ (if same then true else is_on c j)
    by_test true = refl
    by_test false = refl

-- Who is listed after a removal.
pub keep-remove :
    (id : ℕ) (c : Container) (xs : List ℕ)
    → IsValid c
    → keep (is_on (remove id c)) xs ≡ keep (λ j. not (id == j)) (keep (is_on c) xs)
unfolding keep
keep-remove id c [] v = refl
keep-remove id c (x ∷ xs) v = elim (Bool-cases (id == x)) [
  | inl same ↦ elim (Bool-cases (is_on c x)) [
    | inl on ↦ rw (is_on-remove id x c v, same, on, keep, same) (keep-remove id c xs v)
    | inr off ↦ rw (is_on-remove id x c v, same, off) (keep-remove id c xs v)
  ]
  | inr other ↦ elim (Bool-cases (is_on c x)) [
    | inl on ↦
        rw (is_on-remove id x c v, other, on, keep, other) (ap (◌∷◌ x) (keep-remove id c xs v))
    | inr off ↦ rw (is_on-remove id x c v, other, off) (keep-remove id c xs v)
  ]
]

-- Whoever is not the one that was removed is listed as before.
pub keep-remove_absent :
    (id : ℕ) (c : Container) (xs : List ℕ)
    → IsValid c
    → All (λ y. id ≢ y) xs
    → keep (is_on (remove id c)) xs ≡ keep (is_on c) xs
keep-remove_absent id c xs v h = keep_same (is_on (remove id c)) (is_on c) xs (
    All-imp (λ y. id ≢ y) (λ y. is_on (remove id c) y ≡ is_on c y)
      (λ y n. is_on-remove id y c v ∙ ap (λ b. if b then false else is_on c y) (==_ne id y n)) xs h)

pub keep-add_absent :
    (id client : ℕ) (c : Container) (xs : List ℕ)
    → All (λ y. id ≢ y) xs
    → keep (is_on (add id client c)) xs ≡ keep (is_on c) xs
keep-add_absent id client c xs h = keep_same (is_on (add id client c)) (is_on c) xs (
    All-imp (λ y. id ≢ y) (λ y. is_on (add id client c) y ≡ is_on c y)
      (λ y n. is_on-add id client y c ∙ ap (λ b. if b then true else is_on c y) (==_ne id y n)) xs
      h)

pub All-append_right {ℓ} : (P : ℕ → Type ℓ) (xs ys : List ℕ) → All P (xs ++ ys) → All P ys
All-append_right P [] ys h = h
All-append_right P (x ∷ xs) ys h = All-append_right P xs ys h.1

pub Distinct-append_right : (xs ys : List ℕ) → Distinct (xs ++ ys) → Distinct ys
Distinct-append_right [] ys h = h
Distinct-append_right (x ∷ xs) ys h = Distinct-append_right xs ys h.1

pub Distinct-snoc :
    (xs : List ℕ) (x : ℕ) → Distinct xs → All (λ y. x ≢ y) xs → Distinct (xs ++ x ∷ [])
Distinct-snoc [] x h k = (tt, tt)
Distinct-snoc (y ∷ xs) x h k =
    (All-append (λ z. y ≢ z) xs (x ∷ []) h.0 ((λ e. k.0 (sym e)), tt), Distinct-snoc xs x h.1 k.1)
