-- ===== src/Prelude/Monad.antt =====
-- Go statements as a state monad: a computation returns, panics, or blocks for ever. A panic keeps
-- the state, since a deferred recover goes on from it.
use Prim.Native.Nat.{ℕ}
use mathlib.Core.Path.{◌≡◌, refl, fun_ext}
use mathlib.Core.Logic.{◌≢◌}
use native.Mathlib.Omega.{arith}
use mathlib.Core.Bool.{Bool, true, false}
use icecast_proxy_go.Prelude.Tests.{Str, ◌==◌, if◌then◌else◌}

pub data Outcome (S A : Type 0) : Type 0 where
  done : A → S → Outcome S A
  panicked : Str → S → Outcome S A
  blocked : S → Outcome S A

abbrev pub state_of : {S A : Type 0} → Outcome S A → S
state_of (done a s) = s
state_of (panicked e s) = s
state_of (blocked s) = s

abbrev pub Go : Type 0 → Type 0 → Type 0
Go S A = S → Outcome S A

infixl 5 ◌>>=◌ ◌>>◌
abbrev pub ◌>>=◌ : {S A B : Type 0} → Go S A → (A → Go S B) → Go S B
◌>>=◌ m f s = elim (m s) [ done a t ↦ f a t | panicked e t ↦ panicked e t | blocked t ↦ blocked t ]

abbrev pub ◌>>◌ : {S A B : Type 0} → Go S A → Go S B → Go S B
m >> k = m >>= λ _. k

abbrev pub return : {S A : Type 0} → A → Go S A
return a s = done a s

abbrev pub skip : {S : Type 0} → Go S (Unit {0})
skip s = done tt s

abbrev pub panic : {S A : Type 0} → Str → Go S A
panic e s = panicked e s

abbrev pub block : {S A : Type 0} → Go S A
block s = blocked s

abbrev pub gets : {S A : Type 0} → (S → A) → Go S A
gets f s = done (f s) s

abbrev pub modify : {S : Type 0} → (S → S) → Go S (Unit {0})
modify f s = done tt (f s)

-- A computation on a part of the state.
abbrev pub zoom : {S T A : Type 0} → (S → T) → (T → S → S) → Go T A → Go S A
zoom get put m s = elim (m (get s)) [
  | done a t ↦ done a (put t s)
  | panicked e t ↦ panicked e (put t s)
  | blocked t ↦ blocked (put t s)
]

-- `defer func() { if recover() != nil { result } }()`
abbrev pub recover : {S A : Type 0} → A → Go S A → Go S A
recover a m s = elim (m s) [ done b t ↦ done b t | panicked e t ↦ done a t | blocked t ↦ blocked t ]

-- A write to one place of a heap.
unfoldable pub update {ℓ} : {A : Type ℓ} → ℕ → A → (ℕ → A) → ℕ → A
update k v f j = if j == k then v else f j

pub >>=-done :
    {S A B : Type 0} (m : Go S A) (f : A → Go S B) {s t : S} {a : A}
    → m s ≡ done a t
    → (m >>= f) s ≡ f a t
>>=-done m f e = rw (e, ◌>>=◌)

pub done_injective :
    {S A : Type 0} {a b : A} {s t : S}
    → ◌≡◌ {A = Outcome S A} (done a s) (done b t)
    → (a ≡ b) × (s ≡ t)
done_injective e = (cc, cc)

-- Both parts of a bind that returns have returned.
pub >>=-eq-done :
    {S A B : Type 0} (m : Go S A) (f : A → Go S B) (s : S) {t : S} {b : B}
    → (m >>= f) s ≡ done b t
    → (a : A) × (u : S) × (m s ≡ done a u) × (f a u ≡ done b t)
>>=-eq-done {S} {A} {B} m f s {t} {b} e = by_outcome (m s) refl e
  where
    by_outcome :
        (o : Outcome S A)
        → m s ≡ o
        → ((λ _. o) >>= f) s ≡ done b t
        → (a : A) × (u : S) × (m s ≡ done a u) × (f a u ≡ done b t)
    by_outcome (done a u) h k = (a, u, h, k)
    by_outcome (panicked x u) h k = cc
    by_outcome (blocked u) h k = cc

module _ {ℓ} {A : Type ℓ} where
  pub update_self : (k : ℕ) (v : A) (f : ℕ → A) → update k v f k ≡ v
  unfolding update
  update_self k v f = ground arith

  pub update_ne : (k j : ℕ) (v : A) (f : ℕ → A) → k ≢ j → update k v f j ≡ f j
  unfolding update
  update_ne k j v f n = ground arith

  pub update-update : (k : ℕ) (u v : A) (f : ℕ → A) → update k v (update k u f) ≡ update k v f
  unfolding update
  update-update k u v f = fun_ext λ j. ground arith

pub recover-no_panic :
    {S A : Type 0} (a : A) (m : Go S A) (s t : S) (e : Str) → recover a m s ≢ panicked e t
recover-no_panic a m s t e h = by_outcome (m s) h
  where
    by_outcome : (o : Outcome _ _) → recover a (λ _. o) s ≢ panicked e t
    by_outcome (done b u) h = cc
    by_outcome (panicked f u) h = cc
    by_outcome (blocked u) h = cc

pub recover-done :
    {S A : Type 0} (a b : A) (m : Go S A) (s t : S) → m s ≡ done b t → recover a m s ≡ done b t
recover-done a b m s t e = rw (e, recover)

-- The computation returned.
abbrev pub IsDone : {S A : Type 0} → Outcome S A → Type 0
IsDone (done a s) = Unit {0}
IsDone (panicked e s) = ⊥
IsDone (blocked s) = ⊥

pub done_of_IsDone :
    {S A : Type 0} (o : Outcome S A) → IsDone o → (a : A) × (s : S) × (o ≡ done a s)
done_of_IsDone (done a s) h = (a, s, refl)
done_of_IsDone (panicked e s) h = absurd h
done_of_IsDone (blocked s) h = absurd h

-- A property of a place after a write: of the new value there, and of the old one elsewhere.
pub update_cases {ℓ κ} :
    {A : Type ℓ} (P : A → Type κ) (k j : ℕ) (v : A) (f : ℕ → A)
    → (k ≡ j → P v)
    → P (f j)
    → P (update k v f j)
unfolding update
update_cases P k j v f hit miss = go (j == k) refl
  where
    go : (b : Bool) → (j == k) ≡ b → P (if b then v else f j)
    go true e = hit (ground arith)
    go false e = miss
