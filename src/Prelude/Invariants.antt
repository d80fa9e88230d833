-- ===== src/Prelude/Invariants.antt =====
-- What holds of the state however a computation ends, with rules for `search`.
use mathlib.Core.Path.{◌≡◌, refl, sym, subst}
use mathlib.Core.Bool.{Bool, true, false}
use mathlib.Core.Option.{Option, none, some}
use icecast_proxy_go.Prelude.Tests.{Str, if◌then◌else◌}
use icecast_proxy_go.Prelude.Monad.{
  Go, Outcome, done, panicked, blocked, state_of, ◌>>=◌, skip, return, gets, panic, modify, zoom,
  recover,
}

pub record Preserves {S A : Type 0} (P : S → Type 0) (k : Go S A) : Type 0 where
  pub apply : (s : S) → P s → P (state_of (k s))

pub of_outcome :
    {S A : Type 0} (P : S → Type 0) {o o' : Outcome S A} → o ≡ o' → P (state_of o') → P (state_of o)
of_outcome P e h = subst (λ o. P (state_of o)) (sym e) h

pub state_of-zoom :
    {S T A : Type 0} (get : S → T) (put : T → S → S) (k : Go T A) (s : S)
    → state_of (zoom get put k s) ≡ put (state_of (k (get s))) s
state_of-zoom {S} {T} {A} get put k s = by_outcome (k (get s))
  where
    by_outcome : (o : Outcome T A) → state_of (zoom get put (λ _. o) s) ≡ put (state_of o) s
    by_outcome (done a t) = refl
    by_outcome (panicked e t) = refl
    by_outcome (blocked t) = refl

module _ {S : Type 0} {P : S → Type 0} where
  pub bind-Preserves :
      {A B : Type 0} (k : Go S A) (f : A → Go S B)
      → Preserves P k
      → ((a : A) → Preserves P (f a))
      → Preserves P (k >>= f)
  bind-Preserves {A} {B} k f hk hf = record { apply = λ s h. by_outcome s (k s) (hk.apply s h) }
    where
      by_outcome : (s : S) (o : Outcome S A) → P (state_of o) → P (state_of (((λ _. o) >>= f) s))
      by_outcome s (done a t) h = (hf a).apply t h
      by_outcome s (panicked e t) h = h
      by_outcome s (blocked t) h = h

  pub if-Preserves :
      {A : Type 0} (c : Bool) (k l : Go S A)
      → Preserves P k
      → Preserves P l
      → Preserves P (if c then k else l)
  if-Preserves true k l hk hl = hk
  if-Preserves false k l hk hl = hl

  pub bool-Preserves :
      {A : Type 0} (c : Bool) (k l : Go S A)
      → Preserves P k
      → Preserves P l
      → Preserves P (elim c [ true ↦ k | false ↦ l ])
  bool-Preserves true k l hk hl = hk
  bool-Preserves false k l hk hl = hl

  pub option-Preserves :
      {A B : Type 0} (o : Option A) (k : Go S B) (f : A → Go S B)
      → Preserves P k
      → ((a : A) → Preserves P (f a))
      → Preserves P (elim o [ none ↦ k | some a ↦ f a ])
  option-Preserves none k f hk hf = hk
  option-Preserves (some a) k f hk hf = hf a

  pub skip-Preserves : Preserves P skip
  skip-Preserves = record { apply = λ s h. h }

  pub return-Preserves : {A : Type 0} (a : A) → Preserves P (return a)
  return-Preserves a = record { apply = λ s h. h }

  pub gets-Preserves : {A : Type 0} (f : S → A) → Preserves P (gets f)
  gets-Preserves f = record { apply = λ s h. h }

  pub panic-Preserves : {A : Type 0} (e : Str) → Preserves {A = A} P (panic e)
  panic-Preserves e = record { apply = λ s h. h }

  pub modify-Preserves : (f : S → S) → ((s : S) → P s → P (f s)) → Preserves P (modify f)
  modify-Preserves f h = record { apply = h }

  -- A computation on a part of the state, which is put back whatever comes of it.
  pub zoom-Preserves :
      {T A : Type 0} (get : S → T) (put : T → S → S) (k : Go T A)
      → ((s : S) → P s → P (put (state_of (k (get s))) s))
      → Preserves P (zoom get put k)
  zoom-Preserves {T} {A} get put k h = record {
    apply = λ s p. subst P (sym (state_of-zoom get put k s)) (h s p);
  }

-- A recovered panic leaves the state that it found.
pub of_recover :
    {S A : Type 0} (P : S → Type 0) (a : A) (o : Outcome S A)
    → P (state_of o)
    → (s : S) → P (state_of (recover a (λ _. o) s))
of_recover P a (done b t) h s = h
of_recover P a (panicked e t) h s = h
of_recover P a (blocked t) h s = h

-- The rules for `search`.
pub ruleset preserving = (
  bind-Preserves, if-Preserves, bool-Preserves, option-Preserves, skip-Preserves, return-Preserves,
  gets-Preserves, panic-Preserves,
)
