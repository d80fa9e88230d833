-- ===== src/Prelude/Dict.antt =====
-- Go maps as association lists, generic in the key's equality test: a write replaces the entry of
-- a present key and else adds one, `delete` of a missing key does nothing.
use Prim.Native.Nat.{ℕ, ◌+◌}
use mathlib.Core.Path.{◌≡◌, refl, subst}
use mathlib.Core.Logic.{◌≢◌, ◌↔◌, inl, inr}
use mathlib.Core.Bool.{Bool, true}
use mathlib.Core.Option.{Option, none, some}
use mathlib.Core.List.{List, [], ◌∷◌}
use native.Mathlib.Omega.{arith}
use icecast_proxy_go.Prelude.Tests.{
  ◌==◌ as nat_beq, ==_iff, Str, str_eq, str_eq_iff, if◌then◌else◌, Bool-cases,
}
use icecast_proxy_go.Prelude.Lists.{All, length}

pub record Eq {ℓ} (A : Type ℓ) : Type ℓ where
  pub beq : A → A → Bool
  pub beq_iff : (a b : A) → (beq a b ≡ true) ↔ (a ≡ b)

instance abbrev pub nat_eq : Eq ℕ
nat_eq = record { beq = nat_beq; beq_iff = ==_iff }

instance abbrev pub text_eq : Eq Str
text_eq = record { beq = str_eq; beq_iff = str_eq_iff }

module _ {ℓ κ} {K : Type ℓ} {V : Type κ} ⦃e : Eq K⦄ where
  unfoldable pub lookup : K → List (K × V) → Option V
  lookup k [] = none
  lookup k ((j, v) ∷ m) = if e.beq j k then some v else lookup k m

  unfoldable pub insert : K → V → List (K × V) → List (K × V)
  insert k v [] = (k, v) ∷ []
  insert k v ((j, w) ∷ m) = if e.beq j k then (k, v) ∷ m else (j, w) ∷ insert k v m

  unfoldable pub delete : K → List (K × V) → List (K × V)
  delete k [] = []
  delete k ((j, w) ∷ m) = if e.beq j k then m else (j, w) ∷ delete k m

  -- No entry of the map is for this key.
  abbrev pub IsFresh : K → List (K × V) → Type ℓ
  IsFresh k = All (λ p. p.0 ≢ k)

  -- Each key has one entry.
  abbrev pub HasUniqueKeys : List (K × V) → Type ℓ
  HasUniqueKeys [] = Unit
  HasUniqueKeys ((k, v) ∷ m) = IsFresh k m × HasUniqueKeys m

  pub lookup-insert :
      (k j : K) (v : V) (m : List (K × V))
      → lookup j (insert k v m) ≡ (if e.beq k j then some v else lookup j m)
  unfolding lookup insert
  lookup-insert k j v [] = refl
  lookup-insert k j v ((i, w) ∷ m) =
      ground (arith, e.beq_iff k j, e.beq_iff i k, e.beq_iff i j, lookup-insert k j v m)

  pub lookup-insert_self : (k : K) (v : V) (m : List (K × V)) → lookup k (insert k v m) ≡ some v
  lookup-insert_self k v m = ground (arith, lookup-insert k k v m, e.beq_iff k k)

  pub lookup_of_IsFresh : (k : K) (m : List (K × V)) → IsFresh k m → lookup k m ≡ none
  unfolding lookup
  lookup_of_IsFresh k [] h = refl
  lookup_of_IsFresh k ((j, w) ∷ m) h = ground (arith, e.beq_iff j k, lookup_of_IsFresh k m h.1)

  pub IsFresh-of_lookup : (k : K) (m : List (K × V)) → lookup k m ≡ none → IsFresh k m
  unfolding lookup
  IsFresh-of_lookup k [] h = tt
  IsFresh-of_lookup k ((j, w) ∷ m) h = elim (Bool-cases (e.beq j k)) [
    | inl hit ↦ absurd (ground arith)
    | inr miss ↦ (λ q. ground (arith, e.beq_iff j k), IsFresh-of_lookup k m (ground arith))
  ]

  pub lookup-delete :
      (k j : K) (m : List (K × V))
      → HasUniqueKeys m
      → lookup j (delete k m) ≡ (if e.beq k j then none else lookup j m)
  unfolding lookup delete
  lookup-delete k j [] u = ground arith
  lookup-delete k j ((i, w) ∷ m) u = ground (
    arith,
    e.beq_iff k j,
    e.beq_iff i k,
    e.beq_iff i j,
    lookup-delete k j m u.1,
    lookup_of_IsFresh i m u.0,
  )

  pub insert-IsFresh :
      (i k : K) (v : V) (m : List (K × V)) → k ≢ i → IsFresh i m → IsFresh i (insert k v m)
  unfolding insert
  insert-IsFresh i k v [] n h = (n, tt)
  insert-IsFresh i k v ((j, w) ∷ m) n h = elim (Bool-cases (e.beq j k)) [
    | inl hit ↦ rw hit (n, h.1)
    | inr miss ↦ rw miss (h.0, insert-IsFresh i k v m n h.1)
  ]

  pub insert-HasUniqueKeys :
      (k : K) (v : V) (m : List (K × V)) → HasUniqueKeys m → HasUniqueKeys (insert k v m)
  unfolding insert
  insert-HasUniqueKeys k v [] u = (tt, tt)
  insert-HasUniqueKeys k v ((j, w) ∷ m) u = elim (Bool-cases (e.beq j k)) [
    | inl hit ↦
        let same : j ≡ k = (e.beq_iff j k).0 hit in rw hit (subst (λ x. IsFresh x m) same u.0, u.1)
    | inr miss ↦ rw miss (
      insert-IsFresh j k v m (λ q. ground (arith, e.beq_iff j k)) u.0,
      insert-HasUniqueKeys k v m u.1,
    )
  ]

  pub delete-IsFresh : (i k : K) (m : List (K × V)) → IsFresh i m → IsFresh i (delete k m)
  unfolding delete
  delete-IsFresh i k [] h = tt
  delete-IsFresh i k ((j, w) ∷ m) h = elim (Bool-cases (e.beq j k)) [
    | inl hit ↦ rw hit h.1
    | inr miss ↦ rw miss (h.0, delete-IsFresh i k m h.1)
  ]

  pub delete-HasUniqueKeys :
      (k : K) (m : List (K × V)) → HasUniqueKeys m → HasUniqueKeys (delete k m)
  unfolding delete
  delete-HasUniqueKeys k [] u = tt
  delete-HasUniqueKeys k ((j, w) ∷ m) u = elim (Bool-cases (e.beq j k)) [
    | inl hit ↦ rw hit u.1
    | inr miss ↦ rw miss (delete-IsFresh j k m u.0, delete-HasUniqueKeys k m u.1)
  ]

  pub length-insert_fresh :
      (k : K) (v : V) (m : List (K × V)) → lookup k m ≡ none → length (insert k v m) ≡ length m + 1
  unfolding lookup insert
  length-insert_fresh k v [] h = omega arith
  length-insert_fresh k v ((j, w) ∷ m) h = ground (arith, length-insert_fresh k v m)

  pub length-delete-some :
      (k : K) (v : V) (m : List (K × V)) → lookup k m ≡ some v → length (delete k m) + 1 ≡ length m
  unfolding lookup delete
  length-delete-some k v [] h = absurd (ground arith)
  length-delete-some k v ((j, w) ∷ m) h = ground (arith, length-delete-some k v m)

  pub length_of_lookup : (k : K) (v : V) (m : List (K × V)) → lookup k m ≡ some v → length m ≢ 0
  unfolding lookup
  length_of_lookup k v [] h = absurd (ground arith)
  length_of_lookup k v (p ∷ m) h = omega arith
