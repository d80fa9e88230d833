-- ===== src/Manager/Order.antt =====
-- Who stands where: the invariant that no identifier is twice in the line of a mount, and that a
-- client that is still to come is unknown to every mount, with rules by which a computation of the
-- manager of server/icecast.go keeps it.
pub mod Steps
pub mod Lives
pub mod Removes
pub mod Adds
pub mod Cases
use icecast_proxy_go.Prelude.{
  Preserves, ℕ, ◌≡◌, ◌≢◌, refl, sym, ap, subst, fun_ext, ◌∙◌, Bool, true, false, List, [], ◌∷◌,
  ◌++◌, Option, none, some, Str, map, All, arith, ◌⊎◌, ◌==◌, if◌then◌else◌, Bool-cases, inl, inr,
  lookup, nat_eq, HasUniqueKeys, Go, Outcome, state_of, done, panicked, blocked, ◌>>=◌, skip, gets,
  panic, modify, update,
}
use icecast_proxy_go.Container.{Container, get_by_id}
use icecast_proxy_go.Handlers.{Handlers}
use icecast_proxy_go.Mount.{Mount, on_shout}
use icecast_proxy_go.Shout.{Shout}
use icecast_proxy_go.World.{World, Manager, MetaPack, at_mount, on_handlers, on_manager, id_of}
use icecast_proxy_go.Manager.Seats.{Distinct, line_from}

-- The queue of a mount, its clients and its live identifier.
pub record Roster : Type 0 where
  pub queue : List ℕ
  pub clients : Container
  pub active : Option ℕ

abbrev pub roster : Mount → Roster
roster t = record { queue = t.client_queue; clients = t.clients; active = t.active }

abbrev pub rosters : World → ℕ → Roster
rosters w m = roster (w.mount_at m)

abbrev pub line_of : Roster → List ℕ
line_of x = line_from x.active x.queue

-- Nobody stands in line or is listed under the identifier.
abbrev pub IsUnknown : ℕ → Roster → Type 0
IsUnknown id x = All (λ y. id ≢ y) (line_of x) × (get_by_id x.clients id ≡ none)

-- For the clients of a roster: one entry for each identifier, each client under its own, and no
-- identifier twice in line.
pub record IsProper (owner : ℕ → ℕ) (x : Roster) : Type 0 where
  pub keyed : HasUniqueKeys x.clients.by_id
  pub owned : (id client : ℕ) → get_by_id x.clients id ≡ some client → owner client ≡ id
  pub lined : Distinct (line_of x)

-- Every mount is proper, and the clients of `out` are still to come: no two have one identifier, and
-- no mount knows one of them.
pub record IsOrderly (xs : ℕ → Roster) (owner : ℕ → ℕ) (out : List ℕ) : Type 0 where
  pub proper : (m : ℕ) → IsProper owner (xs m)
  pub apart : Distinct (map owner out)
  pub unknown : (m : ℕ) → All (λ c. IsUnknown (owner c) (xs m)) out

-- The clients that wait in the channel of the manager, and those of `later`, are still to come.
abbrev pub InOrder : List ℕ → World → Type 0
InOrder later w = IsOrderly (rosters w) (id_of w) (w.manager.receiver ++ later)

-- However the computation ends, the order is kept.
abbrev pub KeepsOrder : List ℕ → {A : Type 0} → Go World A → Type 0
KeepsOrder later = Preserves (InOrder later)

-- A world with the same rosters, the same owners and the same channel of clients.
pub same-InOrder :
    (later : List ℕ) (w w' : World)
    → rosters w' ≡ rosters w
    → id_of w' ≡ id_of w
    → w'.manager.receiver ≡ w.manager.receiver
    → InOrder later w
    → InOrder later w'
same-InOrder later w w' r o c h = rw (r, o, c) h

-- One mount gets another roster.
pub put-IsOrderly :
    (m : ℕ) (x : Roster) (xs : ℕ → Roster) (owner : ℕ → ℕ) (out : List ℕ)
    → IsProper owner x
    → All (λ c. IsUnknown (owner c) x) out
    → IsOrderly xs owner out
    → IsOrderly (update m x xs) owner out
unfolding update
put-IsOrderly m x xs owner out p u h = record {
  proper = λ j. by_place (λ y. IsProper owner y) j p (h.proper j);
  apart = h.apart;
  unknown = λ j. by_place (λ y. All (λ c. IsUnknown (owner c) y) out) j u (h.unknown j);
}
  where
    by_place : (P : Roster → Type 0) (j : ℕ) → P x → P (xs j) → P (if j == m then x else xs j)
    by_place P j hit miss = choose (j == m)
      where
        choose : (b : Bool) → P (if b then x else xs j)
        choose true = hit
        choose false = miss

pub rosters-update :
    (m : ℕ) (t : Mount) (f : ℕ → Mount)
    → (λ j. roster (update m t f j)) ≡ update m (roster t) (λ j. roster (f j))
unfolding update
rosters-update m t f = fun_ext λ j. choose (j == m) t (f j)
  where
    choose :
        (b : Bool) (t u : Mount) → roster (if b then t else u) ≡ (if b then roster t else roster u)
    choose true t u = refl
    choose false t u = refl

pub update_same : (m : ℕ) (x : Roster) (xs : ℕ → Roster) → x ≡ xs m → update m x xs ≡ xs
unfolding update
update_same m x xs e = fun_ext λ j. choose j (Bool-cases (j == m))
  where
    choose :
        (j : ℕ) → (((j == m) ≡ true) ⊎ ((j == m) ≡ false)) → (if j == m then x else xs j) ≡ xs j
    choose j (inl hit) = rw hit (e ∙ ap xs (ground (arith, hit)))
    choose j (inr miss) = rw miss
