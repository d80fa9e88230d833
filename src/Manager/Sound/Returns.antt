-- ===== src/Manager/Sound/Returns.antt =====
-- The cases of the select statement that always return.
use icecast_proxy_go.Prelude.{
  ℕ, ◌≡◌, ◌≢◌, refl, Bool, true, false, List, [], ◌∷◌, Option, none, some, bytes, arith, ◌==◌,
  if◌then◌else◌, Outcome, done, panicked, blocked, ◌>>=◌, ◌>>◌, lookup, insert, delete, nat_eq,
  text_eq, IsDone, Go, skip, gets, modify, panic,
}
use icecast_proxy_go.ClientHash.{hash}
use icecast_proxy_go.Container.{get_by_hash, is_positive}
use icecast_proxy_go.Mount.{on_shout}
use icecast_proxy_go.Shout.{LibShout, send_metadata, close, destroy_shout}
use icecast_proxy_go.World.{at_mount, on_manager, World, MetaPack}
use icecast_proxy_go.Manager.Remove.{close_all, destroy_mount, on_collect}
use icecast_proxy_go.Manager.Serve.{on_meta, mount_meta, live_meta, set_metadata}
use icecast_proxy_go.Manager.Sound.{IsSound}

if-IsDone :
    (c : Bool) (k l : Go World (Unit {0})) (w : World)
    → IsDone (k w)
    → IsDone (l w)
    → IsDone ((if c then k else l) w)
if-IsDone true k l w hk hl = hk
if-IsDone false k l w hk hl = hl

option-IsDone :
    {A : Type 0} (o : Option A) (k : Go World (Unit {0})) (f : A → Go World (Unit {0})) (w : World)
    → IsDone (k w)
    → ((a : A) → IsDone (f a w))
    → IsDone ((elim o as (λ _. Go World (Unit {0})) [ none ↦ k | some a ↦ f a ]) w)
option-IsDone none k f w hk hf = hk
option-IsDone (some a) k f w hk hf = hf a

bind-IsDone :
    {A : Type 0} (k : Go World A) (l : Go World (Unit {0})) (w : World)
    → IsDone (k w)
    → ((t : World) → IsDone (l t))
    → IsDone ((k >> l) w)
bind-IsDone {A} k l w hk hl = by_outcome (k w) hk
  where
    by_outcome : (o : Outcome World A) → IsDone o → IsDone (((λ _. o) >> l) w)
    by_outcome (done a t) h = hl t
    by_outcome (panicked e t) h = h
    by_outcome (blocked t) h = h

module _ (lib : LibShout) where
  live_meta-IsDone :
      (m : ℕ) (meta : MetaPack) (client : ℕ) (w : World) → IsDone (live_meta lib m meta client w)
  unfolding live_meta send_metadata
  live_meta-IsDone m meta client w = ground arith

  mount_meta-IsDone :
      (m : ℕ) (meta : MetaPack) (active : ℕ) (w : World) → IsDone (mount_meta lib m meta active w)
  unfolding mount_meta
  mount_meta-IsDone m meta active w =
      if-IsDone (hash (w.ids active) == hash (w.ids meta.id)) _ _ w
        (option-IsDone (get_by_hash w.ids (w.mount_at m).clients (hash (w.ids active))) skip
          (live_meta lib m meta) w tt (λ c. live_meta-IsDone m meta c w))
        (option-IsDone (get_by_hash w.ids (w.mount_at m).clients (hash (w.ids meta.id))) skip
          (λ c. set_metadata c meta.payload) w tt (λ c. tt))

  -- In a sound state the metadata case returns: it neither panics nor waits.
  pub on_meta-IsDone : (meta : MetaPack) (w : World) → IsSound lib w → IsDone (on_meta lib meta w)
  unfolding on_meta
  on_meta-IsDone meta w s =
      by_mount (lookup (w.ids meta.id).mount w.manager.mounts)
        (λ m e. (s.entries (w.ids meta.id).mount m e).live)
    where
      by_active :
          (m : ℕ) (o : Option ℕ)
          → o ≢ none
          → IsDone (
              (elim o as (λ _. Go World (Unit {0})) [
                | none ↦ panic (bytes "nil pointer dereference")
                | some id ↦ mount_meta lib m meta id
              ])
                w)
      by_active m none n = absurd (n refl)
      by_active m (some id) n = mount_meta-IsDone m meta id w

      by_mount :
          (o : Option ℕ)
          → ((m : ℕ) → o ≡ some m → (w.mount_at m).active ≢ none)
          → IsDone (
              (elim o as (λ _. Go World (Unit {0})) [
                | none ↦ on_manager (
                    modify (λ r. record r {
                      meta_store = insert (hash (w.ids meta.id)) meta.payload r.meta_store;
                    }))
                | some m ↦ do
                  active ← gets (λ w. (w.mount_at m).active)
                  elim active [
                    | none ↦ panic (bytes "nil pointer dereference")
                    | some id ↦ mount_meta lib m meta id
                  ]
              ])
                w)
      by_mount none n = tt
      by_mount (some m) n = by_active m (w.mount_at m).active (n m refl)

  close_all-IsDone : (cs : List ℕ) (w : World) → IsDone (close_all cs w)
  unfolding close_all
  close_all-IsDone [] w = tt
  close_all-IsDone (c ∷ cs) w = close_all-IsDone cs _

  -- The collection of a mount always returns.
  pub on_collect-IsDone : (m : ℕ) (w : World) → IsDone (on_collect lib m w)
  unfolding on_collect destroy_mount destroy_shout close
  on_collect-IsDone m w = if-IsDone (is_positive (w.mount_at m).clients.length) skip _ w tt (
      bind-IsDone (at_mount m (on_shout (close lib)))
        (do
          name ← gets (λ w. (w.mount_at m).mount)
          on_manager (modify (λ r. record r { mounts = delete name r.mounts }))
          destroy_mount lib m)
        w (ground arith) λ t. close_all-IsDone _ _)
