-- ===== src/Manager/Sound/Frees.antt =====
-- DestroyMount, DestroyManager and the collection of a mount keep the state sound: what is freed is
-- in the map no more.
use icecast_proxy_go.Prelude.{
  bind-Preserves, gets-Preserves, if-Preserves, skip-Preserves, Preserves, ℕ, ◌≡◌, ◌≢◌, ◌≤◌, ap,
  sym, ◌∙◌, HasUniqueKeys, str_eq_iff, update_ne, update_cases, refl, ◌>>=◌, ◌>>◌, List, [], ◌∷◌,
  some, Str, arith, state_of, length, lookup, delete, lookup-delete, delete-HasUniqueKeys, text_eq,
  Go, skip, modify, gets,
}
use icecast_proxy_go.Config.{queue_limit}
use icecast_proxy_go.Container.{clients_of, is_positive}
use icecast_proxy_go.Mount.{on_shout}
use icecast_proxy_go.Shout.{LibShout, destroy_shout}
use icecast_proxy_go.World.{World, at_mount, on_manager, close_conn}
use icecast_proxy_go.Manager.Remove.{close_all, destroy_mount, on_collect, destroy_mounts}
use icecast_proxy_go.Mount.Laws.{IsGuarded}
use icecast_proxy_go.Manager.Sound.Calls.{close-IsPlainly, destroy_shout-IsGuarded}
use icecast_proxy_go.Manager.Sound.{IsSound, Keeps, at_mount-Keeps, same-IsSound}
use icecast_proxy_go.Manager.Sound.Steps.{on_shout-IsMildly}

-- A mount that the map does not name.
abbrev pub IsApart : ℕ → World → Type 0
IsApart m w = (name : Str) (j : ℕ) → lookup name w.manager.mounts ≡ some j → m ≢ j

-- The state is sound, and the map names none of these mounts.
abbrev pub IsAway : LibShout → (ℕ → Type 0) → World → Type 0
IsAway lib P w = IsSound lib w × ((m : ℕ) → P m → IsApart m w)

-- However the computation ends, this holds.
abbrev KeepsAway : LibShout → (ℕ → Type 0) → {A : Type 0} → Go World A → Type 0
KeepsAway lib P = Preserves (IsAway lib P)

module _ (lib : LibShout) (P : ℕ → Type 0) where
  -- Such a mount may be freed.
  free-KeepsAway : (m : ℕ) → P m → KeepsAway lib P (at_mount m (on_shout (destroy_shout lib)))
  unfolding destroy_shout
  free-KeepsAway m p = record {
    apply = λ w h.
        let t = state_of (on_shout (destroy_shout lib) (w.mount_at m)) in
        let s = h.0 in
        (
          record {
            capped = s.capped;
            guarded = λ j.
                update_cases (λ r. IsGuarded lib r.shout.calls) m j t w.mount_at
                  (λ same. destroy_shout-IsGuarded lib (w.mount_at m).shout (s.guarded m))
                  (s.guarded j);
            queued = λ j.
                update_cases (λ r. length r.client_queue ≤ queue_limit) m j t w.mount_at
                  (λ same. s.queued m) (s.queued j);
            unique = s.unique;
            entries = λ name j e.
                let old = s.entries name j e in
                let same = update_ne m j t w.mount_at (h.1 m p name j e) in
                record {
                  named = rw same old.named;
                  live = rw same old.live;
                  allocated = old.allocated;
                  usable = rw same old.usable;
                };
          },
          h.1,
        );
  }

  close_conn-KeepsAway : (client : ℕ) → KeepsAway lib P (close_conn client)
  close_conn-KeepsAway client = record {
    apply = λ w h. (same-IsSound w _ h.0 refl refl refl h.0.capped, h.1);
  }

  close_all-KeepsAway : (cs : List ℕ) → KeepsAway lib P (close_all cs)
  unfolding close_all
  close_all-KeepsAway [] = skip-Preserves
  close_all-KeepsAway (client ∷ cs) =
      bind-Preserves _ _ (close_conn-KeepsAway client) λ _. close_all-KeepsAway cs

  pub destroy_mount-KeepsAway : (m : ℕ) → P m → KeepsAway lib P (destroy_mount lib m)
  unfolding destroy_mount
  destroy_mount-KeepsAway m p = bind-Preserves _ _ (free-KeepsAway m p) λ _.
      bind-Preserves _ _ (gets-Preserves (λ w. clients_of (w.mount_at m).clients))
        λ cs. close_all-KeepsAway cs

pub destroy_mounts-KeepsAway :
    (lib : LibShout) (ms : List (Str × ℕ)) → KeepsAway lib (λ m. Unit {0}) (destroy_mounts lib ms)
unfolding destroy_mounts
destroy_mounts-KeepsAway lib [] = skip-Preserves
destroy_mounts-KeepsAway lib ((name, m) ∷ ms) =
    bind-Preserves _ _ (destroy_mount-KeepsAway lib (λ m. Unit {0}) m tt)
      λ _. destroy_mounts-KeepsAway lib ms

still_listed :
    (name key : Str) (j : ℕ) (mounts : List (Str × ℕ))
    → HasUniqueKeys mounts
    → lookup key (delete name mounts) ≡ some j
    → (lookup key mounts ≡ some j) × (name ≢ key)
still_listed name key j mounts unique found =
    ground (arith, found, lookup-delete name key mounts unique, str_eq_iff name key)

-- Without the entry under its name a mount is in the map no more.
unmapped :
    (lib : LibShout) (m : ℕ) (w : World)
    → IsSound lib w
    → IsAway lib
        (λ j. j ≡ m)
        (record w {
          manager = record (w.manager) { mounts = delete (w.mount_at m).mount w.manager.mounts };
        })
unmapped lib m w s =
    let name = (w.mount_at m).mount in
    (
      record {
        capped = s.capped;
        guarded = s.guarded;
        queued = s.queued;
        unique = delete-HasUniqueKeys name w.manager.mounts s.unique;
        entries = λ key j found.
            let old = s.entries key j (still_listed name key j w.manager.mounts s.unique found).0 in
            record {
              named = old.named;
              live = old.live;
              allocated = old.allocated;
              usable = old.usable;
            };
      },
      λ i e key j found same.
          let (listed, other) = still_listed name key j w.manager.mounts s.unique found in
          other (ap (λ x. (w.mount_at x).mount) (sym e ∙ same) ∙ (s.entries key j listed).named),
    )

-- The mount is taken from the map under its name, and destroyed.
abbrev unmap : LibShout → ℕ → Go World (Unit {0})
unmap lib m = do
  name ← gets (λ w. (w.mount_at m).mount)
  on_manager (modify (λ r. record r { mounts = delete name r.mounts }))
  destroy_mount lib m

unmap-Keeps : (lib : LibShout) (m : ℕ) → Keeps lib (unmap lib m)
unmap-Keeps lib m = record {
  apply = λ w s. ((destroy_mount-KeepsAway lib (λ j. j ≡ m) m refl).apply _ (unmapped lib m w s)).0;
}

pub on_collect-Keeps : (lib : LibShout) (m : ℕ) → Keeps lib (on_collect lib m)
unfolding on_collect
on_collect-Keeps lib m =
    bind-Preserves _ _ (gets-Preserves (λ w. (w.mount_at m).clients.length)) λ left.
      if-Preserves (is_positive left) skip _ skip-Preserves (
        bind-Preserves _ _ (at_mount-Keeps m _ (on_shout-IsMildly _ (close-IsPlainly lib)))
          λ _. unmap-Keeps lib m)
