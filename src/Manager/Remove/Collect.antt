-- ===== src/Manager/Remove/Collect.antt =====
-- The collection of a mount that no client is left on.
use icecast_proxy_go.Prelude.{
  ℕ, ◌≡◌, ◌≢◌, refl, ◌∙◌, inl, inr, Bool, true, false, List, [], ◌∷◌, Option, none, some, arith,
  done, Bool-cases, update, update_self, update_ne, update-update, lookup, delete, lookup-delete,
  HasUniqueKeys, text_eq, nat_eq, ◌==ℤ◌, pos, str_eq_self,
}
use icecast_proxy_go.Container.{is_positive, clients_of}
use icecast_proxy_go.Mount.{Mount}
use icecast_proxy_go.Shout.{
  Shout, ShoutError, LibShout, close, destroy_shout, shout_close, shout_free, shout_metadata_free,
}
use icecast_proxy_go.World.{World}
use icecast_proxy_go.Manager.Remove.{close_all, destroy_mount, on_collect}

close_all-frame :
    (cs : List ℕ) (w : World)
    → (c : ℕ → Bool) × (close_all cs w ≡ done tt (record w { closed = c }))
unfolding close_all
close_all-frame [] w = (w.closed, refl)
close_all-frame (client ∷ cs) w =
    close_all-frame cs (record w { closed = update (w.clients client).conn true w.closed })

-- The mount after its connection was closed and freed.
abbrev pub freed : Mount → Mount
freed t = record t {
  shout = record { calls = shout_metadata_free ∷ shout_free ∷ shout_close ∷ t.shout.calls };
}

-- A mount that got a client in the meantime is left alone.
pub on_collect-reused :
    (lib : LibShout) (m : ℕ) (w : World)
    → is_positive (w.mount_at m).clients.length ≡ true
    → on_collect lib m w ≡ done tt w
unfolding on_collect
on_collect-reused lib m w used = ground arith

close_lem :
    (lib : LibShout) (s : Shout)
    → (r : Option ShoutError) × (close lib s ≡ done r (record { calls = shout_close ∷ s.calls }))
unfolding close
close_lem lib s = elim (Bool-cases (lib.result s.calls shout_close ==ℤ pos 0)) [
  | inl fine ↦ (none, ground (arith, fine))
  | inr failed ↦ (
    some (record {
      errno = lib.errno (shout_close ∷ s.calls);
      err_str = lib.error (shout_close ∷ s.calls);
    }),
    ground (arith, failed),
  )
]

abbrev with_frees : Mount → Mount
with_frees t = record t {
  shout = record { calls = shout_metadata_free ∷ shout_free ∷ t.shout.calls };
}

destroy_mount_lem :
    (lib : LibShout) (m : ℕ) (w : World)
    → (c : ℕ → Bool) × (destroy_mount lib m w
        ≡ done tt
            (record w { mount_at = update m (with_frees (w.mount_at m)) w.mount_at; closed = c }))
unfolding destroy_mount destroy_shout
destroy_mount_lem lib m w =
    close_all-frame (clients_of (update m (with_frees (w.mount_at m)) w.mount_at m).clients)
      (record w { mount_at = update m (with_frees (w.mount_at m)) w.mount_at })

abbrev with_close : Mount → Mount
with_close t = record t { shout = record { calls = shout_close ∷ t.shout.calls } }

-- The world of a collection between the entry's deletion and the mount's destruction.
abbrev unmapped : ℕ → World → World
unmapped m w = record w {
  mount_at = update m (with_close (w.mount_at m)) w.mount_at;
  manager = record (w.manager) { mounts = delete (w.mount_at m).mount w.manager.mounts };
}

on_collect-unmaps :
    (lib : LibShout) (m : ℕ) (w : World)
    → is_positive (w.mount_at m).clients.length ≡ false
    → on_collect lib m w ≡ destroy_mount lib m (unmapped m w)
unfolding on_collect
on_collect-unmaps lib m w empty = ground (
  arith,
  (close_lem lib (w.mount_at m).shout).1,
  update_self m (with_close (w.mount_at m)) w.mount_at,
)

-- The world after a collection, with the connections that were closed.
abbrev pub collected : ℕ → (ℕ → Bool) → World → World
collected m c w = record w {
  mount_at = update m (freed (w.mount_at m)) w.mount_at;
  manager = record (w.manager) { mounts = delete (w.mount_at m).mount w.manager.mounts };
  closed = c;
}

pub on_collect_lem :
    (lib : LibShout) (m : ℕ) (w : World)
    → is_positive (w.mount_at m).clients.length ≡ false
    → (c : ℕ → Bool) × (on_collect lib m w ≡ done tt (collected m c w))
on_collect_lem lib m w empty =
    let (c, e) = destroy_mount_lem lib m (unmapped m w) in
    (c, on_collect-unmaps lib m w empty ∙ e ∙ simp (update_self, update-update))

-- The collection of a mount whose counter is not positive, with one entry per name in the map,
-- takes the mount's name from the map, closes and frees its connection, in that order, and leaves
-- the other mounts alone.
pub on_collect-frees :
    (lib : LibShout) (m : ℕ) (w : World)
    → is_positive (w.mount_at m).clients.length ≡ false
    → HasUniqueKeys w.manager.mounts
    → (w' : World) × (on_collect lib m w ≡ done tt w')
      × (lookup (w.mount_at m).mount w'.manager.mounts ≡ none)
      × ((w'.mount_at m).shout.calls
          ≡ shout_metadata_free ∷ shout_free ∷ shout_close ∷ (w.mount_at m).shout.calls)
      × ((j : ℕ) → m ≢ j → w'.mount_at j ≡ w.mount_at j)
on_collect-frees lib m w empty unique =
    let (c, e) = on_collect_lem lib m w empty in
    (
      collected m c w,
      e,
      lookup-delete (w.mount_at m).mount (w.mount_at m).mount w.manager.mounts unique
          ∙ rw (str_eq_self (w.mount_at m).mount),
      simp update_self,
      λ j n. update_ne m j _ w.mount_at n,
    )
