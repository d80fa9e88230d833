-- ===== src/Manager/Serve/Metadata.antt =====
-- What the select statement does with metadata for a mount that is there.
use icecast_proxy_go.Prelude.{
  ℕ, ◌≡◌, refl, sym, ap, subst, ◌∙◌, ◌⊎◌, inl, inr, true, false, [], ◌∷◌, ◌++◌, Option, none, some,
  arith, ◌==◌, ==_iff, Outcome, state_of, done, panicked, blocked, Bool-cases, ◌>>◌, Option-cases,
  update, update_self, update_ne, lookup, text_eq, nat_eq, bytes, Go, skip, insert, List,
}
use icecast_proxy_go.ClientHash.{hash}
use icecast_proxy_go.Container.{get_by_id, get_by_hash}
use icecast_proxy_go.Container.Laws.{IsValid, get_by_hash_sound}
use icecast_proxy_go.Mount.{Mount, on_shout}
use icecast_proxy_go.Shout.{Shout, ShoutError, LibShout, send_metadata}
use icecast_proxy_go.Shout.Laws.{send_metadata-done}
use icecast_proxy_go.World.{World, MetaPack, at_mount}
use icecast_proxy_go.Manager.Serve.{live_meta, mount_meta, on_meta}

-- A change of one mount leaves the clients alone.
at_mount-clients :
    {A : Type 0} (m : ℕ) (k : Go Mount A) (w : World)
    → (state_of ((do at_mount m k; skip) w)).clients ≡ w.clients
at_mount-clients {A} m k w = by_outcome (k (w.mount_at m))
  where
    by_outcome :
        (o : Outcome Mount A) → (state_of ((do at_mount m (λ _. o); skip) w)).clients ≡ w.clients
    by_outcome (done a t) = refl
    by_outcome (panicked e t) = refl
    by_outcome (blocked t) = refl

live_meta-clients :
    (lib : LibShout) (m client : ℕ) (meta : MetaPack) (w : World)
    → (state_of (live_meta lib m meta client w)).clients
      ≡ update client (record (w.clients client) { metadata = meta.payload }) w.clients
unfolding live_meta
live_meta-clients lib m client meta w = elim (Bool-cases meta.seen) [
  | inl seen ↦ rw seen (
      at_mount-clients m (on_shout (send_metadata lib meta.payload)) (record w {
        clients = update client (record (w.clients client) { metadata = meta.payload }) w.clients;
      }))
  | inr fresh ↦ rw fresh
]

-- The client is listed for the mount under an identifier with the packet's hash.
abbrev pub IsListedFor : ℕ → MetaPack → ℕ → World → Type 0
IsListedFor m meta c w =
    (id : ℕ) × (get_by_id (w.mount_at m).clients id ≡ some c)
    × (hash (w.ids id) ≡ hash (w.ids meta.id))

mount_meta-clients :
    (lib : LibShout) (m active : ℕ) (meta : MetaPack) (w : World)
    → ((state_of (mount_meta lib m meta active w)).clients ≡ w.clients)
      ⊎ ((c : ℕ) × (get_by_hash w.ids (w.mount_at m).clients (hash (w.ids meta.id)) ≡ some c)
          × ((state_of (mount_meta lib m meta active w)).clients
              ≡ update c (record (w.clients c) { metadata = meta.payload }) w.clients))
unfolding mount_meta
mount_meta-clients lib m active meta w =
    elim (Option-cases (get_by_hash w.ids (w.mount_at m).clients (hash (w.ids meta.id)))) [
      | inl none_found ↦ inl (ground (arith, none_found))
      | inr (c, found) ↦ inr (c, found, ground (arith, found, live_meta-clients lib m c meta w))
    ]

on_meta-known :
    (lib : LibShout) (meta : MetaPack) (m active : ℕ) (w : World)
    → lookup (w.ids meta.id).mount w.manager.mounts ≡ some m
    → (w.mount_at m).active ≡ some active
    → on_meta lib meta w ≡ mount_meta lib m meta active w
unfolding on_meta
on_meta-known lib meta m active w found live = ground (arith, found, live)

on_meta-nil :
    (lib : LibShout) (meta : MetaPack) (m : ℕ) (w : World)
    → lookup (w.ids meta.id).mount w.manager.mounts ≡ some m
    → (w.mount_at m).active ≡ none
    → on_meta lib meta w ≡ panicked (bytes "nil pointer dereference") w
unfolding on_meta
on_meta-nil lib meta m w found nil = ground (arith, found, nil)

on_meta-unknown :
    (lib : LibShout) (meta : MetaPack) (w : World)
    → lookup (w.ids meta.id).mount w.manager.mounts ≡ none
    → on_meta lib meta w
      ≡ done tt (record w {
        manager = record (w.manager) {
          meta_store = insert (hash (w.ids meta.id)) meta.payload w.manager.meta_store;
        };
      })
unfolding on_meta
on_meta-unknown lib meta w unknown = ground (arith, unknown)

abbrev pub meta_chan_of : Outcome World (Unit {0}) → List MetaPack
meta_chan_of o = (state_of o).manager.meta_chan

mount_meta-changes_only_listed :
    (lib : LibShout) (meta : MetaPack) (m active c : ℕ) (w : World)
    → IsValid (w.mount_at m).clients
    → ((state_of (mount_meta lib m meta active w)).clients c ≡ w.clients c) ⊎ IsListedFor m meta c w
mount_meta-changes_only_listed lib meta m active c w valid =
    elim (mount_meta-clients lib m active meta w) [
      | inl e ↦ inl (ap (λ f. f c) e)
      | inr (d, found, e) ↦ elim (Bool-cases (d == c)) [
        | inl same ↦ inr (
            subst (λ x. IsListedFor m meta x w) ((==_iff d c).0 same)
              (get_by_hash_sound w.ids (w.mount_at m).clients (hash (w.ids meta.id)) d valid found))
        | inr other ↦
            inl (ap (λ f. f c) e ∙ update_ne d c _ w.clients (λ q. ground (arith, other, q)))
      ]
    ]

-- For a mount that is in the map and whose container is valid: whatever comes of a metadata packet,
-- it changes the metadata of no client but one that is listed for the mount under an identifier
-- with the packet's hash.
pub on_meta-changes_only_listed :
    (lib : LibShout) (meta : MetaPack) (m c : ℕ) (w : World)
    → lookup (w.ids meta.id).mount w.manager.mounts ≡ some m
    → IsValid (w.mount_at m).clients
    → ((state_of (on_meta lib meta w)).clients c ≡ w.clients c) ⊎ IsListedFor m meta c w
on_meta-changes_only_listed lib meta m c w found valid = elim (Option-cases (w.mount_at m).active) [
  | inl nil ↦ inl (
      ap (λ (o : Outcome World (Unit {0})). (state_of o).clients c)
        (on_meta-nil lib meta m w found nil))
  | inr (active, live) ↦
      subst
        (λ (o : Outcome World (Unit {0})).
          ((state_of o).clients c ≡ w.clients c) ⊎ IsListedFor m meta c w)
        (sym (on_meta-known lib meta m active w found live))
        (mount_meta-changes_only_listed lib meta m active c w valid)
]

-- The world in which metadata of the live client are held back.
abbrev pub held : MetaPack → ℕ → World → World
held meta client w = record w {
  clients = update client (record (w.clients client) { metadata = meta.payload }) w.clients;
  sleepers = w.sleepers ++ (w.generation, record meta { seen = true }) ∷ [];
}

pub on_meta-held :
    (lib : LibShout) (meta : MetaPack) (m id client : ℕ) (w : World)
    → lookup (w.ids meta.id).mount w.manager.mounts ≡ some m
    → (w.mount_at m).active ≡ some id
    → hash (w.ids id) ≡ hash (w.ids meta.id)
    → get_by_hash w.ids (w.mount_at m).clients (hash (w.ids id)) ≡ some client
    → meta.seen ≡ false
    → on_meta lib meta w ≡ done tt (held meta client w)
unfolding mount_meta live_meta
on_meta-held lib meta m id client w found live same listed fresh =
    on_meta-known lib meta m id w found live ∙ ground (arith, same, listed, fresh)

-- Metadata with the live client's hash that were not seen yet are held back: if a client is listed
-- under that hash, its metadata are set, a goroutine of this manager has the packet marked as seen,
-- and no mount and no connection changes.
pub on_meta-holds_back :
    (lib : LibShout) (meta : MetaPack) (m id client : ℕ) (w : World)
    → lookup (w.ids meta.id).mount w.manager.mounts ≡ some m
    → (w.mount_at m).active ≡ some id
    → hash (w.ids id) ≡ hash (w.ids meta.id)
    → get_by_hash w.ids (w.mount_at m).clients (hash (w.ids id)) ≡ some client
    → meta.seen ≡ false
    → (w' : World) × (on_meta lib meta w ≡ done tt w')
      × (w'.sleepers ≡ w.sleepers ++ (w.generation, record meta { seen = true }) ∷ [])
      × ((w'.clients client).metadata ≡ meta.payload)
      × (w'.mount_at ≡ w.mount_at)
on_meta-holds_back lib meta m id client w found live same listed fresh = (
  held meta client w,
  on_meta-held lib meta m id client w found live same listed fresh,
  refl,
  simp update_self,
  refl,
)

-- Metadata with the live client's hash that were seen before are sent to libshout once, whatever it
-- answers, if a client is listed under that hash; nothing else but that client's metadata changes.
pub on_meta-sends :
    (lib : LibShout) (meta : MetaPack) (m id client : ℕ) (w : World)
    → lookup (w.ids meta.id).mount w.manager.mounts ≡ some m
    → (w.mount_at m).active ≡ some id
    → hash (w.ids id) ≡ hash (w.ids meta.id)
    → get_by_hash w.ids (w.mount_at m).clients (hash (w.ids id)) ≡ some client
    → meta.seen ≡ true
    → (r : Option ShoutError) × (s : Shout) × (send_metadata lib meta.payload (w.mount_at m).shout
        ≡ done r s)
      × (on_meta lib meta w
          ≡ done tt (record w {
            clients =
                update client (record (w.clients client) { metadata = meta.payload }) w.clients;
            mount_at = update m (record (w.mount_at m) { shout = s }) w.mount_at;
          }))
unfolding mount_meta live_meta
on_meta-sends lib meta m id client w found live same listed seen =
    let (r, s, e) = send_metadata-done lib meta.payload (w.mount_at m).shout in
    (r, s, e, on_meta-known lib meta m id w found live ∙ ground (arith, same, listed, seen, e))

live_meta-manager :
    (lib : LibShout) (m client : ℕ) (meta : MetaPack) (w : World)
    → (state_of (live_meta lib m meta client w)).manager ≡ w.manager
unfolding live_meta send_metadata
live_meta-manager lib m client meta w = ground arith

mount_meta-manager :
    (lib : LibShout) (m active : ℕ) (meta : MetaPack) (w : World)
    → (state_of (mount_meta lib m meta active w)).manager ≡ w.manager
unfolding mount_meta
mount_meta-manager lib m active meta w =
    elim (Bool-cases (hash (w.ids active) == hash (w.ids meta.id))) [
      | inl same ↦
          elim (Option-cases (get_by_hash w.ids (w.mount_at m).clients (hash (w.ids active)))) [
            | inl missing ↦ ground (arith, same, missing)
            | inr (c, found) ↦ ground (arith, same, found, live_meta-manager lib m c meta w)
          ]
      | inr other ↦
          elim (Option-cases (get_by_hash w.ids (w.mount_at m).clients (hash (w.ids meta.id)))) [
            | inl missing ↦ ground (arith, other, missing)
            | inr (c, found) ↦ ground (arith, other, found)
          ]
    ]

-- The metadata case takes nothing from the channel itself, and sends nothing to it.
pub on_meta-meta_chan :
    (lib : LibShout) (meta : MetaPack) (w : World)
    → (state_of (on_meta lib meta w)).manager.meta_chan ≡ w.manager.meta_chan
on_meta-meta_chan lib meta w = elim (Option-cases (lookup (w.ids meta.id).mount w.manager.mounts)) [
  | inl unknown ↦ ap meta_chan_of (on_meta-unknown lib meta w unknown)
  | inr (m, found) ↦ elim (Option-cases (w.mount_at m).active) [
    | inl nil ↦ ap meta_chan_of (on_meta-nil lib meta m w found nil)
    | inr (active, live) ↦
        ap meta_chan_of (on_meta-known lib meta m active w found live)
        ∙ ap (λ r. r.meta_chan) (mount_meta-manager lib m active meta w)
  ]
]
