-- ===== src/Manager/Sound/Added.antt =====
-- AddClient and the case of new clients keep the state of the manager sound.
use icecast_proxy_go.Prelude.{
  bind-Preserves, gets-Preserves, return-Preserves, skip-Preserves, of_outcome, of_recover, ℕ, ◌≡◌,
  ◌≤◌, refl, sym, ◌∙◌, ◌⊎◌, inl, inr, false, List, [], ◌∷◌, ◌++◌, Option, none, some, Str, arith,
  state_of, done, panicked, Bool-cases, ◌>>=◌, ◌>>◌, >>=-done, Option-cases, length, length-append,
  ltb, update_self, update_ne, update_cases, lookup, lookup-insert, insert-HasUniqueKeys, text_eq,
  nat_eq, str_eq, str_eq_iff, skip, modify, gets, return, recover, bytes,
}
use icecast_proxy_go.ClientHash.{hash}
use icecast_proxy_go.Config.{Yaml, fill_options, create_shout_map, queue_limit}
use icecast_proxy_go.Handlers.{handle_client_connect}
use icecast_proxy_go.Mount.{on_shout, new_mount, full_queue}
use icecast_proxy_go.Shout.{LibShout}
use icecast_proxy_go.Shout.Options.{apply_options}
use icecast_proxy_go.World.{World, at_mount, on_handlers, send_meta, id_of, mount_name}
use icecast_proxy_go.Manager.Add.{
  format_of, mount_options, finish_mount, place_mount, open_mount, join_mount, add_body, add_client,
}
use icecast_proxy_go.Manager.Add.Laws.{with_joined, with_listed, join_mount-room, join_mount-full}
use icecast_proxy_go.Manager.Add.Opens.{place_mount_lem, new_mount_lem, placed, live_mount}
use icecast_proxy_go.Manager.Remove.{remove_client}
use icecast_proxy_go.Manager.Serve.{on_client}
use icecast_proxy_go.Mount.Laws.{IsGuarded}
use icecast_proxy_go.Manager.Sound.Calls.{
  apply_options-IsPlainly, new_shout-IsGuarded, new_shout-is_freed,
}
use icecast_proxy_go.Manager.Sound.{
  IsSound, IsEntry, Keeps, same-IsSound, send_meta-Keeps, put-IsSound,
}
use icecast_proxy_go.Manager.Sound.Steps.{keeping, on_shout-IsMildly, remove_client-Keeps}

-- What CreateShoutMap can do: it returns options or panics, and reads the configuration only.
pub config-cases :
    {S : Type 0} (yaml : Yaml) (w : S)
    → ((options : List (Str × Str)) × (create_shout_map yaml w ≡ done options w))
      ⊎ ((e : Str) × (create_shout_map yaml w ≡ panicked e w))
unfolding create_shout_map
config-cases yaml w = elim (Option-cases (yaml.child yaml.root (bytes "icecast"))) [
  | inl e ↦ inr (bytes "Icecast configuration missing.", ground arith)
  | inr (node, e) ↦ elim (Option-cases (yaml.as_map node)) [
    | inl f ↦ inr (bytes "Icecast configuration isn't a mapping.", ground arith)
    | inr (m, f) ↦ inl (fill_options yaml m [], ground arith)
  ]
]

read-Keeps :
    {lib : LibShout} (client : ℕ)
    → Keeps lib (modify (λ w. record w { readers = w.readers ++ client ∷ [] }))
read-Keeps client = record { apply = λ w s. same-IsSound w _ s refl refl refl s.capped }

module _ (lib : LibShout) (yaml : Yaml) where
  stored-Keeps :
      (o : Option Str) (id : ℕ)
      → Keeps lib (elim o [
        | none ↦ skip
        | some meta ↦ send_meta (record { payload = meta; id = id; seen = false })
      ])
  stored-Keeps none id = skip-Preserves
  stored-Keeps (some meta) id = send_meta-Keeps _

  options-Keeps :
      (m id : ℕ) (name : Str)
      → Keeps lib {A = Option Str} (do
        format ← gets (λ w. format_of (w.ids id).audio_format)
        first ← gets (λ w. w.mount_first m)
        at_mount m (on_shout (apply_options lib (mount_options first name format)))
        return none)
  options-Keeps m id name =
      search (keeping, on_shout-IsMildly, apply_options-IsPlainly, return-Preserves) depth 14

  finish_mount-Keeps : (m id : ℕ) (name : Str) → Keeps lib (finish_mount lib yaml m name id)
  unfolding finish_mount
  finish_mount-Keeps m id name =
      bind-Preserves _ _ (gets-Preserves (λ w. lookup (hash (w.ids id)) w.manager.meta_store))
        λ o. bind-Preserves _ _ (stored-Keeps o id) λ _. options-Keeps m id name

  placed-IsEntry :
      (options : List (Str × Str)) (client : ℕ) (w : World) (name : Str) (m : ℕ)
      → mount_name w client ≡ name
      → w.next_mount ≡ m
      → IsEntry (placed lib options client w) name m
  placed-IsEntry options client w name m e f = record {
    named = rw (sym f, update_self) e;
    live = rw (sym f, update_self) (λ h. cc);
    allocated = omega arith;
    usable = rw (sym f, update_self) (new_shout-is_freed lib options);
  }

  kept-IsEntry :
      (options : List (Str × Str)) (client : ℕ) (w : World) (name : Str) (m : ℕ)
      → IsEntry w name m
      → IsEntry (placed lib options client w) name m
  kept-IsEntry options client w name m old =
      let same =
        update_ne w.next_mount m (live_mount lib options client w) w.mount_at
          (λ e. omega (arith, old.allocated, e)) in
      record {
        named = rw same old.named;
        live = rw same old.live;
        allocated = omega (arith, old.allocated);
        usable = rw same old.usable;
      }

  -- The address of the new mount is that of no other, and its name is the client's.
  placed-IsSound :
      (options : List (Str × Str)) (client : ℕ) (w : World)
      → IsSound lib w
      → IsSound lib (placed lib options client w)
  placed-IsSound options client w s = record {
    capped = s.capped;
    guarded = λ j.
        update_cases (λ r. IsGuarded lib r.shout.calls) w.next_mount j
          (live_mount lib options client w) w.mount_at (λ same. new_shout-IsGuarded lib options)
          (s.guarded j);
    queued = λ j.
        update_cases (λ r. length r.client_queue ≤ queue_limit) w.next_mount j
          (live_mount lib options client w) w.mount_at (λ same. omega arith) (s.queued j);
    unique = insert-HasUniqueKeys (mount_name w client) w.next_mount w.manager.mounts s.unique;
    entries = λ name m found.
        let hit = lookup-insert (mount_name w client) name w.next_mount w.manager.mounts in
        elim (Bool-cases (str_eq (mount_name w client) name)) [
          | inl e ↦
              placed-IsEntry options client w name m
                (ground (arith, str_eq_iff (mount_name w client) name)) (ground arith)
          | inr e ↦ kept-IsEntry options client w name m (s.entries name m (ground arith))
        ];
  }

  open_mount-IsSound :
      (client : ℕ) (w : World)
      → IsSound lib w
      → IsSound lib (state_of (open_mount lib yaml (mount_name w client) client w))
  unfolding open_mount new_mount
  open_mount-IsSound client w s = elim (config-cases yaml w) [
    | inl (options, e) ↦
        of_outcome (IsSound lib)
          (>>=-done (new_mount lib yaml (mount_name w client))
              (λ t. place_mount lib yaml t (mount_name w client) client)
              (new_mount_lem lib yaml (mount_name w client) options w e)
            ∙ place_mount_lem lib options client w yaml)
          ((finish_mount-Keeps w.next_mount (id_of w client) (mount_name w client)).apply
            (placed lib options client w) (placed-IsSound options client w s))
    | inr (reason, e) ↦
        of_outcome (IsSound lib) {o = open_mount lib yaml (mount_name w client) client w}
          {o' = panicked reason w} (ground arith) s
  ]

  join_mount-Keeps : (m client : ℕ) → Keeps lib (join_mount lib yaml m client)
  join_mount-Keeps m client = record {
    apply = λ w s. elim (Bool-cases (ltb (length (w.mount_at m).client_queue) queue_limit)) [
      | inl room ↦ rw (join_mount-room lib yaml m client w (ground arith)) (
          put-IsSound m (with_joined m client w) w
            (record {
              same_name = refl;
              still_guarded = λ g. g;
              still_live = λ h. h;
              still_queued = λ h.
                  ground (arith, length-append (w.mount_at m).client_queue (id_of w client ∷ []));
              still_usable = λ f. f;
            })
            s)
      | inr full ↦ rw (join_mount-full lib yaml m client w (ground arith)) (
          put-IsSound m (with_listed m client w) w
            (record {
              same_name = refl;
              still_guarded = λ g. g;
              still_live = λ h. h;
              still_queued = λ h. h;
              still_usable = λ f. f;
            })
            s)
    ];
  }

  add_client-Keeps : (client : ℕ) → Keeps lib (add_client lib yaml client)
  unfolding add_client add_body
  add_client-Keeps client = record {
    apply = λ w s. by_mount w s (lookup (mount_name w client) w.manager.mounts) refl;
  }
    where
      by_mount :
          (w : World)
          → IsSound lib w
          → (o : Option ℕ) → lookup (mount_name w client) w.manager.mounts ≡ o
          → IsSound lib (state_of (add_client lib yaml client w))
      by_mount w s none e =
          of_outcome (IsSound lib) {o = add_client lib yaml client w}
            {o' = recover (some full_queue) (open_mount lib yaml (mount_name w client) client) w}
            (ground arith)
            (of_recover (IsSound lib) (some full_queue)
              (open_mount lib yaml (mount_name w client) client w) (open_mount-IsSound client w s)
              w)
      by_mount w s (some m) e =
          of_outcome (IsSound lib) {o = add_client lib yaml client w}
            {o' = recover (some full_queue) (join_mount lib yaml m client) w} (ground arith)
            (of_recover (IsSound lib) (some full_queue) (join_mount lib yaml m client w)
              ((join_mount-Keeps m client).apply w s) w)

  -- After AddClient the client is removed again, or its handler is called and it is read from.
  served-Keeps :
      (client : ℕ) (err : Option Str)
      → Keeps lib (elim err [
        | some text ↦ remove_client client
        | none ↦ do
          name ← gets (λ w. mount_name w client)
          on_handlers (handle_client_connect name client)
          modify (λ w. record w { readers = w.readers ++ client ∷ [] })
      ])
  served-Keeps client (some text) = remove_client-Keeps client
  served-Keeps client none = search (keeping, read-Keeps) depth 8

  pub on_client-Keeps : (client : ℕ) → Keeps lib (on_client lib yaml client)
  unfolding on_client
  on_client-Keeps client = bind-Preserves _ _ (add_client-Keeps client) (served-Keeps client)
