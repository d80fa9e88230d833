-- ===== src/Loop/Ends/Adds.antt =====
-- What AddClient waits for, and the case of a new client.
use icecast_proxy_go.Prelude.{
  ℕ, ◌≡◌, sym, subst, ◌∙◌, false, List, [], ◌∷◌, ◌++◌, Option, none, some, Str, arith, Bool-cases,
  Option-cases, inl, inr, length, ltb, lookup, text_eq, nat_eq, Outcome, done, panicked, blocked,
  ◌>>=◌, ◌>>◌, >>=-done, skip, gets, modify, return, recover,
}
use icecast_proxy_go.ClientHash.{hash}
use icecast_proxy_go.Config.{Yaml, queue_limit}
use icecast_proxy_go.Handlers.{handle_client_connect}
use icecast_proxy_go.Mount.{on_shout, new_mount, full_queue}
use icecast_proxy_go.Shout.{LibShout}
use icecast_proxy_go.Shout.Options.{apply_options}
use icecast_proxy_go.World.{World, at_mount, on_handlers, send_meta, id_of, mount_name}
use icecast_proxy_go.Manager.Add.{
  format_of, mount_options, finish_mount, place_mount, open_mount, join_mount, add_body, add_client,
}
use icecast_proxy_go.Manager.Add.Laws.{join_mount-room, join_mount-full}
use icecast_proxy_go.Manager.Add.Opens.{apply_options-done, place_mount_lem, new_mount_lem, placed}
use icecast_proxy_go.Manager.Remove.{remove_client}
use icecast_proxy_go.Manager.Serve.{on_client}
use icecast_proxy_go.Manager.Sound.Added.{config-cases}
use icecast_proxy_go.Loop.Ends.{IsStuck, WaitsIn, NeverWaits, Reasoned}
use icecast_proxy_go.Loop.Ends.Waits.{
  bind-WaitsOnly, skip-WaitsOnly, return-WaitsOnly, gets-WaitsOnly, on_shout-WaitsOnly,
  at_mount-WaitsOnly, send_meta-Reasoned, reasons,
}
use icecast_proxy_go.Loop.Ends.Removes.{remove_client-Reasoned}

of_outcome : {A : Type 0} {o o' : Outcome World A} → o ≡ o' → WaitsIn IsStuck o' → WaitsIn IsStuck o
of_outcome e h = subst (WaitsIn IsStuck) (sym e) h

module _ (lib : LibShout) (yaml : Yaml) where
  apply_options-NeverWaits : (options : List (Str × Str)) → NeverWaits (apply_options lib options)
  apply_options-NeverWaits options = record {
    apply = λ s. subst (WaitsIn (λ s. ⊥)) (sym (apply_options-done lib options s)) tt;
  }

  stored-Reasoned :
      (o : Option Str) (id : ℕ)
      → Reasoned (elim o [
        | none ↦ skip
        | some meta ↦ send_meta (record { payload = meta; id = id; seen = false })
      ])
  stored-Reasoned none id = skip-WaitsOnly
  stored-Reasoned (some meta) id = send_meta-Reasoned _

  options-Reasoned :
      (m id : ℕ) (name : Str)
      → Reasoned {A = Option Str} (do
        format ← gets (λ w. format_of (w.ids id).audio_format)
        first ← gets (λ w. w.mount_first m)
        at_mount m (on_shout (apply_options lib (mount_options first name format)))
        return none)
  options-Reasoned m id name =
      search
        (
          reasons, at_mount-WaitsOnly, on_shout-WaitsOnly, apply_options-NeverWaits,
          return-WaitsOnly,
        )
        depth 14

  finish_mount-Reasoned : (m id : ℕ) (name : Str) → Reasoned (finish_mount lib yaml m name id)
  unfolding finish_mount
  finish_mount-Reasoned m id name =
      bind-WaitsOnly _ _ (gets-WaitsOnly (λ w. lookup (hash (w.ids id)) w.manager.meta_store))
        λ o. bind-WaitsOnly _ _ (stored-Reasoned o id) λ _. options-Reasoned m id name

  open_mount-IsReasoned :
      (client : ℕ) (w : World)
      → WaitsIn IsStuck (open_mount lib yaml (mount_name w client) client w)
  unfolding open_mount new_mount
  open_mount-IsReasoned client w = elim (config-cases yaml w) [
    | inl (options, e) ↦
        of_outcome
          (>>=-done (new_mount lib yaml (mount_name w client))
              (λ t. place_mount lib yaml t (mount_name w client) client)
              (new_mount_lem lib yaml (mount_name w client) options w e)
            ∙ place_mount_lem lib options client w yaml)
          ((finish_mount-Reasoned w.next_mount (id_of w client) (mount_name w client)).apply
            (placed lib options client w))
    | inr (reason, e) ↦
        of_outcome {o = open_mount lib yaml (mount_name w client) client w} {o' = panicked reason w}
          (ground arith) tt
  ]

  -- The queue has room where the client is put into it.
  join_mount-IsReasoned :
      (m client : ℕ) (w : World) → WaitsIn IsStuck (join_mount lib yaml m client w)
  join_mount-IsReasoned m client w =
      elim (Bool-cases (ltb (length (w.mount_at m).client_queue) queue_limit)) [
        | inl room ↦ of_outcome (join_mount-room lib yaml m client w (ground arith)) tt
        | inr full ↦ of_outcome (join_mount-full lib yaml m client w (ground arith)) tt
      ]

  recover-IsReasoned :
      (o : Outcome World (Option Str))
      → WaitsIn IsStuck o
      → (w : World) → WaitsIn IsStuck (recover (some full_queue) (λ _. o) w)
  recover-IsReasoned (done a t) h w = tt
  recover-IsReasoned (panicked e t) h w = tt
  recover-IsReasoned (blocked t) h w = h

  add_client-Reasoned : (client : ℕ) → Reasoned (add_client lib yaml client)
  unfolding add_client add_body
  add_client-Reasoned client = record {
    apply = λ w. elim (Option-cases (lookup (mount_name w client) w.manager.mounts)) [
      | inl e ↦
          of_outcome {o = add_client lib yaml client w}
            {o' = recover (some full_queue) (open_mount lib yaml (mount_name w client) client) w}
            (ground arith)
            (recover-IsReasoned (open_mount lib yaml (mount_name w client) client w)
              (open_mount-IsReasoned client w) w)
      | inr (m, e) ↦
          of_outcome {o = add_client lib yaml client w}
            {o' = recover (some full_queue) (join_mount lib yaml m client) w} (ground arith)
            (recover-IsReasoned (join_mount lib yaml m client w) (join_mount-IsReasoned m client w)
              w)
    ];
  }

  served-Reasoned :
      (client : ℕ) (err : Option Str)
      → Reasoned (elim err [
        | some text ↦ remove_client client
        | none ↦ do
          name ← gets (λ w. mount_name w client)
          on_handlers (handle_client_connect name client)
          modify (λ w. record w { readers = w.readers ++ client ∷ [] })
      ])
  served-Reasoned client (some text) = remove_client-Reasoned client
  served-Reasoned client none = search reasons depth 8

  pub on_client-Reasoned : (client : ℕ) → Reasoned (on_client lib yaml client)
  unfolding on_client
  on_client-Reasoned client =
      bind-WaitsOnly _ _ (add_client-Reasoned client) (served-Reasoned client)
