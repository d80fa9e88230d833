-- ===== src/Http/Permissions/Laws.antt =====
-- mainHandler keeps to the permission of the sender.
use icecast_proxy_go.Prelude.{
  ℕ, subst, ◌≡◌, ◌≤◌, refl, sym, Bool, true, false, none, bytes, str_eq, inl, inr, ◌⊎◌,
  if◌then◌else◌, text_eq, Go, Outcome, state_of,
}
use icecast_proxy_go.Client.{
  Permission, perm_none, perm_meta, perm_source, perm_admin, rank, ClientId, Request,
}
use icecast_proxy_go.Auth.{
  Accounts, Exchange, put_id, authentication_error, new_client_id_from_request, login,
  make_auth_handler,
}
use icecast_proxy_go.Auth.Laws.{make_auth_handler-guards}
use icecast_proxy_go.Http.Admin.{admin_handler}
use icecast_proxy_go.Http.Text.{slice_prefix}
use icecast_proxy_go.Http.{
  Services, metadata_handler, listclients_handler, source_handler, get_handler, main_handler,
}
use icecast_proxy_go.Http.Permissions.{Touches, IsTouching, bind-IsTouching, put_id-IsTouching}
use icecast_proxy_go.Http.Permissions.Steps.{
  admin_handler-IsTouching, authentication_error-IsTouching, listclients_handler-IsTouching,
  metadata_handler-IsTouching, source_handler-IsTouching,
}

-- The request logs in with at least the permission.
abbrev pub IsPermitted : Accounts → Bool → Permission → Request → Type 0
IsPermitted acc authentication perm r =
    (user : ClientId) × (login acc authentication (new_client_id_from_request r) ≡ (none, user))
    × (rank perm ≤ rank user.perm)

-- What a request changes is within the permission of its sender.
abbrev pub IsWithin : Accounts → Bool → Request → Exchange → Outcome Exchange (Unit {0}) → Type 0
IsWithin acc authentication r x o =
    Touches perm_none x.world (state_of o).world
    ⊎ ((perm : Permission) × IsPermitted acc authentication perm r
        × Touches perm x.world (state_of o).world)

module _ (services : Services) (acc : Accounts) (authentication : Bool) (r : Request)
    (x : Exchange) where
  make_auth_handler-IsWithin :
      (fn : Request → ℕ → Go Exchange (Unit {0})) (perm : Permission)
      → ((id : ℕ) → IsTouching perm (fn r id))
      → IsWithin acc authentication r x (make_auth_handler acc authentication fn perm r x)
  make_auth_handler-IsWithin fn perm h =
      elim (make_auth_handler-guards acc authentication fn perm r x) [
        | inl (user, logged_in, high, e) ↦ inr (
          perm,
          (user, logged_in, high),
          subst (λ (o : Outcome Exchange (Unit {0})). Touches perm x.world (state_of o).world)
              (sym e)
              ((bind-IsTouching _ _ (put_id-IsTouching x.next_id user) (λ _. h x.next_id)).apply x),
        )
        | inr (user, err, e) ↦ inl (
            subst
              (λ (o : Outcome Exchange (Unit {0})). Touches perm_none x.world (state_of o).world)
              (sym e)
              ((bind-IsTouching (put_id x.next_id user) (λ _. authentication_error err)
                  (put_id-IsTouching x.next_id user)
                  (λ _. authentication_error-IsTouching err)).apply
                x))
      ]

  if-IsWithin :
      (c : Bool) (k l : Go Exchange (Unit {0}))
      → IsWithin acc authentication r x (k x)
      → IsWithin acc authentication r x (l x)
      → IsWithin acc authentication r x ((if c then k else l) x)
  if-IsWithin true k l hk hl = hk
  if-IsWithin false k l hk hl = hl

  get_handler-IsWithin :
      IsWithin acc authentication r x (get_handler services acc authentication r x)
  unfolding get_handler
  get_handler-IsWithin =
      if-IsWithin (str_eq r.path (bytes "/admin/metadata")) _ _
        (make_auth_handler-IsWithin (metadata_handler services) perm_meta
          (metadata_handler-IsTouching services r))
        (if-IsWithin (str_eq r.path (bytes "/admin/listclients")) _ _
          (make_auth_handler-IsWithin listclients_handler perm_source
            (listclients_handler-IsTouching r))
          (if-IsWithin (slice_prefix (bytes "/admin") r.path) _ _
            (make_auth_handler-IsWithin admin_handler perm_admin (admin_handler-IsTouching r))
            (inl refl)))

  -- Whatever a request asks for and however its handling ends: either nothing of the server has
  -- changed but the identifiers of requests, or the request logs in and has at least some
  -- permission, and nothing has changed but what that permission is for. That is the channel of
  -- metadata for PERM_META, the clients that come in for PERM_SOURCE, and the connections that are
  -- closed and the lock of the table for PERM_ADMIN.
  pub main_handler-IsWithin :
      IsWithin acc authentication r x (main_handler services acc authentication r x)
  unfolding main_handler
  main_handler-IsWithin =
      if-IsWithin (str_eq r.method (bytes "SOURCE")) _ _
        (make_auth_handler-IsWithin (source_handler services) perm_source
          (source_handler-IsTouching services r))
        (if-IsWithin (str_eq r.method (bytes "GET")) _ _ get_handler-IsWithin (inl refl))
