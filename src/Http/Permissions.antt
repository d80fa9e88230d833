-- ===== src/Http/Permissions.antt =====
-- What a request may change of the server, by the permission of who sends it, and rules by which a
-- handler of server/http.go changes no more.
pub mod Steps
pub mod Laws
use icecast_proxy_go.Prelude.{
  ℕ, ℤ, pos, negsuc, subst, ◌≡◌, ◌≤◌, refl, sym, ap, ◌∙◌, Bool, true, false, List, [], ◌∷◌, ◌++◌,
  Option, none, some, Str, bytes, str_eq, inl, inr, ◌⊎◌, if◌then◌else◌, ltb, length, lookup,
  text_eq, arith, Go, Outcome, state_of, done, panicked, blocked, ◌>>=◌, ◌>>◌, skip, panic, gets,
  modify, get_elem?, update, ◌+◌,
}
use icecast_proxy_go.Client.{
  Permission, perm_none, perm_meta, perm_source, perm_admin, rank, ClientId, LoginStatus, Request,
  new_client,
}
use icecast_proxy_go.World.{
  MetaPack, World, on_handlers, on_manager, send_meta, close_conn, meta_cap, receiver_cap,
}
use icecast_proxy_go.Handlers.{lock, unlock}
use icecast_proxy_go.Shout.Options.{atoi}
use icecast_proxy_go.Auth.{
  Accounts, Exchange, Reply, reply, write_header, write, put_id, authentication_error,
  new_client_id_from_request, login, make_auth_handler,
}
use icecast_proxy_go.Http.Admin.{on_world, admin_page, kick_at, kick_from, kick, admin_handler}
use icecast_proxy_go.Http.Text.{slice_prefix}
use icecast_proxy_go.Http.{
  Services, send_receiver, receive, sized, flushes, http_error, not_found, send_parsed,
  metadata_for, parse_metadata, metadata_handler, listclients_handler, source_handler, get_handler,
  main_handler,
}

-- From `w` to `w'` nothing is changed but the identifiers of requests and what the permission is
-- for: the channel of metadata, the clients that come in, or the connections and the lock.
abbrev pub Touches : Permission → World → World → Type 0
Touches perm_none w w' = record w' { ids = w.ids } ≡ w
Touches perm_meta w w' =
    record w' { ids = w.ids; manager = record (w'.manager) { meta_chan = w.manager.meta_chan } } ≡ w
Touches perm_source w w' =
    record w' {
      ids = w.ids;
      clients = w.clients;
      manager = record (w'.manager) { receiver = w.manager.receiver };
    }
    ≡ w
Touches perm_admin w w' =
    record w' {
      ids = w.ids;
      closed = w.closed;
      handlers = record (w'.handlers) { locked = w.handlers.locked };
    }
    ≡ w

-- Whatever comes of it, the computation changes no more.
pub record IsTouching (perm : Permission) {A : Type 0} (k : Go Exchange A) : Type 0 where
  pub apply : (x : Exchange) → Touches perm x.world (state_of (k x)).world

pub Touches-self : (perm : Permission) (w : World) → Touches perm w w
Touches-self perm_none w = refl
Touches-self perm_meta w = refl
Touches-self perm_source w = refl
Touches-self perm_admin w = refl

pub Touches-trans :
    (perm : Permission) (u v w : World) → Touches perm u v → Touches perm v w → Touches perm u w
Touches-trans perm_none u v w h k = ap (λ (t : World). record t { ids = u.ids }) k ∙ h
Touches-trans perm_meta u v w h k =
    ap
      (λ (t : World). record t {
        ids = u.ids;
        manager = record (t.manager) { meta_chan = u.manager.meta_chan };
      })
      k
    ∙ h
Touches-trans perm_source u v w h k =
    ap
      (λ (t : World). record t {
        ids = u.ids;
        clients = u.clients;
        manager = record (t.manager) { receiver = u.manager.receiver };
      })
      k
    ∙ h
Touches-trans perm_admin u v w h k =
    ap
      (λ (t : World). record t {
        ids = u.ids;
        closed = u.closed;
        handlers = record (t.handlers) { locked = u.handlers.locked };
      })
      k
    ∙ h

pub Touches-ids :
    (perm : Permission) (w : World) (ids : ℕ → ClientId) → Touches perm w (record w { ids = ids })
Touches-ids perm_none w ids = refl
Touches-ids perm_meta w ids = refl
Touches-ids perm_source w ids = refl
Touches-ids perm_admin w ids = refl

module _ {perm : Permission} where
  pub bind-IsTouching :
      {A B : Type 0} (k : Go Exchange A) (f : A → Go Exchange B)
      → IsTouching perm k
      → ((a : A) → IsTouching perm (f a))
      → IsTouching perm (k >>= f)
  bind-IsTouching {A} {B} k f hk hf = record { apply = λ x. by_outcome x (k x) (hk.apply x) }
    where
      by_outcome :
          (x : Exchange) (o : Outcome Exchange A)
          → Touches perm x.world (state_of o).world
          → Touches perm x.world (state_of (((λ _. o) >>= f) x)).world
      by_outcome x (done a y) h = Touches-trans perm x.world y.world _ h ((hf a).apply y)
      by_outcome x (panicked e y) h = h
      by_outcome x (blocked y) h = h

  pub if-IsTouching :
      {A : Type 0} (c : Bool) (k l : Go Exchange A)
      → IsTouching perm k
      → IsTouching perm l
      → IsTouching perm (if c then k else l)
  if-IsTouching true k l hk hl = hk
  if-IsTouching false k l hk hl = hl

  pub reply-IsTouching : (rs : List Reply) → IsTouching perm (reply rs)
  reply-IsTouching rs = record { apply = λ x. Touches-self perm x.world }

  pub skip-IsTouching : IsTouching perm skip
  skip-IsTouching = record { apply = λ x. Touches-self perm x.world }

  pub put_id-IsTouching : (id : ℕ) (c : ClientId) → IsTouching perm (put_id id c)
  put_id-IsTouching id c = record {
    apply = λ x. Touches-ids perm x.world (update id c x.world.ids);
  }

  pub gets-IsTouching : {A : Type 0} (f : Exchange → A) → IsTouching perm (gets f)
  gets-IsTouching f = record { apply = λ x. Touches-self perm x.world }

  pub on_world-IsTouching :
      {A : Type 0} (m : Go World A)
      → ((w : World) → Touches perm w (state_of (m w)))
      → IsTouching perm (on_world m)
  on_world-IsTouching {A} m h = record { apply = λ x. by_outcome x (m x.world) (h x.world) }
    where
      by_outcome :
          (x : Exchange) (o : Outcome World A)
          → Touches perm x.world (state_of o)
          → Touches perm x.world (state_of (on_world (λ _. o) x)).world
      by_outcome x (done a w) t = t
      by_outcome x (panicked e w) t = t
      by_outcome x (blocked w) t = t
