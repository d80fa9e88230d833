-- ===== src/Http/Admin/Laws.antt =====
-- Kicking a client from the admin page.
use icecast_proxy_go.Prelude.{
  ℕ, pos, zero, suc, ◌≤◌, ◌<◌, ◌^◌, ◌≡◌, refl, ap, ◌∙◌, true, false, List, [], ◌∷◌, ◌++◌, none,
  some, Str, bytes, str_eq, lookup, text_eq, get_elem?, length, arith, Go, done, panicked, blocked,
  ◌>>=◌, ◌>>◌, update,
}
use icecast_proxy_go.Client.{Request}
use icecast_proxy_go.Handlers.{unlock, handle_client_connect}
use icecast_proxy_go.Handlers.Laws.{handle_client_connect-blocked}
use icecast_proxy_go.Shout.Options.{atoi}
use icecast_proxy_go.World.{on_handlers}
use icecast_proxy_go.Auth.{Exchange, set_header, write_header}
use icecast_proxy_go.Http.Text.{itoa, atoi-itoa}
use icecast_proxy_go.Http.Admin.{admin_handler, kick, on_world}

abbrev pub IsKick : Request → Exchange → List ℕ → Type 0
IsKick r x clients =
    (r.path ≡ bytes "/admin/kick")
    × (x.world.handlers.locked ≡ false)
    × (lookup (r.query (bytes "mount")) x.world.handlers.handler_mounts ≡ some clients)

kick_path :
    (path : Str)
    → path ≡ bytes "/admin/kick"
    → (str_eq path (bytes "/admin") ≡ false) × (str_eq path (bytes "/admin/kick") ≡ true)
unfolding str_eq
kick_path path e =
    (ap (λ p. str_eq p (bytes "/admin")) e, ap (λ p. str_eq p (bytes "/admin/kick")) e)

get_elem?-beyond : {A : Type 0} (xs : List A) (n : ℕ) → length xs ≤ n → get_elem? xs n ≡ none
get_elem?-beyond [] n h = refl
get_elem?-beyond (x ∷ xs) zero h = absurd (omega arith)
get_elem?-beyond (x ∷ xs) (suc n) h = get_elem?-beyond xs n (omega arith)

kick-beyond :
    (r : Request) (n : ℕ) (clients : List ℕ) (x : Exchange)
    → lookup (r.query (bytes "mount")) x.world.handlers.handler_mounts ≡ some clients
    → atoi (r.query (bytes "num")) ≡ some (pos n)
    → get_elem? clients n ≡ none
    → kick r x ≡ panicked (bytes "index out of range") x
unfolding kick
kick-beyond r n clients x found number beyond = ground (arith, found, number, beyond)

-- A kick with the number that the admin page prints for a listed client, its index in decimal,
-- which is below 2^63, closes that client's connection and redirects, if the lock is free; nothing
-- else of the server changes, and the lock is free again.
pub admin_handler-kicks :
    (r : Request) (id n client : ℕ) (clients : List ℕ) (x : Exchange)
    → IsKick r x clients
    → r.query (bytes "num") ≡ itoa n
    → n < 2 ^ 63
    → get_elem? clients n ≡ some client
    → admin_handler r id x
      ≡ done tt (record x {
        replies =
            x.replies ++ set_header (bytes "Location") (bytes "/admin") ∷ write_header 301 ∷ [];
        world = record (x.world) {
          closed = update (x.world.clients client).conn true x.world.closed;
        };
      })
unfolding admin_handler kick
admin_handler-kicks r id n client clients x (path, free, found) number small listed =
    let (other, is) = kick_path r.path path in
    let read : atoi (r.query (bytes "num")) ≡ some (pos n) = ap atoi number ∙ atoi-itoa n small in
    ground (arith, other, is, free, found, read, listed)

panicked_bind :
    (k l : Go Exchange (Unit {0})) (e : Str) (x : Exchange)
    → k x ≡ panicked e x
    → (k >> l) x ≡ panicked e x
panicked_bind k l e x h = rw (h, ◌>>◌, ◌>>=◌)

-- A kick with a number that no client of a listed mount has panics under the lock, which is never
-- released: the next client that connects, to any mount, waits for ever.
pub admin_handler-deadlocks :
    (r : Request) (id n next : ℕ) (clients : List ℕ) (mount : Str) (x : Exchange)
    → IsKick r x clients
    → atoi (r.query (bytes "num")) ≡ some (pos n)
    → length clients ≤ n
    → (x' : Exchange) × (admin_handler r id x ≡ panicked (bytes "index out of range") x')
      × (handle_client_connect mount next x'.world.handlers ≡ blocked x'.world.handlers)
unfolding admin_handler
admin_handler-deadlocks r id n next clients mount x (path, free, found) number beyond =
    let (other, is) = kick_path r.path path in
    let none_there = get_elem?-beyond clients n beyond in
    let held : Exchange = record x {
      world = record (x.world) { handlers = record (x.world.handlers) { locked = true } };
    } in
    (
      held,
      rw (free, other, is)
          (panicked_bind (kick r) (on_world (on_handlers unlock)) (bytes "index out of range") held
            (kick-beyond r n clients held found number none_there)),
      handle_client_connect-blocked mount next held.world.handlers refl,
    )
