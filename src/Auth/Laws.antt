-- ===== src/Auth/Laws.antt =====
-- Who gets past the login.
use icecast_proxy_go.Prelude.{
  ℕ, ℤ, ◌≡◌, ◌≤◌, refl, ap, ◌∙◌, Bool, true, ◌&&◌, [], ◌∷◌, ◌++◌, Option, none, some, Str, bytes,
  str_eq, str_eq_self, ltb, inl, inr, ◌⊎◌, Go, ◌>>◌, update-update, All, arith, Bool-cases,
  Option-cases,
}
use icecast_proxy_go.Text.{split_n, contains, to_lower}
use icecast_proxy_go.Text.Laws.{IsFree, split_n-two}
use icecast_proxy_go.Base64.Laws.{encode, IsByte, decode-encode}
use icecast_proxy_go.Client.{LoginStatus, Permission, rank, new_permission, ClientId, Request}
use icecast_proxy_go.Auth.{
  Accounts, Exchange, basic_of, parse_digest, new_client_id_from_request, named_source, fetch_user,
  login_client, login, authentication_error, put_id, authorize, make_auth_handler,
}

-- A request that carries the base64 encoding of "user:password" as Basic credentials is read back
-- as these two, if they are bytes and the user's name holds no colon.
pub parse_digest-encode :
    (r : Request) (user pass : Str)
    → r.header (bytes "Authorization") ≡ bytes "Basic " ++ encode (user ++ (b':' ∷ pass))
    → IsFree b':' user
    → All IsByte (user ++ (b':' ∷ pass))
    → parse_digest r ≡ (user, pass)
unfolding parse_digest
parse_digest-encode r user pass header free are_bytes =
    let whole = user ++ (b':' ∷ pass) in
    ap (λ h. basic_of (split_n b' ' 2 h)) header
    ∙ ap basic_of (split_n-two b' ' (bytes "Basic") (encode whole) (ground arith))
    ∙ rw (
      decode-encode whole are_bytes,
      split_n-two b':' user pass free,
      str_eq_self (bytes "Basic"),
    )

pair_none : (o : Option LoginStatus × ClientId) → o.0 ≡ none → o ≡ (none, o.1)
pair_none (e, c) h = ap (λ d. (d, c)) h

contains-append : (sep : ℕ) (a b : Str) → contains sep (a ++ (sep ∷ b)) ≡ true
unfolding contains
contains-append sep [] b = ground arith
contains-append sep (c ∷ a) b = ground (arith, contains-append sep a b)

module _ (acc : Accounts) where
  login_client_sound :
      (c c' : ClientId)
      → login_client acc c ≡ (none, c')
      → (hash : Str) × (perm : ℤ) × (acc.row (to_lower c.name) ≡ some (hash, perm))
        × (acc.matches hash c.pass ≡ true)
        × (c'.perm ≡ new_permission perm)
  unfolding login_client fetch_user
  login_client_sound c c' e = elim (Bool-cases acc.begins) [
    | inr down ↦ absurd (ground (arith, e, down))
    | inl up ↦ elim (Option-cases (acc.row (to_lower c.name))) [
      | inl missing ↦ absurd (ground (arith, e, up, missing))
      | inr ((hash, perm), found) ↦
          (hash, perm, found, ground (arith, e, up, found), ground (arith, e, up, found))
    ]
  ]

  -- With authentication on, a login that succeeds did so with a password that matches the hash in
  -- the row of the lowered name, and gives the permission that the row's number stands for.
  pub login_sound :
      (c c' : ClientId)
      → login acc true c ≡ (none, c')
      → (hash : Str) × (perm : ℤ) × (acc.row (to_lower (named_source c).name) ≡ some (hash, perm))
        × (acc.matches hash (named_source c).pass ≡ true)
        × (c'.perm ≡ new_permission perm)
  unfolding login
  login_sound c c' e = login_client_sound (named_source c) c' e

  -- With authentication on, a client named "source" whose password is a name without a bar, a bar
  -- and a password is logged in as that name with that password.
  pub login-source :
      (c : ClientId) (name pass : Str)
      → c.name ≡ bytes "source"
      → c.pass ≡ name ++ (b'|' ∷ pass)
      → IsFree b'|' name
      → login acc true c ≡ login_client acc (record c { name = name; pass = pass })
  unfolding login named_source
  login-source c name pass n p free = ap (login_client acc) (
      ground (
        arith,
        n,
        str_eq_self (bytes "source"),
        ap (contains b'|') p ∙ contains-append b'|' name pass,
        ap (split_n b'|' 2) p ∙ split_n-two b'|' name pass free,
      ))

module _ (acc : Accounts) (authentication : Bool) (fn : Request → ℕ → Go Exchange (Unit {0})) where
  authorize-cases :
      (perm : Permission) (r : Request) (id : ℕ) (err : Option LoginStatus) (user : ClientId)
      → ((err ≡ none)
          × (rank perm ≤ rank user.perm)
          × (authorize acc authentication fn perm r id err user ≡ fn r id))
        ⊎ ((e : Option LoginStatus) × (authorize acc authentication fn perm r id err user
              ≡ authentication_error e))
  unfolding authorize
  authorize-cases perm r id (some e) user = inr (some e, refl)
  authorize-cases perm r id none user = elim (Bool-cases (ltb (rank user.perm) (rank perm))) [
    | inl low ↦ inr (none, rw low)
    | inr high ↦ inl (refl, ground arith, rw high)
  ]

  -- The handler behind makeAuthHandler runs only with a ClientID that Login returned without an
  -- error and whose permission is at least the one asked for; else the answer is a 401, and of the
  -- server nothing but the new ClientID is written.
  pub make_auth_handler-guards :
      (perm : Permission) (r : Request) (x : Exchange)
      → ((user : ClientId) × (login acc authentication (new_client_id_from_request r)
            ≡ (none, user))
          × (rank perm ≤ rank user.perm)
          × (make_auth_handler acc authentication fn perm r x
              ≡ (do put_id x.next_id user; fn r x.next_id) x))
        ⊎ ((user : ClientId) × (err : Option LoginStatus) × (make_auth_handler acc authentication fn
                perm r x
              ≡ (do put_id x.next_id user; authentication_error err) x))
  unfolding make_auth_handler
  make_auth_handler-guards perm r x =
      let fresh = new_client_id_from_request r in
      let result = login acc authentication fresh in
      elim (Bool-cases (str_eq fresh.pass [] && str_eq fresh.name [])) [
        | inl anonymous ↦ inr (fresh, none, rw anonymous)
        | inr named ↦ elim (authorize-cases perm r x.next_id result.0 result.1) [
          | inl (fine, high, e) ↦ inl (
            result.1,
            pair_none result fine,
            high,
            rw (named, e, update-update x.next_id fresh result.1 x.world.ids),
          )
          | inr (err, e) ↦
              inr (result.1, err, rw (named, e, update-update x.next_id fresh result.1 x.world.ids))
        ]
      ]
