-- ===== src/Start/Laws.antt =====
-- What has to be in order for the program to listen.
use icecast_proxy_go.Prelude.{
  ◌≡◌, refl, sym, ap, subst, ◌∙◌, Bool, true, false, [], ◌∷◌, Option, none, some, Str, ◌⊎◌, inl,
  inr, arith, bytes, Option-cases, >>=-eq-done, done_injective, return, Go, Outcome, done, ◌>>=◌,
  skip, panic,
}
use icecast_proxy_go.Config.{
  Flags, Yaml, default_flags, init_config, server_address, create_database_dsn, get_string,
}
use icecast_proxy_go.World.{World}
use icecast_proxy_go.Auth.{Accounts, init_auth}
use icecast_proxy_go.Http.{Services, main_handler}
use icecast_proxy_go.Start.{HttpServer, open_profile, initialize, main}

-- The reads of the configuration change no state.
server_address-state :
    {S : Type 0} (yaml : Yaml) (s t : S) (address : Str)
    → server_address yaml s ≡ done address t
    → t ≡ s
unfolding server_address
server_address-state yaml s t address e =
    elim (Option-cases (yaml.child yaml.root (bytes "server"))) [
      | inl missing ↦ absurd (ground (arith, missing))
      | inr (node, found) ↦ elim (Option-cases (yaml.as_map node)) [
        | inl scalar ↦ ground (arith, found, scalar)
        | inr (m, mapping) ↦ ground (arith, found, mapping)
      ]
    ]

create_database_dsn-state :
    {S : Type 0} (yaml : Yaml) (s t : S) (dsn : Str)
    → create_database_dsn yaml s ≡ done dsn t
    → t ≡ s
unfolding create_database_dsn
create_database_dsn-state yaml s t dsn e =
    elim (Option-cases (yaml.child yaml.root (bytes "database"))) [
      | inl missing ↦ absurd (ground (arith, missing))
      | inr (node, found) ↦ elim (Option-cases (yaml.as_map node)) [
        | inl scalar ↦ ground (arith, found, scalar)
        | inr (m, mapping) ↦ elim (Option-cases (get_string yaml m (bytes "dbname"))) [
          | inl unnamed ↦ absurd (ground (arith, found, mapping, unnamed))
          | inr (name, named) ↦ ground (arith, found, mapping, named)
        ]
      ]
    ]

no_error :
    (opened prepared : Option Str) (w t : World)
    → (elim opened as (λ _. Go World (Unit {0})) [
      | some e ↦ panic e
      | none ↦ elim prepared as (λ _. Go World (Unit {0})) [ some e ↦ panic e | none ↦ skip ]
    ])
        w
      ≡ done tt t
    → (opened ≡ none) × (prepared ≡ none) × (t ≡ w)
no_error (some e) prepared w t h = absurd (ground arith)
no_error none (some e) w t h = absurd (ground arith)
no_error none none w t h = (refl, refl, ground arith)

module _ (acc : Accounts) where
  -- The database can be used: it was opened by the DSN of the configuration, and the statement that
  -- looks users up was prepared.
  abbrev pub IsConnected : Yaml → World → Type 0
  IsConnected yaml w =
      (dsn : Str) × (create_database_dsn yaml w ≡ done dsn w)
      × (acc.open_dsn dsn ≡ none)
      × (acc.prepare ≡ none)

  init_auth-done :
      (yaml : Yaml) (authentication : Bool) (w t : World)
      → init_auth acc authentication yaml w ≡ done tt t
      → (t ≡ w) × (authentication ≡ true → IsConnected yaml w)
  unfolding init_auth
  init_auth-done yaml false w t e = (ground arith, λ h. absurd (ground (arith, h)))
  init_auth-done yaml true w t e =
      let (dsn, u, made, opened) = >>=-eq-done (create_database_dsn yaml) _ w e in
      let same = create_database_dsn-state yaml w u dsn made in
      let (fine, ready, end) = no_error (acc.open_dsn dsn) acc.prepare u t opened in
      (end ∙ same, λ _. (dsn, made ∙ ap (done dsn) same, fine, ready))

open_profile-state :
    (create : Str → Option Str) (path : Str) (w t : World)
    → open_profile create path w ≡ done tt t
    → t ≡ w
open_profile-state create [] w t e = ground arith
open_profile-state create (c ∷ path) w t e = elim (Option-cases (create (c ∷ path))) [
  | inl fine ↦ ground (arith, fine)
  | inr (text, failed) ↦ absurd (ground (arith, failed))
]

init_config-done :
    (parse : Flags → Flags) (read : Str → Str ⊎ Yaml) (flags : Flags) (yaml : Yaml) (address : Str)
    (w t : World)
    → init_config parse read w ≡ done (flags, yaml, address) t
    → (flags ≡ parse default_flags)
      × (read (parse default_flags).config_file ≡ inr yaml)
      × (server_address yaml w ≡ done address w)
      × (t ≡ w)
unfolding init_config
init_config-done parse read flags yaml address w t e =
    by_file (read (parse default_flags).config_file) e
  where
    by_yaml :
        {u : World} (y : Yaml) (a : Str)
        → ◌≡◌ {A = Flags × Yaml × Str} (parse default_flags, y, a) (flags, yaml, address)
        → server_address y w ≡ done a u
        → u ≡ w
        → server_address yaml w ≡ done address w
    by_yaml y a result made same =
        ap (λ (r : Flags × Yaml × Str). server_address r.1 w) (sym result)
        ∙ made
        ∙ ap (done a) same
        ∙ ap (λ (r : Flags × Yaml × Str). let o : Outcome World Str = done r.2 w in o) result

    by_file :
        (o : Str ⊎ Yaml)
        → (elim o as (λ _. Go World (Flags × Yaml × Str)) [
          | inl text ↦ panic text
          | inr y ↦ do a ← server_address y; return (parse default_flags, y, a)
        ])
            w
          ≡ done (flags, yaml, address) t
        → (flags ≡ parse default_flags)
          × (o ≡ inr yaml)
          × (server_address yaml w ≡ done address w)
          × (t ≡ w)
    by_file (inl text) h = absurd (ground arith)
    by_file (inr y) h =
        let (a, u, made, rest) = >>=-eq-done (server_address y) _ w h in
        let same = server_address-state y w u a made in
        let (result, end) = done_injective rest in
        (
          ap (λ r. r.0) (sym result),
          ap inr (ap (λ r. r.1) result),
          by_yaml y a result made same,
          sym end ∙ same,
        )

module _ (acc : Accounts) (services : Services) where
  initialize-done :
      (authentication : Bool) (yaml : Yaml) (address : Str) (server : HttpServer) (w t : World)
      → initialize acc authentication yaml services address w ≡ done server t
      → (server.addr ≡ address)
        × (server.handler ≡ main_handler services acc authentication)
        × (authentication ≡ true → IsConnected acc yaml w)
        × (t ≡ w)
  unfolding initialize
  initialize-done authentication yaml address server w t e =
      let (z, u, opened, rest) = >>=-eq-done (init_auth acc authentication yaml) _ w e in
      let (same, connected) = init_auth-done acc yaml authentication w u opened in
      let (result, end) = done_injective rest in
      (ap (λ r. r.addr) (sym result), ap (λ r. r.handler) (sym result), connected, sym end ∙ same)

-- If the program comes to listen, then the file of the -c flag was read, and the server listens on
-- the address that this file gives, with mainHandler under the setting of the -auth flag. With
-- authentication on, the database was opened by the DSN of the file and the statement prepared.
-- Nothing of the server has changed.
pub main_ready :
    (acc : Accounts) (services : Services) (parse : Flags → Flags) (read : Str → Str ⊎ Yaml)
    (create : Str → Option Str) (w w' : World) (server : HttpServer)
    → main acc services parse read create w ≡ done server w'
    → (yaml : Yaml) × (read (parse default_flags).config_file ≡ inr yaml)
      × (server_address yaml w ≡ done server.addr w)
      × (server.handler ≡ main_handler services acc (parse default_flags).authentication)
      × ((parse default_flags).authentication ≡ true → IsConnected acc yaml w)
      × (w' ≡ w)
unfolding main initialize
main_ready acc services parse read create w w' server e =
    let ((flags, yaml, address), u, made, rest) = >>=-eq-done (init_config parse read) _ w e in
    let (z, v, profiled, started) = >>=-eq-done (open_profile create flags.cpu_profile) _ u rest in
    let (parsed, found, listens, first) = init_config-done parse read flags yaml address w u made in
    let second = open_profile-state create flags.cpu_profile u v profiled in
    let (at, handles, connected, third) =
      initialize-done acc services flags.authentication yaml address server v w' started in
    (
      yaml,
      found,
      listens ∙ ap (λ a. done a w) (sym at),
      handles ∙ ap (λ f. main_handler services acc f.authentication) parsed,
      λ on.
          subst (IsConnected acc yaml) (second ∙ first)
            (connected (ap (λ f. f.authentication) parsed ∙ on)),
      third ∙ second ∙ first,
    )
