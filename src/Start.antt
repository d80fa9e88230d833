-- ===== src/Start.antt =====
-- Initialize of server/http.go and main of initializer.go: how the program starts.
pub mod Laws
use icecast_proxy_go.Prelude.{
  ℕ, Bool, true, List, [], ◌∷◌, Option, none, some, Str, ◌⊎◌, Go, ◌>>=◌, ◌>>◌, skip, panic, return,
}
use icecast_proxy_go.Client.{Request}
use icecast_proxy_go.Config.{Flags, Yaml, init_config}
use icecast_proxy_go.World.{World}
use icecast_proxy_go.Auth.{Accounts, Exchange, init_auth}
use icecast_proxy_go.Http.{Services, main_handler}

-- http.Server as Initialize sets it up, with the handler of its one pattern "/"; times in seconds.
pub record HttpServer : Type 0 where
  pub addr : Str
  pub handler : Request → Go Exchange (Unit {0})
  pub read_timeout : ℕ
  pub write_timeout : ℕ

-- Initialize up to ListenAndServe.
unfoldable pub initialize : Accounts → Bool → Yaml → Services → Str → Go World HttpServer
initialize acc authentication yaml services address = do
  init_auth acc authentication yaml
  return (record {
    addr = address;
    handler = main_handler services acc authentication;
    read_timeout = 10;
    write_timeout = 5;
  })

-- The file of -cpuprofile, by the error of os.Create: log.Fatal ends the program as a panic does.
-- The profile itself is not modelled.
abbrev pub open_profile : (Str → Option Str) → Str → Go World (Unit {0})
open_profile create [] = skip
open_profile create (c ∷ path) = elim (create (c ∷ path)) [ some e ↦ panic e | none ↦ skip ]

-- The program: init of the package config, then main.
unfoldable pub main :
    Accounts
    → Services
    → (Flags → Flags)
    → (Str → Str ⊎ Yaml)
    → (Str → Option Str)
    → Go World HttpServer
main acc services parse read create = do
  (flags, yaml, address) ← init_config parse read
  open_profile create flags.cpu_profile
  initialize acc flags.authentication yaml services address
