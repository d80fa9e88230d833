-- ===== src/Config.antt =====
-- config/config.go: the constants, and what init, CreateShoutMap and CreateDatabaseDSN make of the
-- parsed configuration file. The YAML package is the parameter Yaml; a node is an opaque number.
pub mod Laws
use icecast_proxy_go.Prelude.{
  ℕ, ◌+◌, Bool, true, inl, inr, ◌⊎◌, List, [], ◌∷◌, ◌++◌, Option, none, some, Str, bytes, str_eq,
  if◌then◌else◌, ltb, lookup, insert, text_eq, Go, ◌>>=◌, ◌>>◌, return, panic,
}

abbrev pub buffer_size : ℕ
buffer_size = 4096

abbrev pub queue_limit : ℕ
queue_limit = 100

-- yaml.Child, the type assertions to yaml.Map and yaml.Scalar, and Config.Root. A map is the list
-- of its entries, in the order in which `range` yields them.
pub record Yaml : Type 0 where
  pub root : ℕ
  pub child : ℕ → Str → Option ℕ
  pub as_map : ℕ → Option (List (Str × ℕ))
  pub as_scalar : ℕ → Option Str

-- The flags, and their values where the command line does not set them.
pub record Flags : Type 0 where
  pub config_file : Str
  pub authentication : Bool
  pub cpu_profile : Str
  pub memory_profile : Str

abbrev pub default_flags : Flags
default_flags = record {
  config_file = bytes "proxy.yaml";
  authentication = true;
  cpu_profile = [];
  memory_profile = [];
}

module _ (yaml : Yaml) where
  -- The loop of CreateShoutMap: entries that are no scalars are left out.
  unfoldable pub fill_options : List (Str × ℕ) → List (Str × Str) → List (Str × Str)
  unfolding insert
  fill_options [] options = options
  fill_options ((key, value) ∷ m) options =
      fill_options m
        (elim (yaml.as_scalar value) [ none ↦ options | some scalar ↦ insert key scalar options ])

  unfoldable pub create_shout_map : {S : Type 0} → Go S (List (Str × Str))
  unfolding fill_options
  create_shout_map s = elim (yaml.child yaml.root (bytes "icecast")) [
    | none ↦ panic (bytes "Icecast configuration missing.") s
    | some node ↦ elim (yaml.as_map node) [
      | none ↦ panic (bytes "Icecast configuration isn't a mapping.") s
      | some m ↦ return (fill_options m []) s
    ]
  ]

  -- The loop of init over the "server" mapping.
  unfoldable pub address_from : List (Str × ℕ) → Str → Str
  address_from [] address = address
  address_from ((key, value) ∷ m) address = address_from m (elim (yaml.as_scalar value) [
    | none ↦ address
    | some scalar ↦
        if str_eq key (bytes "host")
        then scalar ++ address
        else if str_eq key (bytes "port")
        then address ++ scalar
        else address
  ])

  -- The value that init leaves in ServerAddress.
  unfoldable pub server_address : {S : Type 0} → Go S Str
  unfolding address_from str_eq
  server_address s = elim (yaml.child yaml.root (bytes "server")) [
    | none ↦ panic (bytes "Server configuration missing.") s
    | some node ↦ elim (yaml.as_map node) [
      | none ↦ return (bytes ":") s
      | some m ↦ return (address_from m (bytes ":")) s
    ]
  ]

  -- The closure getstring.
  unfoldable pub get_string : List (Str × ℕ) → Str → Option Str
  unfolding lookup str_eq
  get_string m key = elim (lookup key m) [ none ↦ none | some node ↦ yaml.as_scalar node ]

  abbrev pub part : Str → Option Str → Str
  part mark none = []
  part mark (some text) = mark ++ text

  abbrev pub address_part : Option Str → Option Str → Str
  address_part none port = []
  address_part (some address) none = bytes "(" ++ (address ++ bytes ")")
  address_part (some address) (some port) =
      bytes "(" ++ ((address ++ (bytes ":" ++ port)) ++ bytes ")")

  -- The loop over the parameters, with the number of those before.
  unfoldable pub params_from : ℕ → List (Str × ℕ) → Str
  params_from i [] = []
  params_from i ((key, value) ∷ m) =
      (if ltb 0 i then bytes "&" else [])
      ++ ((elim (yaml.as_scalar value) [ none ↦ [] | some scalar ↦ key ++ (bytes "=" ++ scalar) ])
          ++ params_from (i + 1) m)

  abbrev pub params_part : Option (List (Str × ℕ)) → Str
  params_part none = []
  params_part (some m) = bytes "?" ++ params_from 0 m

  abbrev pub node_map : Option ℕ → Option (List (Str × ℕ))
  node_map none = none
  node_map (some node) = yaml.as_map node

  abbrev pub dsn_of : List (Str × ℕ) → Str → Str
  dsn_of m dbname =
      part [] (get_string m (bytes "username"))
      ++ (part (bytes ":") (get_string m (bytes "password"))
          ++ (part (bytes "@") (get_string m (bytes "protocol"))
              ++ (address_part (get_string m (bytes "host")) (get_string m (bytes "port"))
                  ++ ((bytes "/" ++ dbname)
                      ++ params_part (node_map (lookup (bytes "parameters") m))))))

  unfoldable pub create_database_dsn : {S : Type 0} → Go S Str
  unfolding get_string params_from
  create_database_dsn s = elim (yaml.child yaml.root (bytes "database")) [
    | none ↦ panic (bytes "Database configuration missing.") s
    | some node ↦ elim (yaml.as_map node) [
      | none ↦ return [] s
      | some m ↦ elim (get_string m (bytes "dbname")) [
        | none ↦ panic (bytes "Database name is required.") s
        | some dbname ↦ return (dsn_of m dbname) s
      ]
    ]
  ]

-- init: `parse` is flag.Parse, and `read` is yaml.ConfigFile, which panics where it fails. The
-- result is the flags, the configuration and ServerAddress.
unfoldable pub init_config :
    {S : Type 0} → (Flags → Flags) → (Str → Str ⊎ Yaml) → Go S (Flags × Yaml × Str)
init_config parse read = elim (read (parse default_flags).config_file) [
  | inl e ↦ panic e
  | inr yaml ↦ do address ← server_address yaml; return (parse default_flags, yaml, address)
]
