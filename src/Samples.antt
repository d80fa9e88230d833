-- ===== src/Samples.antt =====
-- A concrete libshout, configuration and population, for the tests and the witnesses.
use icecast_proxy_go.Prelude.{
  ℕ, zero, suc, pos, negsuc, Bool, true, false, List, [], ◌∷◌, none, some, inr, Str, bytes, str_eq,
  if◌then◌else◌, ◌==◌,
}
use icecast_proxy_go.Client.{ClientId, perm_source, new_client, Request}
use icecast_proxy_go.Config.{Yaml}
use icecast_proxy_go.Mount.{Mount}
use icecast_proxy_go.Shout.{Call, LibShout, shout_open, shout_close}
use icecast_proxy_go.World.{World, MetaPack}
use icecast_proxy_go.Auth.{Accounts, Exchange}
use icecast_proxy_go.Http.{Services}

-- Connected from an open to the next close.
abbrev pub is_open : List Call → Bool
is_open [] = false
is_open (shout_open ∷ calls) = true
is_open (shout_close ∷ calls) = false
is_open (_ ∷ calls) = is_open calls

-- A library on which every call succeeds; SHOUTERR_SUCCESS is 0 and SHOUTERR_CONNECTED is -7.
abbrev pub good_lib : LibShout
good_lib = record {
  result = λ calls c. pos 0;
  get_connected = λ calls. if is_open calls then negsuc 6 else negsuc 7;
  delay = λ calls. pos 0;
  errno = λ calls. pos 0;
  error = λ calls. [];
  err_success = pos 0;
  err_insane = negsuc 0;
  err_malloc = negsuc 4;
  err_connected = negsuc 6;
  protocol_http = 0;
  protocol_xaudiocast = 1;
  protocol_icy = 2;
  format_ogg = 0;
  format_mp3 = 1;
  ai_bitrate = bytes "bitrate";
  ai_channels = bytes "channels";
  ai_samplerate = bytes "samplerate";
  ai_quality = bytes "quality";
}

-- A file with the mappings `icecast: {host: h}` and `server: {host: h, port: 80}`.
abbrev pub small_yaml : Yaml
small_yaml = record {
  root = 0;
  child = λ node key.
      if str_eq key (bytes "icecast")
      then some 1
      else if str_eq key (bytes "server")
      then some 2
      else none;
  as_map = λ node.
      if node == 1
      then some ((bytes "host", 3) ∷ [])
      else if node == 2
      then some ((bytes "host", 3) ∷ (bytes "port", 4) ∷ [])
      else none;
  as_scalar =
      λ node. if node == 3 then some (bytes "h") else if node == 4 then some (bytes "80") else none;
}

-- The same with `database: {dbname: 80}`.
abbrev pub whole_yaml : Yaml
whole_yaml = record small_yaml {
  child = λ node key. if str_eq key (bytes "database") then some 5 else small_yaml.child node key;
  as_map = λ node. if node == 5 then some ((bytes "dbname", 4) ∷ []) else small_yaml.as_map node;
}

-- A file with nothing in it.
abbrev pub empty_yaml : Yaml
empty_yaml = record {
  root = 0;
  child = λ node key. none;
  as_map = λ node. none;
  as_scalar = λ node. none;
}

abbrev pub person : Str → ClientId
person name = record {
  name = name;
  pass = bytes "pw";
  perm = perm_source;
  agent = [];
  addr = bytes "10.0.0.1:5000";
  mount = bytes "/main";
  audio_format = [];
}

abbrev pub idle_mount : Mount
idle_mount = record {
  client_queue = [];
  clients = record { by_id = []; length = 0 };
  active = none;
  mount = bytes "/main";
  shout = record { calls = [] };
}

-- Client k has the ClientID k; all are on the mount "/main", ClientID 1 is "ann", others "bob".
abbrev pub quiet : World
quiet = record {
  ids = λ k. if k == 1 then person (bytes "ann") else person (bytes "bob");
  clients = λ k. new_client k k;
  mount_at = λ k. idle_mount;
  next_mount = 0;
  closed = λ k. false;
  manager = record {
    mounts = [];
    receiver = [];
    mount_collector = [];
    meta_chan = [];
    meta_store = [];
  };
  handlers = record { handler_mounts = []; locked = false };
  data_chan = [];
  err_chan = [];
  readers = [];
  sleepers = [];
  generation = 0;
  mount_first = λ m. false;
}

-- Client 1 is live, client 2 waits, and the identifier 9 before it in the queue is stale.
abbrev pub busy_mount : Mount
busy_mount = record idle_mount {
  client_queue = 9 ∷ 2 ∷ [];
  clients = record { by_id = (1, 1) ∷ (2, 2) ∷ []; length = 2 };
  active = some 1;
}

abbrev pub busy : World
busy = record quiet {
  mount_at = λ k. busy_mount;
  next_mount = 1;
  manager = record (quiet.manager) { mounts = (bytes "/main", 0) ∷ [] };
  handlers = record { handler_mounts = (bytes "/main", 1 ∷ 2 ∷ []) ∷ []; locked = false };
}

-- As many stale identifiers.
abbrev pub sevens : ℕ → List ℕ
sevens zero = []
sevens (suc n) = 7 ∷ sevens n

-- The queue is full.
abbrev pub full : World
full = record busy { mount_at = λ k. record busy_mount { client_queue = sevens 100 } }

-- Client 1 alone.
abbrev pub solo : World
solo = record busy {
  mount_at = λ k. record busy_mount {
    client_queue = [];
    clients = record { by_id = (1, 1) ∷ []; length = 1 };
  };
}

-- Client 1 has left and the collection is pending.
abbrev pub left : World
left = record solo {
  mount_at =
      λ k. record busy_mount { client_queue = []; clients = record { by_id = []; length = 0 } };
}

-- A reader of a client without a mount has failed, and metadata are held back.
abbrev pub doomed : World
doomed = record quiet {
  err_chan = record { err = none; client = 1 } ∷ [];
  sleepers = (0, record { payload = bytes "song"; id = 1; seen = true }) ∷ [];
}

abbrev pub song_for : Bool → MetaPack
song_for seen = record { payload = bytes "song"; id = 1; seen = seen }

-- One account, "ann" with the password "pw".
abbrev pub accounts : Accounts
accounts = record {
  open_dsn = λ dsn. none;
  prepare = none;
  begins = true;
  row = λ name. if str_eq name (bytes "ann") then some (bytes "hash", pos 3) else none;
  matches = λ hash pass. str_eq pass (bytes "pw");
}

abbrev pub ask : Str → (Str → Str) → Str → Request
ask path query authorization = record {
  method = bytes "GET";
  path = path;
  query = query;
  header = λ name. if str_eq name (bytes "Authorization") then authorization else [];
  remote_addr = bytes "10.0.0.1:5000";
}

-- The credentials are "ann:pw".
abbrev pub ann_request : Request
ann_request = ask (bytes "/admin") (λ key. []) (bytes "Basic YW5uOnB3")

abbrev pub nobody_request : Request
nobody_request = ask (bytes "/admin") (λ key. []) []

abbrev pub song_request : Request
song_request =
    ask (bytes "/admin/metadata") (λ key. if str_eq key (bytes "song") then bytes "la" else []) []

-- A kick of the client with this number on "/main".
abbrev pub kick_request : Str → Request
kick_request num =
    ask (bytes "/admin/kick") (λ key. if str_eq key (bytes "mount") then bytes "/main" else num) []

abbrev pub idle_exchange : Exchange
idle_exchange = record { replies = []; world = busy; next_id = 5; next_client = 6 }

-- iconv returns its text; the connection 8 can be taken over.
abbrev pub services : Services
services = record {
  conv = λ text to from. some text;
  is_flusher = true;
  is_hijacker = true;
  hijack = inr 8;
}
