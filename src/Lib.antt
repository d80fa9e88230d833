-- ===== src/Lib.antt =====
-- Icecast proxy: a verification library of the proxy that takes several source clients for a mount
-- of an icecast server and passes on the stream of one of them.
--
-- The program's parts, and the files that model them:
--   * server/icecast.go. Manager.ProcessClients is `serve` of Loop.antt; its cases are `on_data`,
--     `on_error`, `on_client`, `on_meta`, `on_tick` (Manager/Serve.antt) and `on_collect`
--     (Manager/Remove.antt). AddClient, RemoveClient, NextLiveClient and SwapLiveClient are
--     `add_client`, `remove_client`, `next_live_client` and `swap_live_client` of Manager/Add.antt,
--     Manager/Remove.antt and Manager/Live.antt; Mount.HandleData is `handle_data` of Mount.antt.
--     The loop of init is `restart` and `after_serve`, ReadInto is `read_into` and `stop_reading`,
--     the goroutine that holds metadata back is `wake` (Loop.antt).
--   * server/manager.go and server/packets.go: the records Manager, MetaPack, DataPack and ErrPack of
--     World.antt, with NewManager; DestroyManager is `destroy_mounts` of Manager/Remove.antt.
--   * server/mount.go: Mount.antt. server/client.go: Client.antt, ClientHash.antt (ClientID.Hash) and
--     Container.antt (ClientContainer); NewClientIDFromRequest stands in Auth.antt.
--   * server/handlers.go: Handlers.antt, the table of clients that the admin page shows, and its lock.
--   * server/auth.go: Auth.antt, with Base64.antt and Text.antt for what it uses of the standard
--     library. server/http.go and server/encoding.go: Http.antt, Http/Admin.antt (adminHandler) and
--     Http/Text.antt.
--   * http/request.go: ParseHTTPVersion, which the proxy changes for the ICE/ protocols of its source
--     clients, with atoi, and the first line of ReadRequest: Http/Version.antt.
--   * config/config.go: Config.antt. shout/shout.go: Shout.antt and Shout/Options.antt
--     (ApplyOptions). initializer.go and Initialize of server/http.go: Start.antt.
--
-- How they interact: an HTTP handler runs on an Exchange, the replies made so far and the World; it
-- sends clients and metadata into the channels of the Manager in the World. The manager takes one
-- case after the other and works on the mounts, the handlers' table and the connections to the
-- icecast server. An input of Loop.antt is one step of any goroutine, so that a list of inputs is an
-- interleaving: the packets that are held back wake in any order. A use of a shout_t after
-- shout_free is undefined behaviour. The manager reaches the mounts through its map, but for the one
-- that it collects, so `uses_freed` asks the collection, and a system that did so has the status
-- `undefined` and takes no more inputs.
--
-- State: a computation is `Go S A` of Prelude/Monad.antt, a function from a state to an outcome:
-- `done`, `panicked` with the state that a deferred recover goes on from, or `blocked` where it waits
-- for ever. Pointers to ClientID, Client and Mount are numbers, the objects stand in functions of
-- the World; pointers are compared as numbers. Maps are association lists, and a range over a map
-- goes through the list, of which no order is assumed: the mappings of the configuration have one
-- order in a run, any one, and the two options that AddClient sets on a new mount have one for each
-- mount, by `mount_first` of the World. Strings are lists of bytes, lower case is that of ASCII.
-- Channels are lists with the capacities of the source; counters, hashes and ports keep their width:
-- Length is an int32, the hash a uint64, the port an unsigned short. The only fuel is that of
-- `itoa_from`, one round more than the number: each round divides the number by ten, so that it ends
-- before.
--
-- The abstract view: Manager/Seats.antt says what a mount promises its sources, one that is on the
-- air and a line of those that wait, and forgets the identifiers in the queue whose client has
-- left. Its children relate AddClient and RemoveClient to the line. Manager/Order.antt says which
-- clients stand where in all mounts together, with the rules by which the cases keep that, and
-- Loop/Order.antt carries it over runs of the loop. Loop/Ends.antt and its children say what the
-- manager waits for where it waits for itself, and what else stops a run; Loop/Ages.antt, when a
-- panic ends the process. Loop/Deadlock.antt has a run in which the manager waits, Loop/Collected.antt
-- one that frees a mount twice. Loop/Stream.antt and Loop/Delivery.antt follow data and metadata from
-- their source to libshout. Http/Admin/Pages.antt describes the admin page by the rows that it has.
--
-- Parameters: libshout is LibShout, which answers a call by the history of the calls before; the YAML
-- package is Yaml, the database and bcrypt are Accounts, iconv and the HTTP server's connection are
-- Services, flag.Parse and the file that it names are arguments of the start. A request is what the
-- handlers read of it.
--
-- Not modelled: log lines, but for the one that can panic; times and deadlines; freeing C strings;
-- the profile of initializer.go; the rest of http/, a copy of Go's net/http, but for Error and
-- NotFound: the server and its multiplexer, which has the one pattern "/", headers, bodies, clients.
--
-- The shared helpers are the modules under Prelude, with the rules for invariants of any state in
-- Prelude/Invariants.antt; Loop/Inputs.antt says how an input is taken, by cases;
-- Manager/Sound.antt and its children hold the invariant of the whole state with the rules that
-- `search` keeps it by, Http/Permissions.antt and its children those for what a request may change;
-- Samples.antt and Tests.antt hold concrete inputs.
pub mod Prelude
pub mod Text
pub mod Base64
pub mod Client
pub mod ClientHash
pub mod Container
pub mod Shout
pub mod Config
pub mod Handlers
pub mod Mount
pub mod World
pub mod Auth
pub mod Http
pub mod Start
pub mod Manager
pub mod Loop
mod Samples
mod Tests
