-- ===== src/Http/Admin.antt =====
-- adminHandler of server/http.go, with its templates.
pub mod Laws
pub mod Pages
use icecast_proxy_go.Prelude.{
  ℕ, ℤ, pos, negsuc, suc, ◌+◌, ◌==◌, Bool, true, false, List, [], ◌∷◌, ◌++◌, Option, none, some,
  Str, bytes, str_eq, lookup, text_eq, get_elem?, if◌then◌else◌, Go, Outcome, done, panicked,
  blocked, ◌>>=◌, ◌>>◌, skip, panic, gets, modify, zoom,
}
use icecast_proxy_go.Client.{Client, ClientId, Request}
use icecast_proxy_go.Handlers.{Handlers, lock, unlock}
use icecast_proxy_go.Shout.Options.{atoi}
use icecast_proxy_go.World.{World, on_handlers, close_conn, id_of}
use icecast_proxy_go.Auth.{Exchange, Reply, set_header, write_header, write, reply}
use icecast_proxy_go.Http.Text.{itoa, sprintf}

abbrev pub admin_html : Str
admin_html =
    bytes
      "\n<html><head><title>Icecast Proxy</title>\n<style type=\"text/css\">\ntable{border: 1px solid #999;border-right:0;border-bottom:0;margin-top:4px;}\ntd, th{border-bottom:1px solid #ccc;border-right:1px solid #eee;padding: .2em .5em;}\nform{margin:0;padding:0;}\n</style></head>\n<body>\n<h3>Icecast Proxy</h3>\n%s\n</body></html>\n"

abbrev pub mount_html : Str
mount_html =
    bytes
      "\n<table width=\"800px\" cellspacing=\"0\" cellpadding=\"2\">\n<tr><th align=\"left\" colspan=\"5\">%s</th></tr>\n<tr><th width=\"80px\">Username</th>\n<th>Metadata</th>\n<th width=\"150px\">Useragent</th>\n<th width=\"50px\">Kick</th></tr>\n%s\n</table>\n"

abbrev pub client_html : Str
client_html =
    bytes
      "\n<tr>\n<td>%s &nbsp;</td>\n<td>%s &nbsp;</td>\n<td>%s &nbsp;</td>\n<td>\n<form action=\"/admin/kick\" method=\"GET\">\n<input type=\"hidden\" name=\"mount\" value=\"%s\" />\n<input type=\"hidden\" name=\"num\" value=\"%d\" />\n<input type=\"submit\" value=\"Kick\" %s />\n</form></td></tr>\n"

abbrev pub on_world : {A : Type 0} → Go World A → Go Exchange A
on_world = zoom (λ x. x.world) (λ w x. record x { world = w })

-- The first client of a mount is printed in bold.
abbrev pub shown_name : ℕ → Str → Str
shown_name i name = if i == 0 then sprintf (bytes "<b>%s</b>") (name ∷ []) else name

unfoldable pub client_rows : World → Str → ℕ → List ℕ → Str
unfolding sprintf itoa
client_rows w mount i [] = []
client_rows w mount i (c ∷ cs) =
    sprintf client_html (
      shown_name i (w.ids (id_of w c)).name
      ∷ (w.clients c).metadata
      ∷ (w.ids (id_of w c)).agent
      ∷ mount
      ∷ itoa i
      ∷ []
      ∷ [])
    ++ client_rows w mount (i + 1) cs

-- The loop over HandlerMounts, in the order in which the map yields its entries.
unfoldable pub mount_tables : World → List (Str × List ℕ) → Str
unfolding client_rows sprintf
mount_tables w [] = []
mount_tables w ((mount, clients) ∷ m) =
    sprintf mount_html (mount ∷ client_rows w mount 0 clients ∷ []) ++ mount_tables w m

unfoldable pub admin_page : World → Str
unfolding mount_tables sprintf
admin_page w = sprintf admin_html (mount_tables w w.handlers.handler_mounts ∷ [])

-- `clients[Id].Conn.Close()`
abbrev pub kick_at : List ℕ → ℤ → Go World (Unit {0})
kick_at clients (negsuc n) = panic (bytes "index out of range")
kick_at clients (pos n) = elim (get_elem? clients n) [
  | none ↦ panic (bytes "index out of range")
  | some client ↦ close_conn client
]

abbrev pub kick_from : Option (List ℕ) → Option ℤ → Go World (Unit {0})
kick_from found none = skip
kick_from none (some i) = skip
kick_from (some clients) (some i) = kick_at clients i

unfoldable pub kick : Request → Go Exchange (Unit {0})
unfolding atoi lookup str_eq
kick r = do
  found ← gets (λ x. lookup (r.query (bytes "mount")) x.world.handlers.handler_mounts)
  on_world (kick_from found (atoi (r.query (bytes "num"))))
  reply (set_header (bytes "Location") (bytes "/admin") ∷ write_header 301 ∷ [])

unfoldable pub admin_handler : Request → ℕ → Go Exchange (Unit {0})
unfolding admin_page kick str_eq
admin_handler r id = do
  on_world (on_handlers lock)
  if str_eq r.path (bytes "/admin")
      then (do page ← gets (λ x. admin_page x.world); reply (write page ∷ []))
      else (if str_eq r.path (bytes "/admin/kick") then kick r else skip)
  on_world (on_handlers unlock)
