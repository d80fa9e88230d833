-- ===== src/Http/Admin/Pages.antt =====
-- What the admin page of server/http.go shows.
use mathlib.Core.List.{append_assoc}
use icecast_proxy_go.Prelude.{
  ℕ, zero, suc, ◌+◌, ◌≡◌, refl, sym, ap, subst, ◌∙◌, inl, inr, Bool-cases, true, false, List, [],
  ◌∷◌, ◌++◌, some, Str, bytes, str_eq, str_eq_iff, lookup, text_eq, get_elem?, ◌==◌, if◌then◌else◌,
  arith, done,
}
use icecast_proxy_go.Client.{Request}
use icecast_proxy_go.World.{World, id_of}
use icecast_proxy_go.Auth.{Exchange, write}
use icecast_proxy_go.Http.Text.{itoa, sprintf}
use icecast_proxy_go.Http.Admin.{admin_handler, admin_page, mount_tables, client_rows, mount_html}

-- The text is a part of the other.
abbrev pub IsPart : Str → Str → Type 0
IsPart part whole = (before : Str) × (after : Str) × (whole ≡ before ++ (part ++ after))

-- The row of the n-th client of a mount, the first one in bold.
abbrev pub row : World → Str → ℕ → ℕ → Str
row w mount n client =
    bytes "\n<tr>\n<td>"
    ++ ((if n == 0
          then bytes "<b>" ++ ((w.ids (id_of w client)).name ++ bytes "</b>")
          else (w.ids (id_of w client)).name)
        ++ (bytes " &nbsp;</td>\n<td>"
            ++ ((w.clients client).metadata
                ++ (bytes " &nbsp;</td>\n<td>"
                    ++ ((w.ids (id_of w client)).agent
                        ++ (bytes
                              " &nbsp;</td>\n<td>\n<form action=\"/admin/kick\" method=\"GET\">\n<input type=\"hidden\" name=\"mount\" value=\""
                            ++ (mount
                                ++ (bytes "\" />\n<input type=\"hidden\" name=\"num\" value=\""
                                    ++ (itoa n
                                        ++ bytes
                                            "\" />\n<input type=\"submit\" value=\"Kick\"  />\n</form></td></tr>\n")))))))))

first-IsPart : (a b : Str) → IsPart a (a ++ b)
first-IsPart a b = ([], b, refl)

behind-IsPart : (part a b : Str) → IsPart part b → IsPart part (a ++ b)
behind-IsPart part a b (before, after, e) =
    (a ++ before, after, ap (λ s. a ++ s) e ∙ sym (append_assoc a before (part ++ after)))

before-IsPart : (part a b : Str) → IsPart part a → IsPart part (a ++ b)
before-IsPart part a b (before, after, e) = (
  before,
  after ++ b,
  ap (λ s. s ++ b) e
      ∙ append_assoc before (part ++ after) b
      ∙ ap (λ s. before ++ s) (append_assoc part after b),
)

sprintf-client_html :
    (w : World) (mount : Str) (n client : ℕ) (others : List ℕ)
    → client_rows w mount n (client ∷ others)
      ≡ row w mount n client ++ client_rows w mount (n + 1) others
unfolding client_rows sprintf
sprintf-client_html w mount n client others = refl

row-IsPart :
    (w : World) (mount : Str) (i n client : ℕ) (clients : List ℕ)
    → get_elem? clients n ≡ some client
    → IsPart (row w mount (i + n) client) (client_rows w mount i clients)
row-IsPart w mount i n client [] e = absurd (ground (arith, e))
row-IsPart w mount i zero client (c ∷ clients) e =
    let here : c ≡ client = cc in
    let index : i ≡ i + 0 = omega arith in
    subst (λ d. IsPart (row w mount (i + 0) d) (client_rows w mount i (c ∷ clients))) here
      (subst (λ k. IsPart (row w mount k c) (client_rows w mount i (c ∷ clients))) index
        (subst (IsPart (row w mount i c)) (sym (sprintf-client_html w mount i c clients))
          (first-IsPart (row w mount i c) (client_rows w mount (i + 1) clients))))
row-IsPart w mount i (suc n) client (c ∷ clients) e =
    let index : (i + 1) + n ≡ i + suc n = omega arith in
    subst (IsPart (row w mount (i + suc n) client)) (sym (sprintf-client_html w mount i c clients))
      (behind-IsPart (row w mount (i + suc n) client) (row w mount i c)
        (client_rows w mount (i + 1) clients)
        (subst (λ k. IsPart (row w mount k client) (client_rows w mount (i + 1) clients)) index
          (row-IsPart w mount (i + 1) n client clients e)))

-- A table shows the rows of its mount.
table-IsPart :
    (w : World) (part mount : Str) (clients : List ℕ) (m : List (Str × List ℕ))
    → IsPart part (client_rows w mount 0 clients)
    → IsPart part (mount_tables w ((mount, clients) ∷ m))
unfolding mount_tables sprintf
table-IsPart w part mount clients m h =
    before-IsPart part (sprintf mount_html (mount ∷ client_rows w mount 0 clients ∷ []))
      (mount_tables w m)
      (behind-IsPart part
        (bytes
          "\n<table width=\"800px\" cellspacing=\"0\" cellpadding=\"2\">\n<tr><th align=\"left\" colspan=\"5\">")
        _
        (behind-IsPart part mount _ (
          behind-IsPart part
            (bytes
              "</th></tr>\n<tr><th width=\"80px\">Username</th>\n<th>Metadata</th>\n<th width=\"150px\">Useragent</th>\n<th width=\"50px\">Kick</th></tr>\n")
            _ (before-IsPart part (client_rows w mount 0 clients) (bytes "\n</table>\n") h))))

mount_tables-IsPart :
    (w : World) (part mount : Str) (clients : List ℕ) (m : List (Str × List ℕ))
    → lookup mount m ≡ some clients
    → IsPart part (client_rows w mount 0 clients)
    → IsPart part (mount_tables w m)
unfolding lookup mount_tables
mount_tables-IsPart w part mount clients [] e h = absurd (ground (arith, e))
mount_tables-IsPart w part mount clients ((k, cs) ∷ m) e h = elim (Bool-cases (str_eq k mount)) [
  | inl same ↦
      let key : k ≡ mount = (str_eq_iff k mount).0 same in
      let its : cs ≡ clients = ground (arith, e, same) in
      table-IsPart w part k cs m (
        subst (λ n. IsPart part (client_rows w n 0 cs)) (sym key)
          (subst (λ l. IsPart part (client_rows w mount 0 l)) (sym its) h))
  | inr other ↦
      behind-IsPart part (sprintf mount_html (k ∷ client_rows w k 0 cs ∷ [])) (mount_tables w m)
        (mount_tables-IsPart w part mount clients m (ground (arith, e, other)) h)
]

page-IsPart :
    (w : World) (part : Str)
    → IsPart part (mount_tables w w.handlers.handler_mounts)
    → IsPart part (admin_page w)
unfolding admin_page sprintf
page-IsPart w part h =
    behind-IsPart part
      (bytes
        "\n<html><head><title>Icecast Proxy</title>\n<style type=\"text/css\">\ntable{border: 1px solid #999;border-right:0;border-bottom:0;margin-top:4px;}\ntd, th{border-bottom:1px solid #ccc;border-right:1px solid #eee;padding: .2em .5em;}\nform{margin:0;padding:0;}\n</style></head>\n<body>\n<h3>Icecast Proxy</h3>\n")
      _
      (before-IsPart part (mount_tables w w.handlers.handler_mounts) (bytes "\n</body></html>\n") h)

-- For a request of the admin page, with the lock free, one page is answered and nothing of the
-- server changes. If the table has an entry for a mount, then the page has, for each client of the
-- entry, a row with its name, in bold if it is the first one, its metadata, its agent, the mount
-- and its number.
pub admin_handler-shows :
    (r : Request) (id n client : ℕ) (clients : List ℕ) (mount : Str) (x : Exchange)
    → r.path ≡ bytes "/admin"
    → x.world.handlers.locked ≡ false
    → lookup mount x.world.handlers.handler_mounts ≡ some clients
    → get_elem? clients n ≡ some client
    → (page : Str) × (admin_handler r id x
        ≡ done tt (record x { replies = x.replies ++ write page ∷ [] }))
      × IsPart (row x.world mount n client) page
unfolding admin_handler
admin_handler-shows r id n client clients mount x path free found listed =
    let w = record (x.world) { handlers = record (x.world.handlers) { locked = true } } in
    let from_zero : 0 + n ≡ n = omega arith in
    (
      admin_page w,
      ground (arith, ap (λ p. str_eq p (bytes "/admin")) path, free),
      page-IsPart w (row x.world mount n client) (
          mount_tables-IsPart w (row x.world mount n client) mount clients
            x.world.handlers.handler_mounts found
            (subst (λ k. IsPart (row w mount k client) (client_rows w mount 0 clients)) from_zero
              (row-IsPart w mount 0 n client clients listed))),
    )
