-- ===== src/Http/Version.antt =====
-- http/request.go: ParseHTTPVersion, which the proxy's copy of net/http changes so that it takes the
-- ICE/ protocols of source clients, with atoi, and the request line in ReadRequest.
pub mod Laws
use icecast_proxy_go.Prelude.{
  ℕ, ◌+◌, ◌-◌, ◌*◌, Bool, ◌&&◌, List, [], ◌∷◌, Option, none, some, Str, bytes, ◌==◌, leb, ltb,
  length, inl, inr, ◌⊎◌, if◌then◌else◌,
}
use icecast_proxy_go.Text.{split_n}
use icecast_proxy_go.Http.Text.{slice_prefix}

-- The constant Big.
abbrev pub big : ℕ
big = 1000000

abbrev pub is_digit : ℕ → Bool
is_digit c = leb b'0' c && leb c b'9'

-- The loop of atoi on s[i:], with the number read so far; the rest of the text stands for i.
unfoldable pub scan_digits : ℕ → Str → Option (ℕ × Str)
scan_digits n [] = some (n, [])
scan_digits n (c ∷ s) =
    let next = n * 10 + (c - b'0') in
    let rest = scan_digits next s in
    if is_digit c then (if ltb big next then none else rest) else some (n, c ∷ s)

unfoldable pub atoi : Str → Option (ℕ × Str)
unfolding scan_digits
atoi [] = none
atoi (c ∷ s) = if is_digit c then scan_digits 0 (c ∷ s) else none

-- `vers[5:]` behind the test of the first five bytes.
unfoldable pub strip_prefix : Str → Str → Option Str
strip_prefix [] s = some s
strip_prefix (c ∷ prefix) [] = none
strip_prefix (c ∷ prefix) (d ∷ s) =
    let rest = strip_prefix prefix s in if c == d then rest else none

-- The minor number, which has to end the text.
abbrev pub minor_of : ℕ → Option (ℕ × Str) → Option (ℕ × ℕ)
minor_of major none = none
minor_of major (some (minor, [])) = some (major, minor)
minor_of major (some (minor, c ∷ s)) = none

-- What stands behind the major number: a dot and the minor number.
abbrev pub version_of : Option (ℕ × Str) → Option (ℕ × ℕ)
version_of none = none
version_of (some (major, [])) = none
version_of (some (major, c ∷ s)) = if c == b'.' then minor_of major (atoi s) else none

unfoldable pub parse_http_version : Str → Option (ℕ × ℕ)
unfolding slice_prefix strip_prefix
parse_http_version vers =
    if ltb 4 (length vers) && slice_prefix (bytes "ICE/") vers
    then some (1, 0)
    else elim (strip_prefix (bytes "HTTP/") vers) [
      | none ↦ none
      | some numbers ↦ version_of (atoi numbers)
    ]

-- badStringError: what is wrong, and with which text.
pub record BadString : Type 0 where
  pub what : Str
  pub str : Str

-- Method, RequestURI, Proto, ProtoMajor and ProtoMinor of an http.Request.
pub record RequestLine : Type 0 where
  pub method : Str
  pub request_uri : Str
  pub proto : Str
  pub proto_major : ℕ
  pub proto_minor : ℕ

abbrev pub with_version : Str → Str → Str → Option (ℕ × ℕ) → BadString ⊎ RequestLine
with_version method uri proto none =
    inl (record { what = bytes "malformed HTTP version"; str = proto })
with_version method uri proto (some (major, minor)) = inr (record {
  method = method;
  request_uri = uri;
  proto = proto;
  proto_major = major;
  proto_minor = minor;
})

abbrev pub line_of : Str → List Str → BadString ⊎ RequestLine
line_of s (method ∷ uri ∷ proto ∷ []) = with_version method uri proto (parse_http_version proto)
line_of s _ = inl (record { what = bytes "malformed HTTP request"; str = s })

-- The part of ReadRequest that reads the first line.
unfoldable pub read_request_line : Str → BadString ⊎ RequestLine
unfolding split_n
read_request_line s = line_of s (split_n b' ' 3 s)
