-- ===== src/Base64/Laws.antt =====
-- Decoding takes back the encoding of RFC 4648, section 4.
use icecast_proxy_go.Prelude.{
  ℕ, ◌+◌, ◌-◌, ◌*◌, ◌/◌, ◌%◌, ◌<◌, ◌≡◌, ◌≢◌, refl, ap, ◌∙◌, [], ◌∷◌, some, Str, ◌==◌, ltb,
  if◌then◌else◌, All, arith,
}
use icecast_proxy_go.Base64.{sextet, decode_groups, strip_breaks, decode}

-- The character of a six-bit number.
unfoldable pub digit : ℕ → ℕ
digit n =
    if ltb n 26
    then n + 65
    else if ltb n 52
    then n + 71
    else if ltb n 62
    then n - 4
    else if n == 62
    then b'+'
    else b'/'

abbrev pub IsByte : ℕ → Type 0
IsByte b = b < 256

unfoldable pub encode : Str → Str
unfolding digit
encode [] = []
encode (x ∷ []) = digit (x / 4) ∷ digit (x % 4 * 16) ∷ b'=' ∷ b'=' ∷ []
encode (x ∷ y ∷ []) = digit (x / 4) ∷ digit (x % 4 * 16 + y / 16) ∷ digit (y % 16 * 4) ∷ b'=' ∷ []
encode (x ∷ y ∷ z ∷ s) =
    digit (x / 4)
    ∷ digit (x % 4 * 16 + y / 16)
    ∷ digit (y % 16 * 4 + z / 64)
    ∷ digit (z % 64)
    ∷ encode s

sextet-digit : (n : ℕ) → n < 64 → sextet (digit n) ≡ some n
unfolding sextet digit
sextet-digit n h = ground arith

digit-text : (n : ℕ) → n < 64 → (digit n ≢ b'=') × ((digit n ≢ b'\n') × (digit n ≢ b'\r'))
unfolding digit
digit-text n h = ground arith

strip_breaks-digit :
    (n : ℕ) (s : Str) → n < 64 → strip_breaks s ≡ s → strip_breaks (digit n ∷ s) ≡ digit n ∷ s
unfolding strip_breaks
strip_breaks-digit n s h e = ground (arith, digit-text n h, e)

-- The encoding holds no line breaks.
strip_breaks-encode : (s : Str) → All IsByte s → strip_breaks (encode s) ≡ encode s
unfolding encode strip_breaks
strip_breaks-encode [] h = refl
strip_breaks-encode (x ∷ []) h =
    strip_breaks-digit (x / 4) (digit (x % 4 * 16) ∷ b'=' ∷ b'=' ∷ []) (omega (arith, h.0))
      (strip_breaks-digit (x % 4 * 16) (b'=' ∷ b'=' ∷ []) (omega arith) refl)
strip_breaks-encode (x ∷ y ∷ []) h =
    let last = digit (y % 16 * 4) ∷ b'=' ∷ [] in
    strip_breaks-digit (x / 4) (digit (x % 4 * 16 + y / 16) ∷ last) (omega (arith, h.0)) (
      strip_breaks-digit (x % 4 * 16 + y / 16) last (omega (arith, h.1.0))
        (strip_breaks-digit (y % 16 * 4) (b'=' ∷ []) (omega arith) refl))
strip_breaks-encode (x ∷ y ∷ z ∷ s) h =
    let two = digit (y % 16 * 4 + z / 64) ∷ digit (z % 64) ∷ encode s in
    strip_breaks-digit (x / 4) (digit (x % 4 * 16 + y / 16) ∷ two) (omega (arith, h.0)) (
      strip_breaks-digit (x % 4 * 16 + y / 16) two (omega (arith, h.1.0)) (
        strip_breaks-digit (y % 16 * 4 + z / 64) (digit (z % 64) ∷ encode s)
          (omega (arith, h.1.1.0))
          (strip_breaks-digit (z % 64) (encode s) (omega arith) (strip_breaks-encode s h.1.1.1))))

-- A group with no padding is three bytes in front of the rest.
decode_groups-group :
    (p q r n : ℕ) (t u : Str)
    → p < 64
    → q < 64
    → r < 64
    → n < 64
    → decode_groups t ≡ some u
    → decode_groups (digit p ∷ digit q ∷ digit r ∷ digit n ∷ t)
      ≡ some ((p * 4 + q / 16) ∷ (q % 16 * 16 + r / 4) ∷ (r % 4 * 64 + n) ∷ u)
unfolding decode_groups
decode_groups-group p q r n [] u hp hq hr hn e = ground (
  arith,
  digit-text n hn,
  sextet-digit p hp,
  sextet-digit q hq,
  sextet-digit r hr,
  sextet-digit n hn,
)
decode_groups-group p q r n (c ∷ t) u hp hq hr hn e =
    rw (e, sextet-digit p hp, sextet-digit q hq, sextet-digit r hr, sextet-digit n hn)

three_equal :
    (a b c x y z : ℕ) (s : Str)
    → a ≡ x
    → b ≡ y
    → c ≡ z
    → ◌≡◌ {A = Str} (a ∷ b ∷ c ∷ s) (x ∷ y ∷ z ∷ s)
three_equal a b c x y z s e f g = cc

decode_groups-encode : (s : Str) → All IsByte s → decode_groups (encode s) ≡ some s
unfolding decode_groups encode
decode_groups-encode [] h = refl
decode_groups-encode (x ∷ []) h =
    ground
      (arith, sextet-digit (x / 4) (omega (arith, h.0)), sextet-digit (x % 4 * 16) (omega arith))
decode_groups-encode (x ∷ y ∷ []) h = ground (
  arith,
  h.0,
  h.1.0,
  digit-text (y % 16 * 4) (omega arith),
  sextet-digit (x / 4) (omega (arith, h.0)),
  sextet-digit (x % 4 * 16 + y / 16) (omega (arith, h.1.0)),
  sextet-digit (y % 16 * 4) (omega arith),
)
decode_groups-encode (x ∷ y ∷ z ∷ s) h =
    decode_groups-group (x / 4) (x % 4 * 16 + y / 16) (y % 16 * 4 + z / 64) (z % 64) (encode s) s
      (omega (arith, h.0)) (omega (arith, h.1.0)) (omega (arith, h.1.1.0)) (omega arith)
      (decode_groups-encode s h.1.1.1)
    ∙ ap some (
        three_equal _ _ _ _ _ _ s (omega (arith, h.0, h.1.0)) (omega (arith, h.1.0, h.1.1.0))
          (omega (arith, h.1.1.0)))

-- Bytes that were encoded are decoded again.
pub decode-encode : (s : Str) → All IsByte s → decode (encode s) ≡ some s
unfolding decode
decode-encode s h = ap decode_groups (strip_breaks-encode s h) ∙ decode_groups-encode s h
