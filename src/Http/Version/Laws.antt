-- ===== src/Http/Version/Laws.antt =====
-- Which versions and request lines are read, and as what.
use mathlib.Core.List.{append-nil}
use icecast_proxy_go.Prelude.{
  ℕ, zero, suc, ◌+◌, ◌-◌, ◌*◌, ◌/◌, ◌%◌, ◌≡◌, ◌<◌, ◌≤◌, refl, sym, ap, ◌∙◌, Bool-cases, inl, inr,
  true, false, ◌&&◌, [], ◌∷◌, ◌++◌, Option, none, some, Str, bytes, ◌==◌, ltb, length,
  if◌then◌else◌, arith, Option-cases,
}
use icecast_proxy_go.Text.{split_n}
use icecast_proxy_go.Text.Laws.{IsFree, cut-append}
use icecast_proxy_go.Http.Text.{itoa, itoa_from, slice_prefix}
use icecast_proxy_go.Http.Version.{
  big, is_digit, scan_digits, atoi, strip_prefix, minor_of, version_of, parse_http_version, line_of,
  read_request_line,
}

scan_digits-le :
    (n : ℕ) (s : Str) (k : ℕ) (rest : Str) → n ≤ big → scan_digits n s ≡ some (k, rest) → k ≤ big
unfolding scan_digits
scan_digits-le n [] k rest h e = ground arith
scan_digits-le n (c ∷ s) k rest h e = ground (arith, scan_digits-le (n * 10 + (c - b'0')) s k rest)

atoi-le : (s : Str) (k : ℕ) (rest : Str) → atoi s ≡ some (k, rest) → k ≤ big
unfolding atoi
atoi-le [] k rest e = ground arith
atoi-le (c ∷ s) k rest e = ground (arith, scan_digits-le 0 (c ∷ s) k rest)

minor_of-le :
    (k : ℕ) (o : Option (ℕ × Str)) (major minor : ℕ)
    → k ≤ big
    → ((m : ℕ) (rest : Str) → o ≡ some (m, rest) → m ≤ big)
    → minor_of k o ≡ some (major, minor)
    → (major ≤ big) × (minor ≤ big)
minor_of-le k none major minor h small e = ground arith
minor_of-le k (some (m, [])) major minor h small e = ground (arith, small m [] refl)
minor_of-le k (some (m, c ∷ s)) major minor h small e = ground arith

version_of-le :
    (o : Option (ℕ × Str)) (major minor : ℕ)
    → ((m : ℕ) (rest : Str) → o ≡ some (m, rest) → m ≤ big)
    → version_of o ≡ some (major, minor)
    → (major ≤ big) × (minor ≤ big)
version_of-le none major minor small e = ground arith
version_of-le (some (m, [])) major minor small e = ground arith
version_of-le (some (m, c ∷ s)) major minor small e = elim (Bool-cases (c == b'.')) [
  | inl dot ↦
      minor_of-le m (atoi s) major minor (small m (c ∷ s) refl) (atoi-le s)
        (rw (ap (λ b. if b then minor_of m (atoi s) else none) dot) at e)
  | inr other ↦ absurd (ground (arith, other))
]

parse_http_version-http :
    (vers numbers : Str)
    → (ltb 4 (length vers) && slice_prefix (bytes "ICE/") vers) ≡ false
    → strip_prefix (bytes "HTTP/") vers ≡ some numbers
    → parse_http_version vers ≡ version_of (atoi numbers)
unfolding parse_http_version
parse_http_version-http vers numbers other found = rw (other, found)

-- The numbers of a version that ParseHTTPVersion reads are at most 1000000, whatever the text.
pub parse_http_version-le :
    (vers : Str) (major minor : ℕ)
    → parse_http_version vers ≡ some (major, minor)
    → (major ≤ big) × (minor ≤ big)
unfolding parse_http_version
parse_http_version-le vers major minor e =
    elim (Bool-cases (ltb 4 (length vers) && slice_prefix (bytes "ICE/") vers)) [
      | inl ice ↦ ground (arith, ice)
      | inr other ↦ elim (Option-cases (strip_prefix (bytes "HTTP/") vers)) [
        | inl bad ↦ absurd (ground (arith, other, bad))
        | inr (numbers, found) ↦
            version_of-le (atoi numbers) major minor (atoi-le numbers)
              (sym (parse_http_version-http vers numbers other found) ∙ e)
      ]
    ]

scan_digits-digit :
    (n d : ℕ) (s : Str)
    → d < 10
    → n * 10 + d ≤ big
    → scan_digits n ((b'0' + d) ∷ s) ≡ scan_digits (n * 10 + d) s
unfolding scan_digits
scan_digits-digit n d s h small = let (e, f, g) = tests n d h small in rw (f, e, g)
  where
    tests :
        (n d : ℕ)
        → d < 10
        → n * 10 + d ≤ big
        → ((b'0' + d) - b'0' ≡ d) × (is_digit (b'0' + d) ≡ true) × (ltb big (n * 10 + d) ≡ false)
    tests n d h small = (ground arith, ground arith, ground arith)

scan_digits-itoa_from :
    (fuel n : ℕ) (s : Str)
    → n < fuel
    → n ≤ big
    → scan_digits 0 (itoa_from fuel n s) ≡ scan_digits n s
unfolding itoa_from
scan_digits-itoa_from zero n s h small = absurd (omega arith)
scan_digits-itoa_from (suc fuel) n s h small = elim (Bool-cases (ltb n 10)) [
  | inl one ↦ rw one (
      scan_digits-digit 0 n s (ground arith) (omega arith)
      ∙ ap (λ k. scan_digits k s) (omega arith))
  | inr more ↦ rw more (
      scan_digits-itoa_from fuel (n / 10) ((b'0' + n % 10) ∷ s) (ground arith) (omega arith)
      ∙ scan_digits-digit (n / 10) (n % 10) s (omega arith) (omega arith)
      ∙ ap (λ k. scan_digits k s) (omega arith))
]

-- The text begins with a digit.
abbrev StartsWithDigit : Str → Type 0
StartsWithDigit [] = ⊥
StartsWithDigit (c ∷ s) = is_digit c ≡ true

itoa_from-StartsWithDigit :
    (fuel n : ℕ) (s : Str) → StartsWithDigit s → StartsWithDigit (itoa_from fuel n s)
unfolding itoa_from
itoa_from-StartsWithDigit zero n s h = h
itoa_from-StartsWithDigit (suc fuel) n s h = elim (Bool-cases (ltb n 10)) [
  | inl one ↦ rw one (ground arith)
  | inr more ↦
      rw more (itoa_from-StartsWithDigit fuel (n / 10) ((b'0' + n % 10) ∷ s) (ground arith))
]

atoi_of_digit : (s : Str) → StartsWithDigit s → atoi s ≡ scan_digits 0 s
unfolding atoi
atoi_of_digit [] h = absurd h
atoi_of_digit (c ∷ s) h = rw h

itoa_from-append : (fuel n : ℕ) (s t : Str) → itoa_from fuel n s ++ t ≡ itoa_from fuel n (s ++ t)
unfolding itoa_from
itoa_from-append zero n s t = refl
itoa_from-append (suc fuel) n s t = elim (Bool-cases (ltb n 10)) [
  | inl one ↦ rw one
  | inr more ↦ rw more (itoa_from-append fuel (n / 10) ((b'0' + n % 10) ∷ s) t)
]

itoa-StartsWithDigit : (fuel n : ℕ) (s : Str) → StartsWithDigit (itoa_from (suc fuel) n s)
unfolding itoa_from
itoa-StartsWithDigit fuel n s = elim (Bool-cases (ltb n 10)) [
  | inl one ↦ rw one (ground arith)
  | inr more ↦
      rw more (itoa_from-StartsWithDigit fuel (n / 10) ((b'0' + n % 10) ∷ s) (ground arith))
]

-- The number ends here.
abbrev EndsNumber : Str → Type 0
EndsNumber [] = Unit {0}
EndsNumber (c ∷ s) = is_digit c ≡ false

scan_digits_end : (n : ℕ) (s : Str) → EndsNumber s → scan_digits n s ≡ some (n, s)
unfolding scan_digits
scan_digits_end n [] h = refl
scan_digits_end n (c ∷ s) h = rw h

atoi-itoa-append : (n : ℕ) (s : Str) → n ≤ big → EndsNumber s → atoi (itoa n ++ s) ≡ some (n, s)
unfolding itoa
atoi-itoa-append n s small end =
    ap atoi (itoa_from-append (suc n) n [] s)
    ∙ atoi_of_digit _ (itoa-StartsWithDigit n n s)
    ∙ scan_digits-itoa_from (suc n) n s (omega arith) small
    ∙ scan_digits_end n s end

-- ParseHTTPVersion reads "HTTP/", a decimal number, a dot and another one back as the two numbers,
-- if they are at most 1000000.
pub parse_http_version-print :
    (major minor : ℕ)
    → major ≤ big
    → minor ≤ big
    → parse_http_version (bytes "HTTP/" ++ (itoa major ++ (b'.' ∷ itoa minor)))
      ≡ some (major, minor)
unfolding strip_prefix slice_prefix
parse_http_version-print major minor h k =
    let numbers = itoa major ++ (b'.' ∷ itoa minor) in
    parse_http_version-http (bytes "HTTP/" ++ numbers) numbers (ground arith) refl
    ∙ ap version_of (atoi-itoa-append major (b'.' ∷ itoa minor) h refl)
    ∙ ap (minor_of major) (ap atoi (sym (append-nil (itoa minor))) ∙ atoi-itoa-append minor [] k tt)

split_n-three :
    (sep : ℕ) (a b c : Str)
    → IsFree sep a
    → IsFree sep b
    → split_n sep 3 (a ++ (sep ∷ (b ++ (sep ∷ c)))) ≡ a ∷ b ∷ c ∷ []
unfolding split_n
split_n-three sep a b c h k =
    rw (cut-append sep a (b ++ (sep ∷ c)) h, split_n, cut-append sep b c k)

-- The request line of a source client is read as one of version 1.0: a method and a target without
-- spaces, and as the protocol "ICE/" with any text behind it that is not empty.
pub read_request_line-ice :
    (method uri version : Str) (c : ℕ)
    → IsFree b' ' method
    → IsFree b' ' uri
    → read_request_line (method ++ (b' ' ∷ (uri ++ (b' ' ∷ (bytes "ICE/" ++ (c ∷ version))))))
      ≡ inr (record {
        method = method;
        request_uri = uri;
        proto = bytes "ICE/" ++ (c ∷ version);
        proto_major = 1;
        proto_minor = 0;
      })
unfolding read_request_line parse_http_version slice_prefix
read_request_line-ice method uri version c h k =
    let line = method ++ (b' ' ∷ (uri ++ (b' ' ∷ (bytes "ICE/" ++ (c ∷ version))))) in
    ap (line_of line) (split_n-three b' ' method uri (bytes "ICE/" ++ (c ∷ version)) h k)
    ∙ ground arith
