-- ===== src/Shout/Options.antt =====
-- NewShout and ApplyOptions of shout/shout.go, with strconv.Atoi.
use icecast_proxy_go.Prelude.{
  ℕ, ℤ, pos, negsuc, to_u16, suc, zero, ◌+◌, ◌-◌, ◌*◌, ◌^◌, Bool, ◌&&◌, ◌||◌, List, [], ◌∷◌, Option,
  none, some, Str, bytes, ◌==◌, leb, ltb, str_eq, if◌then◌else◌, lookup, text_eq, Go, ◌>>◌, skip,
}
use icecast_proxy_go.Shout.{
  Call, shout_new, shout_metadata_new, shout_metadata_add, shout_set_host, shout_set_user,
  shout_set_password, shout_set_mount, shout_set_dumpfile, shout_set_agent, shout_set_name,
  shout_set_url, shout_set_genre, shout_set_description, shout_set_port, shout_set_protocol,
  shout_set_format, shout_set_public, shout_set_audio_info, Shout, LibShout, call,
}

-- The decimal value of the digits, after those that were read; none at another byte.
unfoldable pub digits_value : ℕ → Str → Option ℕ
digits_value acc [] = some acc
digits_value acc (c ∷ s) =
    let rest = digits_value (acc * 10 + (c - b'0')) s in
    if leb b'0' c && leb c b'9' then rest else none

-- At least one digit, and nothing else.
abbrev pub magnitude : Str → Option ℕ
magnitude [] = none
magnitude (c ∷ s) = digits_value 0 (c ∷ s)

abbrev pub as_pos : Option ℕ → Option ℤ
as_pos none = none
as_pos (some n) = if ltb n (2 ^ 63) then some (pos n) else none

abbrev pub as_neg : Option ℕ → Option ℤ
as_neg none = none
as_neg (some zero) = some (pos 0)
as_neg (some (suc n)) = if ltb n (2 ^ 63) then some (negsuc n) else none

-- strconv.Atoi: `none` is its error.
unfoldable pub atoi : Str → Option ℤ
unfolding digits_value
atoi [] = none
atoi (c ∷ s) =
    if c == b'-'
    then as_neg (magnitude s)
    else if c == b'+'
    then as_pos (magnitude s)
    else as_pos (magnitude (c ∷ s))

abbrev pub value_or {ℓ} : {A : Type ℓ} → A → Option A → A
value_or d none = d
value_or d (some a) = a

abbrev pub is_audio_key : Str → Bool
is_audio_key key =
    str_eq key (bytes "bitrate")
    || str_eq key (bytes "samplerate")
    || str_eq key (bytes "channels")
    || str_eq key (bytes "quality")

module _ (lib : LibShout) where
  -- The maps Protocols, Formats and AudioParams.
  unfoldable pub protocols : List (Str × ℕ)
  protocols =
      (bytes "HTTP", lib.protocol_http)
      ∷ (bytes "XAUDIOCAST", lib.protocol_xaudiocast)
      ∷ (bytes "ICY", lib.protocol_icy)
      ∷ []

  unfoldable pub formats : List (Str × ℕ)
  formats = (bytes "OGG", lib.format_ogg) ∷ (bytes "MP3", lib.format_mp3) ∷ []

  unfoldable pub audio_params : List (Str × Str)
  audio_params =
      (bytes "bitrate", lib.ai_bitrate)
      ∷ (bytes "channels", lib.ai_channels)
      ∷ (bytes "samplerate", lib.ai_samplerate)
      ∷ (bytes "quality", lib.ai_quality)
      ∷ []

  -- The switch of ApplyOptions: the call for one option, if there is one. A missing key of a map
  -- reads as the zero value.
  unfoldable pub option_call : Str → Str → Option Call
  unfolding protocols formats audio_params atoi lookup str_eq
  option_call key value =
      if str_eq key (bytes "host")
      then some (shout_set_host value)
      else if str_eq key (bytes "port")
      then elim (atoi value) [ none ↦ none | some temp ↦ some (shout_set_port (to_u16 temp)) ]
      else if str_eq key (bytes "user")
      then some (shout_set_user value)
      else if str_eq key (bytes "passwd")
      then some (shout_set_password value)
      else if str_eq key (bytes "protocol")
      then some (shout_set_protocol (value_or 0 (lookup value protocols)))
      else if str_eq key (bytes "format")
      then some (shout_set_format (value_or 0 (lookup value formats)))
      else if str_eq key (bytes "mount")
      then some (shout_set_mount value)
      else if str_eq key (bytes "dumpfile")
      then some (shout_set_dumpfile value)
      else if str_eq key (bytes "agent")
      then some (shout_set_agent value)
      else if str_eq key (bytes "public")
      then some (
          shout_set_public
            (if str_eq value (bytes "true") || str_eq value (bytes "1") then 1 else 0))
      else if str_eq key (bytes "name")
      then some (shout_set_name value)
      else if str_eq key (bytes "url")
      then some (shout_set_url value)
      else if str_eq key (bytes "genre")
      then some (shout_set_genre value)
      else if str_eq key (bytes "description")
      then some (shout_set_description value)
      else if is_audio_key key
      then some (shout_set_audio_info (value_or [] (lookup value audio_params)) value)
      else none

  abbrev pub perform : Option Call → Go Shout (Unit {0})
  perform none = skip
  perform (some c) = do call lib c; skip

  -- The loop of ApplyOptions, over the options in the order in which the map yields them.
  unfoldable pub apply_options : List (Str × Str) → Go Shout (Unit {0})
  unfolding option_call
  apply_options [] = skip
  apply_options ((key, value) ∷ options) = do perform (option_call key value); apply_options options

  unfoldable pub new_shout : List (Str × Str) → Go Shout (Unit {0})
  unfolding apply_options
  new_shout options = do
    call lib shout_new
    call lib shout_metadata_new
    call lib (shout_metadata_add (bytes "charset") (bytes "UTF8"))
    apply_options options
