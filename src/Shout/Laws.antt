-- ===== src/Shout/Laws.antt =====
-- What the wrapper makes of libshout's answers.
use icecast_proxy_go.Prelude.{
  ==ℤ_iff, ◌≡◌, ◌⊎◌, ◌↔◌, inl, inr, true, false, [], ◌∷◌, Option, none, some, Str, bytes, arith,
  str_eq_iff, lookup, text_eq, IsDone, done_of_IsDone, done,
}
use icecast_proxy_go.Shout.{
  Shout, ShoutError, LibShout, shout_metadata_add, shout_set_metadata, shout_set_audio_info,
  send_metadata,
}
use icecast_proxy_go.Shout.Options.{audio_params, option_call, is_audio_key}

-- SendMetadata makes its two library calls and returns no error exactly if both succeed, the second
-- on the history that the first leaves.
pub send_metadata-nil_iff :
    (lib : LibShout) (meta : Str) (s : Shout)
    → let added = shout_metadata_add (bytes "song") meta ∷ s.calls in
      (send_metadata lib meta s ≡ done none (record { calls = shout_set_metadata ∷ added })) ↔ (
        (lib.result s.calls (shout_metadata_add (bytes "song") meta) ≡ lib.err_success)
        × (lib.result added shout_set_metadata ≡ lib.err_success))
unfolding send_metadata
send_metadata-nil_iff lib meta s =
    let add = shout_metadata_add (bytes "song") meta in
    ground (
      arith,
      ==ℤ_iff (lib.result s.calls add) lib.err_success,
      ==ℤ_iff (lib.result (add ∷ s.calls) shout_set_metadata) lib.err_success,
    )

audio_params-missing :
    (lib : LibShout) (value : Str)
    → is_audio_key value ≡ false
    → lookup value (audio_params lib) ≡ none
unfolding lookup audio_params
audio_params-missing lib value h = ground (
  arith,
  str_eq_iff value (bytes "bitrate"),
  str_eq_iff (bytes "bitrate") value,
  str_eq_iff value (bytes "samplerate"),
  str_eq_iff (bytes "samplerate") value,
  str_eq_iff value (bytes "channels"),
  str_eq_iff (bytes "channels") value,
  str_eq_iff value (bytes "quality"),
  str_eq_iff (bytes "quality") value,
)

audio_key-cases :
    (key : Str)
    → is_audio_key key ≡ true
    → (key ≡ bytes "bitrate")
      ⊎ ((key ≡ bytes "samplerate") ⊎ ((key ≡ bytes "channels") ⊎ (key ≡ bytes "quality")))
audio_key-cases key h = ground (
  arith,
  str_eq_iff key (bytes "bitrate"),
  str_eq_iff key (bytes "samplerate"),
  str_eq_iff key (bytes "channels"),
  str_eq_iff key (bytes "quality"),
)

-- For each of the four audio options, if the option's value is not itself the name of one, then
-- libshout is given an empty parameter name.
pub option_call_unnamed :
    (lib : LibShout) (key value : Str)
    → is_audio_key key ≡ true
    → is_audio_key value ≡ false
    → option_call lib key value ≡ some (shout_set_audio_info [] value)
unfolding option_call
option_call_unnamed lib key value k v =
    let missing = audio_params-missing lib value v in
    elim (audio_key-cases key k) [
      | inl e ↦ rw e (rw missing)
      | inr (inl e) ↦ rw e (rw missing)
      | inr (inr (inl e)) ↦ rw e (rw missing)
      | inr (inr (inr e)) ↦ rw e (rw missing)
    ]

-- SendMetadata neither panics nor waits.
pub send_metadata-done :
    (lib : LibShout) (meta : Str) (s : Shout)
    → (r : Option ShoutError) × (t : Shout) × (send_metadata lib meta s ≡ done r t)
unfolding send_metadata
send_metadata-done lib meta s = done_of_IsDone (send_metadata lib meta s) (is_done s)
  where
    is_done : (s : Shout) → IsDone (send_metadata lib meta s)
    is_done s = ground arith
