-- ===== src/Shout.antt =====
-- shout/shout.go. The C library libshout is the parameter LibShout: a connection is the history of
-- the calls made on its shout_t and shout_metadata_t, and the library answers by that history.
pub mod Options
pub mod Laws
use icecast_proxy_go.Prelude.{
  ℕ, ℤ, pos, ◌==ℤ◌, Bool, true, false, not, List, [], ◌∷◌, Option, none, some, Str, bytes, str_eq,
  if◌then◌else◌, Go, done, ◌>>=◌, ◌>>◌, return, skip, panic, gets, modify,
}

-- The calls of libshout, with their arguments.
pub data Call : Type 0 where
  shout_new shout_metadata_new shout_free shout_metadata_free : Call
  shout_open shout_close shout_set_metadata shout_sync : Call
  shout_metadata_add : Str → Str → Call
  shout_send : Str → Call
  shout_set_host shout_set_user shout_set_password shout_set_mount : Str → Call
  shout_set_dumpfile shout_set_agent shout_set_name shout_set_url : Str → Call
  shout_set_genre shout_set_description : Str → Call
  shout_set_port shout_set_protocol shout_set_format shout_set_public : ℕ → Call
  shout_set_audio_info : Str → Str → Call

-- Shout: its calls, newest first.
pub record Shout : Type 0 where
  pub calls : List Call

-- Whether shout_free was called: any later use of the shout_t or its metadata is undefined behaviour.
abbrev pub is_freed : List Call → Bool
is_freed [] = false
is_freed (shout_free ∷ calls) = true
is_freed (_ ∷ calls) = is_freed calls

-- What libshout answers: the int that a call returns after a history, what the reading calls
-- return at a history, and the constants of its header.
pub record LibShout : Type 0 where
  pub result : List Call → Call → ℤ
  pub get_connected : List Call → ℤ
  pub delay : List Call → ℤ
  pub errno : List Call → ℤ
  pub error : List Call → Str
  pub err_success : ℤ
  pub err_insane : ℤ
  pub err_malloc : ℤ
  pub err_connected : ℤ
  pub protocol_http : ℕ
  pub protocol_xaudiocast : ℕ
  pub protocol_icy : ℕ
  pub format_ogg : ℕ
  pub format_mp3 : ℕ
  pub ai_bitrate : Str
  pub ai_channels : Str
  pub ai_samplerate : Str
  pub ai_quality : Str

pub record ShoutError : Type 0 where
  pub errno : ℤ
  pub err_str : Str

module _ (lib : LibShout) where
  -- A C call: it is recorded, and its int returned.
  abbrev pub call : Call → Go Shout ℤ
  call c s = done (lib.result s.calls c) (record { calls = c ∷ s.calls })

  unfoldable pub create_shout_error : Go Shout ShoutError
  create_shout_error s = done (record { errno = lib.errno s.calls; err_str = lib.error s.calls }) s

  -- `return nil`, or the error of the library; `none` is a nil error.
  abbrev pub nil_if : Bool → Go Shout (Option ShoutError)
  nil_if true = return none
  nil_if false = do e ← create_shout_error; return (some e)

  unfoldable pub open_shout : Go Shout (Option ShoutError)
  unfolding create_shout_error
  open_shout = do err ← call shout_open; nil_if (err ==ℤ pos 0)

  unfoldable pub close : Go Shout (Option ShoutError)
  unfolding create_shout_error
  close = do err ← call shout_close; nil_if (err ==ℤ pos 0)

  -- Send: `&data[0]` is out of range where there are no data.
  unfoldable pub send : Str → Go Shout (Option ShoutError)
  unfolding create_shout_error
  send [] = panic (bytes "index out of range")
  send (b ∷ rest) = do res ← call (shout_send (b ∷ rest)); nil_if (res ==ℤ lib.err_success)

  unfoldable pub send_metadata : Str → Go Shout (Option ShoutError)
  unfolding create_shout_error
  send_metadata meta = do
    i ← call (shout_metadata_add (bytes "song") meta)
    if i ==ℤ lib.err_success
        then (do j ← call shout_set_metadata; nil_if (j ==ℤ lib.err_success))
        else nil_if false

  unfoldable pub connected : Go Shout Bool
  connected s = done (lib.get_connected s.calls ==ℤ lib.err_connected) s

  unfoldable pub sync : Go Shout (Unit {0})
  sync = do call shout_sync; skip

  unfoldable pub delay : Go Shout ℤ
  delay s = done (lib.delay s.calls) s

  unfoldable pub destroy_shout : Go Shout (Unit {0})
  destroy_shout = do call shout_free; call shout_metadata_free; skip
