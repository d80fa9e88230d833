-- ===== src/Manager/Sound/Calls.antt =====
-- The methods of shout/shout.go but Send make no call of shout_send, and those but DestroyShout
-- none of shout_free.
use icecast_proxy_go.Prelude.{
  ◌≡◌, ◌≢◌, false, refl, List, [], ◌∷◌, Option, none, some, Str, text_eq, arith, Go, state_of, ◌>>◌,
}
use icecast_proxy_go.Shout.{
  Call, Shout, LibShout, close, destroy_shout, send_metadata, is_freed, shout_send, shout_free,
}
use icecast_proxy_go.Shout.Options.{option_call, apply_options, new_shout, perform}
use icecast_proxy_go.Mount.Laws.{IsGuarded}

-- The computation makes no call of shout_send that was not guarded, and none of shout_free.
pub record IsPlainly (lib : LibShout) {A : Type 0} (k : Go Shout A) : Type 0 where
  pub apply : (s : Shout) → IsGuarded lib s.calls → IsGuarded lib (state_of (k s)).calls
  pub keeps : (s : Shout) → is_freed s.calls ≡ false → is_freed (state_of (k s)).calls ≡ false

pub close-IsPlainly : (lib : LibShout) → IsPlainly lib (close lib)
unfolding close
close-IsPlainly lib = record { apply = λ s g. ground (arith, g); keeps = λ s f. ground (arith, f) }

-- DestroyShout sends nothing, but frees.
pub destroy_shout-IsGuarded :
    (lib : LibShout) (s : Shout)
    → IsGuarded lib s.calls
    → IsGuarded lib (state_of (destroy_shout lib s)).calls
unfolding destroy_shout
destroy_shout-IsGuarded lib s g = g

pub send_metadata-IsPlainly : (lib : LibShout) (meta : Str) → IsPlainly lib (send_metadata lib meta)
unfolding send_metadata
send_metadata-IsPlainly lib meta = record {
  apply = λ s g. ground (arith, g);
  keeps = λ s f. ground (arith, f);
}

-- The call is neither shout_send nor shout_free.
abbrev IsPlain : Option Call → Type 0
IsPlain none = Unit {0}
IsPlain (some (shout_send d)) = ⊥
IsPlain (some shout_free) = ⊥
IsPlain (some _) = Unit {0}

not_send : (lib : LibShout) (key value d : Str) → option_call lib key value ≢ some (shout_send d)
unfolding option_call
not_send lib key value d e = ground (arith, e)

not_free : (lib : LibShout) (key value : Str) → option_call lib key value ≢ some shout_free
unfolding option_call
not_free lib key value e = ground (arith, e)

IsPlain-of_not :
    (o : Option Call) → ((d : Str) → o ≢ some (shout_send d)) → o ≢ some shout_free → IsPlain o
IsPlain-of_not none h k = tt
IsPlain-of_not (some (shout_send d)) h k = h d refl
IsPlain-of_not (some shout_free) h k = k refl
IsPlain-of_not (some _) h k = tt

option-IsPlain : (lib : LibShout) (key value : Str) → IsPlain (option_call lib key value)
option-IsPlain lib key value =
    IsPlain-of_not (option_call lib key value) (not_send lib key value) (not_free lib key value)

perform-IsGuarded :
    (lib : LibShout) (o : Option Call) (s : Shout)
    → IsPlain o
    → IsGuarded lib s.calls
    → IsGuarded lib (state_of (perform lib o s)).calls
perform-IsGuarded lib none s h g = g
perform-IsGuarded lib (some c) s h g = ground (arith, h, g)

perform-is_freed :
    (lib : LibShout) (o : Option Call) (s : Shout)
    → IsPlain o
    → is_freed s.calls ≡ false
    → is_freed (state_of (perform lib o s)).calls ≡ false
perform-is_freed lib none s h f = f
perform-is_freed lib (some c) s h f = ground (arith, h, f)

pub apply_options-IsPlainly :
    (lib : LibShout) (options : List (Str × Str)) → IsPlainly lib (apply_options lib options)
unfolding apply_options
apply_options-IsPlainly lib [] = record { apply = λ s g. g; keeps = λ s f. f }
apply_options-IsPlainly lib ((key, value) ∷ options) = record {
  apply = λ s g.
      after (option_call lib key value) s (apply_options-IsPlainly lib options)
        (option-IsPlain lib key value) g;
  keeps = λ s f.
      unfreed (option_call lib key value) s (apply_options-IsPlainly lib options)
        (option-IsPlain lib key value) f;
}
  where
    after :
        (o : Option Call) (s : Shout)
        → IsPlainly lib (apply_options lib options)
        → IsPlain o
        → IsGuarded lib s.calls
        → IsGuarded lib (state_of ((do perform lib o; apply_options lib options) s)).calls
    after none s later h g = later.apply s g
    after (some c) s later h g =
        later.apply (record { calls = c ∷ s.calls }) (perform-IsGuarded lib (some c) s h g)

    unfreed :
        (o : Option Call) (s : Shout)
        → IsPlainly lib (apply_options lib options)
        → IsPlain o
        → is_freed s.calls ≡ false
        → is_freed (state_of ((do perform lib o; apply_options lib options) s)).calls ≡ false
    unfreed none s later h f = later.keeps s f
    unfreed (some c) s later h f =
        later.keeps (record { calls = c ∷ s.calls }) (perform-is_freed lib (some c) s h f)

-- A new connection was not freed.
pub new_shout-is_freed :
    (lib : LibShout) (options : List (Str × Str))
    → is_freed (state_of (new_shout lib options (record { calls = [] }))).calls ≡ false
unfolding new_shout
new_shout-is_freed lib options = (apply_options-IsPlainly lib options).keeps _ refl

-- A new connection has sent nothing.
pub new_shout-IsGuarded :
    (lib : LibShout) (options : List (Str × Str))
    → IsGuarded lib (state_of (new_shout lib options (record { calls = [] }))).calls
unfolding new_shout
new_shout-IsGuarded lib options = (apply_options-IsPlainly lib options).apply _ tt
