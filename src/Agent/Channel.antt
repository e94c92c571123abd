-- ===== src/Agent/Channel.antt =====
-- The pipe `restartChannel` from the handlers to the keys: the byte that a handler writes and the
-- key that `SYSKey_getKeyVaule` makes of it.
use sdk_linux.Prelude.{
  append-nil, true, false, if◌then◌else◌, append_assoc, sym, ap, none, ◌++◌, some, ◌≡◌, ℕ, List, [],
  ◌∷◌, ◌++◌, arith, refl, ap, ◌∙◌, ◌≡◌, none, some,
}
use sdk_linux.Prelude.Int.{is_neg, ℤ}
use sdk_linux.Agent.State.{Agent, Effect, write_restart}
use sdk_linux.Agent.Events.{revoke_auth, token_expired, auth_error, factory_reset}
use sdk_linux.SysKey.{SysKeyValue, key_restart_iflyos, key_net_config, get_key_value}

abbrev pub byte_of : Effect → List ℕ
byte_of (write_restart fd b) = if is_neg fd then [] else b ∷ []
byte_of _ = []

-- The bytes written to the pipe, the oldest first.
unfoldable pub written : List Effect → List ℕ
written [] = []
written (e ∷ es) = byte_of e ++ written es

-- The keys that the loop reads from the pipe, one for each byte; `ret` is what `poll` returns.
unfoldable pub keys_of : ℤ → List ℕ → List SysKeyValue
keys_of ret [] = []
keys_of ret (b ∷ bs) =
    get_key_value (record { ret = ret; extra = some b; key = none }) ∷ keys_of ret bs

written-append : (es fs : List Effect) → written (es ++ fs) ≡ written es ++ written fs
unfolding written
written-append [] fs = refl
written-append (e ∷ es) fs =
    ap (◌++◌ (byte_of e)) (written-append es fs)
    ∙ sym (append_assoc (byte_of e) (written es) (written fs))

keys_of-append :
    (ret : ℤ) (cs bs : List ℕ) → keys_of ret (cs ++ bs) ≡ keys_of ret cs ++ keys_of ret bs
unfolding keys_of
keys_of-append ret [] bs = refl
keys_of-append ret (c ∷ cs) bs = ground (arith, keys_of-append ret cs bs)

pending_lem :
    (ret : ℤ) (es fs : List Effect)
    → keys_of ret (written (es ++ fs)) ≡ keys_of ret (written es) ++ keys_of ret (written fs)
pending_lem ret es fs =
    ap (keys_of ret) (written-append es fs) ∙ keys_of-append ret (written es) (written fs)

-- The keys that the loop reads behind what has been written to the pipe so far.
unfoldable pub pending : ℤ → Agent → List SysKeyValue
pending ret s = keys_of ret (written s.effects)

-- Once `main` has made the pipe, a revoked authorization puts the key for a restart into it, while an
-- expired token, an error of the authorization and a factory reset put the one for the configuration
-- of the network into it: one key for each message, behind those already there.
pub pending-handlers :
    (s : Agent) (ret : ℤ)
    → is_neg s.restart_channel ≡ false
    → (pending ret (revoke_auth s) ≡ pending ret s ++ key_restart_iflyos ∷ [])
      × (pending ret (token_expired s) ≡ pending ret s ++ key_net_config ∷ [])
      × (pending ret (auth_error s) ≡ pending ret s ++ key_net_config ∷ [])
      × (pending ret (factory_reset s) ≡ pending ret s ++ key_net_config ∷ [])
unfolding pending revoke_auth token_expired auth_error factory_reset written keys_of get_key_value
pending-handlers s ret made = (
  pending_lem ret s.effects _ ∙ rw made refl,
  pending_lem ret s.effects _ ∙ rw made refl,
  pending_lem ret s.effects _ ∙ rw made refl,
  pending_lem ret s.effects _ ∙ rw made refl,
)

-- Before that, from `IFLYOS_InterfaceInit` on, the byte is written to the descriptor -1, and no key
-- comes of it.
pub no_pipe-handlers :
    (s : Agent) (ret : ℤ)
    → is_neg s.restart_channel ≡ true
    → (pending ret (revoke_auth s) ≡ pending ret s)
      × (pending ret (token_expired s) ≡ pending ret s)
      × (pending ret (auth_error s) ≡ pending ret s)
      × (pending ret (factory_reset s) ≡ pending ret s)
unfolding pending revoke_auth token_expired auth_error factory_reset written keys_of get_key_value
no_pipe-handlers s ret unmade = (
  pending_lem ret s.effects _ ∙ rw unmade (append-nil (pending ret s)),
  pending_lem ret s.effects _ ∙ rw unmade (append-nil (pending ret s)),
  pending_lem ret s.effects _ ∙ rw unmade (append-nil (pending ret s)),
  pending_lem ret s.effects _ ∙ rw unmade (append-nil (pending ret s)),
)
