-- ===== src/SysKey/Tests.antt =====
-- Key reads at concrete inputs.
use sdk_linux.Prelude.{◌≡◌, ◌≢◌, refl, inr, none, some, arith}
use sdk_linux.Prelude.Int.{pos, neg}
use sdk_linux.SysKey.{Polled, key_restart_iflyos, key_none, key_error, get_key_value}
use sdk_linux.SysKey.Values.{IsKey, get_key_value-IsKey}

abbrev extra_zero : Polled
extra_zero = record { ret = pos 1; extra = some 0; key = some b'u' }

abbrev volume_key : Polled
volume_key = record { ret = pos 1; extra = none; key = some b'u' }

abbrev failed : Polled
failed = record { ret = neg 1; extra = none; key = none }

failed_poll : get_key_value failed ≡ key_none
unfolding get_key_value
failed_poll = refl

restart_byte : get_key_value extra_zero ≡ key_restart_iflyos
unfolding get_key_value
restart_byte = refl

get_key_value-IsKey_example :
    IsKey none (some b'u') (get_key_value volume_key) × (get_key_value volume_key ≢ key_error)
get_key_value-IsKey_example = get_key_value-IsKey volume_key (inr refl) (λ b e. grind arith)
