-- ===== src/SysKey.antt =====
-- MicAgent/syskey.h and MicAgent/syskey.cpp: key presses read from two pipes.
pub mod Values
mod Tests
use sdk_linux.Prelude.{
  ℕ, ◌+◌, ◌-◌, ◌*◌, ◌/◌, ◌%◌, Bool, true, false, Option, none, some, List, [], ◌∷◌, ltb, ◌==◌,
  if◌then◌else◌,
}
use sdk_linux.Prelude.Int.{ℤ, pos, negsuc, neg, is_neg}

pub data SysKeyValue : Type 0 where
  key_vol_down key_vol_up key_play_pause key_mic_mute : SysKeyValue
  key_vol_down_long_press key_vol_up_long_press key_play_pause_long_press : SysKeyValue
  key_net_config key_restart_iflyos key_set_dnd_on key_set_dnd_off key_none key_error : SysKeyValue

abbrev pub user_defined_key_netconfig : ℕ
user_defined_key_netconfig = 10001

abbrev pub user_defined_key_restart_iflyos : ℕ
user_defined_key_restart_iflyos = 10011

-- `key_fd_wr`, `key_fd_rd` and `extra_fd`; `opened` counts the descriptors that `pipe` made here.
pub record Keys : Type 0 where
  pub key_fd_wr : ℤ
  pub key_fd_rd : ℤ
  pub extra_fd : ℤ
  pub opened : ℕ

-- `getCurrentSysTime_ms`: seconds with nanoseconds, or with microseconds, as milliseconds.
pub data EmSysTime : Type 0 where
  from_boot utc : EmSysTime

unfoldable pub get_current_sys_time_ms : EmSysTime → ℕ → ℕ → ℕ
get_current_sys_time_ms from_boot sec nsec = sec * 1000 + nsec / (1000 * 1000)
get_current_sys_time_ms utc sec usec = sec * 1000 + usec / 1000

-- `SYSKey_getKeyVauleCheckLongPress`.
unfoldable pub get_key_value_check_long_press : ℕ → Bool → SysKeyValue
get_key_value_check_long_press code long_press =
    if code == 114
    then (if long_press then key_vol_down_long_press else key_vol_down)
    else if code == 113
    then (if long_press then key_vol_up_long_press else key_vol_up)
    else if code == 143
    then (if long_press then key_play_pause_long_press else key_play_pause)
    else if code == 115
    then (if long_press then key_net_config else key_mic_mute)
    else key_error

-- What `poll` found: its result, and the first byte that `read` gave from a descriptor with POLLIN.
pub record Polled : Type 0 where
  pub ret : ℤ
  pub extra : Option ℕ
  pub key : Option ℕ

-- `char` has no sign on the ARM processor of the Raspberry Pi: a byte goes unchanged into `code`.
-- The result is the new `code` and what `SYSKey_getKeyEvent` returns.
unfoldable pub get_key_event : Polled → ℕ → ℕ × ℤ
get_key_event p code = elim p.extra [
  | some b ↦ (if b == 0 then user_defined_key_restart_iflyos else user_defined_key_netconfig, pos 0)
  | none ↦ (
    elim p.key [ some b ↦ b | none ↦ code ],
    elim p.ret [ pos n ↦ pos 0 | negsuc n ↦ if n == 0 then pos 0 else negsuc n ],
  )
]

-- `C2KMap`.
unfoldable pub c2k_map : ℕ → Option SysKeyValue
c2k_map c =
    if c == b'u'
    then some key_vol_up
    else if c == b'U'
    then some key_vol_up_long_press
    else if c == b'd'
    then some key_vol_down
    else if c == b'D'
    then some key_vol_down_long_press
    else if c == b'm'
    then some key_mic_mute
    else if c == b'p'
    then some key_play_pause
    else if c == b'P'
    then some key_play_pause_long_press
    else if c == b'n'
    then some key_net_config
    else if c == b'O'
    then some key_set_dnd_on
    else if c == b'o'
    then some key_set_dnd_off
    else none

-- The body of the loop on a `code` of 16 bits; `(char)key_event.code` is its low byte.
unfoldable pub value_of_code : ℕ → SysKeyValue
unfolding c2k_map
value_of_code code =
    if code == user_defined_key_netconfig
    then key_net_config
    else if code == user_defined_key_restart_iflyos
    then key_restart_iflyos
    else elim (c2k_map (code % 256)) [ none ↦ key_none | some v ↦ v ]

abbrev pub is_zero_ret : ℤ → Bool
is_zero_ret (pos n) = n == 0
is_zero_ret (negsuc n) = false

-- `SYSKey_getKeyVaule`: every path through the body of its `while` returns.
unfoldable pub get_key_value : Polled → SysKeyValue
unfolding get_key_event value_of_code
get_key_value p =
    let (code, ret) = get_key_event p 0 in if is_zero_ret ret then value_of_code code else key_none

-- `SysKey_Init`: `fd0` and `fd1` are what stands in `fd` behind the call of `pipe`, and `made` says
-- whether that call made a pipe.
unfoldable pub init : Bool → ℤ → ℤ → ℤ → Keys → Keys × ℤ
init made fd0 fd1 extra k =
    let count = if made then k.opened + 2 else k.opened in
    let k' = record k { key_fd_rd = fd0; key_fd_wr = fd1; extra_fd = extra; opened = count } in
    (k', if is_neg fd0 then neg 1 else fd1)

-- `SysKey_Uninit` closes the two descriptors that are known.
unfoldable pub uninit : Keys → Keys × ℤ
uninit k = (record k { opened = k.opened - 2 }, pos 0)
