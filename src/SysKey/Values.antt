-- ===== src/SysKey/Values.antt =====
-- Which key a byte stands for.
use sdk_linux.Prelude.{
  sym, subst, refl, inl, inr, Option-cases, Option, ℕ, ◌%◌, ◌<◌, ◌≡◌, ◌≢◌, ◌⊎◌, false, none, some,
  arith, ◌==◌, if◌then◌else◌,
}
use sdk_linux.Prelude.Int.{is_neg, neg}
use sdk_linux.SysKey.{
  SysKeyValue, key_vol_down, key_vol_up, key_play_pause, key_mic_mute, key_vol_down_long_press,
  key_vol_up_long_press, key_play_pause_long_press, key_net_config, key_restart_iflyos,
  key_set_dnd_on, key_set_dnd_off, key_none, key_error, Polled, c2k_map, value_of_code,
  get_key_value,
}

-- A byte on the extra pipe decides, whatever else is there: 0 asks for a restart, and every other
-- byte for the network configuration.
extra_byte_decides :
    (p : Polled) (b : ℕ)
    → p.extra ≡ some b
    → get_key_value p ≡ (if b == 0 then key_restart_iflyos else key_net_config)
unfolding get_key_value
extra_byte_decides p b e = ground arith

-- With nothing on the extra pipe, a byte on the key pipe stands for what the table says of it, and
-- for no key if it is not in the table: no byte is taken for one of the two codes of the extra pipe.
-- `poll` gives -1 at least.
key_byte_decides :
    (p : Polled) (b : ℕ)
    → p.extra ≡ none
    → p.key ≡ some b
    → b < 256
    → (p.ret ≡ neg 1) ⊎ (is_neg p.ret ≡ false)
    → get_key_value p ≡ elim (c2k_map b) [ none ↦ key_none | some v ↦ v ]
unfolding get_key_value
key_byte_decides p b e f small polled = let low : b % 256 ≡ b = omega arith in ground (arith, low)

value_of_code-ne-key_error : (code : ℕ) → value_of_code code ≢ key_error
unfolding value_of_code
value_of_code-ne-key_error code = ground arith

-- A `poll` that failed or ran out of time gives no key, like a byte that stands for none: no read of
-- the keys gives the error value.
get_key_value-ne-key_error : (p : Polled) → get_key_value p ≢ key_error
unfolding get_key_value
get_key_value-ne-key_error p = ground arith

-- With no byte on either pipe there is no key, whatever `poll` returned.
no_byte_decides : (p : Polled) → p.extra ≡ none → p.key ≡ none → get_key_value p ≡ key_none
unfolding get_key_value
no_byte_decides p e f = ground arith

-- The letter that is pressed for a value, if there is one.
abbrev pub letter_of : SysKeyValue → Option ℕ
letter_of key_vol_down = some b'd'
letter_of key_vol_up = some b'u'
letter_of key_play_pause = some b'p'
letter_of key_mic_mute = some b'm'
letter_of key_vol_down_long_press = some b'D'
letter_of key_vol_up_long_press = some b'U'
letter_of key_play_pause_long_press = some b'P'
letter_of key_net_config = some b'n'
letter_of key_restart_iflyos = none
letter_of key_set_dnd_on = some b'O'
letter_of key_set_dnd_off = some b'o'
letter_of key_none = none
letter_of key_error = none

-- What a read gives for a letter: the value whose letter it is, or none if it is not the letter of
-- any value.
abbrev pub IsValueOf : ℕ → SysKeyValue → Type 0
IsValueOf b v =
    (letter_of v ≡ some b) ⊎ ((v ≡ key_none) × ((w : SysKeyValue) → letter_of w ≢ some b))

c2k_map-letter_of : (b : ℕ) (v : SysKeyValue) → c2k_map b ≡ some v → letter_of v ≡ some b
unfolding c2k_map
c2k_map-letter_of b key_vol_down h = ground (arith, h)
c2k_map-letter_of b key_vol_up h = ground (arith, h)
c2k_map-letter_of b key_play_pause h = ground (arith, h)
c2k_map-letter_of b key_mic_mute h = ground (arith, h)
c2k_map-letter_of b key_vol_down_long_press h = ground (arith, h)
c2k_map-letter_of b key_vol_up_long_press h = ground (arith, h)
c2k_map-letter_of b key_play_pause_long_press h = ground (arith, h)
c2k_map-letter_of b key_net_config h = ground (arith, h)
c2k_map-letter_of b key_restart_iflyos h = ground (arith, h)
c2k_map-letter_of b key_set_dnd_on h = ground (arith, h)
c2k_map-letter_of b key_set_dnd_off h = ground (arith, h)
c2k_map-letter_of b key_none h = ground (arith, h)
c2k_map-letter_of b key_error h = ground (arith, h)

letter_of-c2k_map : (b : ℕ) (w : SysKeyValue) → letter_of w ≡ some b → c2k_map b ≢ none
unfolding c2k_map
letter_of-c2k_map b key_vol_down h = ground (arith, h)
letter_of-c2k_map b key_vol_up h = ground (arith, h)
letter_of-c2k_map b key_play_pause h = ground (arith, h)
letter_of-c2k_map b key_mic_mute h = ground (arith, h)
letter_of-c2k_map b key_vol_down_long_press h = ground (arith, h)
letter_of-c2k_map b key_vol_up_long_press h = ground (arith, h)
letter_of-c2k_map b key_play_pause_long_press h = ground (arith, h)
letter_of-c2k_map b key_net_config h = ground (arith, h)
letter_of-c2k_map b key_restart_iflyos h = ground (arith, h)
letter_of-c2k_map b key_set_dnd_on h = ground (arith, h)
letter_of-c2k_map b key_set_dnd_off h = ground (arith, h)
letter_of-c2k_map b key_none h = ground (arith, h)
letter_of-c2k_map b key_error h = ground (arith, h)

letter-IsValueOf : (b : ℕ) → IsValueOf b (elim (c2k_map b) [ none ↦ key_none | some v ↦ v ])
letter-IsValueOf b = elim (Option-cases (c2k_map b)) [
  | inl e ↦ inr (rw e refl, λ w h. letter_of-c2k_map b w h e)
  | inr (v, e) ↦ inl (rw e (c2k_map-letter_of b v e))
]

-- The key for the bytes that are there to be read, the one on the extra pipe before the other.
abbrev pub IsKey : Option ℕ → Option ℕ → SysKeyValue → Type 0
IsKey (some b) key v = v ≡ (if b == 0 then key_restart_iflyos else key_net_config)
IsKey none (some b) v = IsValueOf b v
IsKey none none v = v ≡ key_none

-- `poll` gives -1 at least, and a byte is below 256. Then a byte on the extra pipe decides, 0 for a
-- restart and any other for the network configuration; else a byte on the key pipe gives the value
-- whose letter it is, and none if it is not the letter of any value; and with no byte there is no
-- key. The error value is never returned, not even when `poll` failed.
pub get_key_value-IsKey :
    (p : Polled)
    → (p.ret ≡ neg 1) ⊎ (is_neg p.ret ≡ false)
    → ((b : ℕ) → p.key ≡ some b → b < 256)
    → IsKey p.extra p.key (get_key_value p) × (get_key_value p ≢ key_error)
get_key_value-IsKey p polled bytes = (
  elim (Option-cases p.extra) [
    | inr (b, e) ↦ simp e (extra_byte_decides p b e)
    | inl e ↦ elim (Option-cases p.key) [
      | inr (b, f) ↦
          let value =
            subst (IsValueOf b) (sym (key_byte_decides p b e f (bytes b f) polled))
              (letter-IsValueOf b) in
          subst (λ x. IsKey x p.key (get_key_value p)) (sym e)
            (subst (λ y. IsKey none y (get_key_value p)) (sym f) value)
      | inl f ↦ simp (e, f) (no_byte_decides p e f)
    ]
  ],
  get_key_value-ne-key_error p,
)
