-- ===== src/Ipc/Text.antt =====
-- The string routines of IFLYOSInterface.cpp: `IFLYOS_InterfaceGetLines`, the words of a
-- `std::istringstream`, and `std::atoi` (also called by IFLYOSUmbrella.cpp and MicAgent.cpp).
use sdk_linux.Prelude.{
  ℕ, zero, suc, ◌+◌, ◌-◌, ◌*◌, ◌%◌, ◌^◌, Bool, true, false, not, ◌&&◌, ◌||◌, Option, none, some,
  List, [], ◌∷◌, ◌++◌, ltb, leb, ◌==◌, if◌then◌else◌, length,
}
use sdk_linux.Prelude.Int.{ℤ, pos, neg}
use sdk_linux.Prelude.Bytes.{Bytes, find, substr, substr_from}

-- `std::isspace` in the C locale.
unfoldable pub is_space : ℕ → Bool
is_space c = c == b' ' || (leb 9 c && leb c 13)

emit : Bytes → List Bytes → List Bytes
emit [] ws = ws
emit (c ∷ w) ws = (c ∷ w) ∷ ws

-- The words that `operator>>` reads one after another; `cur` is the word being read.
unfoldable pub words_from : Bytes → Bytes → List Bytes
unfolding emit
words_from cur [] = emit cur []
words_from cur (c ∷ s) = elim (is_space c) [
  | true ↦ emit cur (words_from [] s)
  | false ↦ words_from (cur ++ c ∷ []) s
]

-- `std::vector<std::string>(istream_iterator{iss}, istream_iterator())`.
unfoldable pub words : Bytes → List Bytes
unfolding words_from is_space
words s = words_from [] s

unfoldable pub skip_space : Bytes → Bytes
skip_space [] = []
skip_space (c ∷ s) = let rest = skip_space s in if is_space c then rest else c ∷ s

-- The digits at the head of a text, behind the value `n`.
unfoldable pub digits_from : ℕ → Bytes → ℕ
digits_from n [] = n
digits_from n (c ∷ s) =
    let rest = digits_from (n * 10 + (c - b'0')) s in if leb b'0' c && leb c b'9' then rest else n

unfoldable pub signed_digits : Bytes → ℤ
unfolding digits_from
signed_digits [] = pos 0
signed_digits (c ∷ s) =
    if c == b'-'
    then neg (digits_from 0 s)
    else if c == b'+'
    then pos (digits_from 0 s)
    else pos (digits_from 0 (c ∷ s))

-- `std::atoi`: white space, a sign, digits. A value that `int` does not hold is undefined in C.
unfoldable pub atoi : Bytes → ℤ
unfolding skip_space signed_digits is_space
atoi s = signed_digits (skip_space s)

-- `size_t` has 32 bits on the Raspberry Pi that the toolchain file builds for.
abbrev pub size_mod : ℕ
size_mod = 2 ^ 32

abbrev pub npos : ℕ
npos = size_mod - 1

-- `strVal.find_first_of(c, from)`.
unfoldable pub find_first_of : ℕ → Bytes → ℕ → ℕ
find_first_of c s from = elim (find c (substr_from from s)) [ none ↦ npos | some i ↦ from + i ]

abbrev pub line_feed : ℕ
line_feed = b'\n'

-- The loop of `IFLYOS_InterfaceGetLines`, on fuel: `last` and `index` are `nLast` and `nIndex`, and
-- `index - last` is computed in `size_t`.
unfoldable pub get_lines_loop : ℕ → Bytes → ℕ → ℕ → List Bytes → Option (List Bytes)
get_lines_loop zero s last index lines = none
get_lines_loop (suc fuel) s last index lines =
    let n = (index + size_mod - last) % size_mod in
    let next = find_first_of line_feed s (index + 1) in
    let rest = get_lines_loop fuel s (index + 1) next (lines ++ substr last n s ∷ []) in
    if not (index == npos)
    then rest
    else if ltb 0 n
    then some (lines ++ substr last n s ∷ [])
    else some lines

-- `IFLYOS_InterfaceGetLines`: `vecStr` is cleared first.
unfoldable pub get_lines : Bytes → Option (List Bytes)
unfolding get_lines_loop find_first_of find
get_lines s = get_lines_loop (suc (length s)) s 0 (find_first_of line_feed s 0) []
