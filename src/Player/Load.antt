-- ===== src/Player/Load.antt =====
-- The constructor of PCMPlayer.cpp: the files read into memory.
use sdk_linux.Prelude.{
  ℕ, if◌then◌else◌, ◌&&◌, not, ◌==◌, length-take, length-replicate, append-nil, ap, sym, ◌∙◌, zero,
  suc, ◌+◌, ◌-◌, ◌*◌, ◌/◌, ◌≤◌, ◌≡◌, refl, arith, Bool, true, false, List, [], ◌∷◌, ◌++◌, ltb, leb,
  Option, none, some, length, take, drop, replicate,
}
use sdk_linux.Prelude.Bytes.{Bytes}
use sdk_linux.Prelude.Dict.{Dict, insert}
use sdk_linux.Player.{Player}

-- `n` bytes written at position `at` of a buffer; `none` if they do not fit.
unfoldable pub blit : Bytes → ℕ → Bytes → Option Bytes
blit buffer pos bytes =
    if leb (pos + length bytes) (length buffer)
    then some (take pos buffer ++ bytes ++ drop (pos + length bytes) buffer)
    else none

-- The loop that reads, on fuel. `ifs.read` gives as many bytes as are asked for or are left: `rest`
-- is what is left of the file, `data_ptr` the index of `dataPtr` in the cache.
unfoldable pub load_loop : ℕ → Bytes → Bytes → ℕ → ℕ → Option Bytes
unfolding blit
load_loop zero rest cache data_ptr offset = none
load_loop (suc fuel) rest cache data_ptr offset =
    let got = take (length cache - offset) rest in
    let left = drop (length cache - offset) rest in
    if not (ltb offset (length cache))
    then some cache
    else if length got == 0
    then some cache
    else elim (blit cache (data_ptr + offset) got) [
      | none ↦ none
      | some cache' ↦ load_loop fuel left cache' (data_ptr + offset) (offset + length got)
    ]

-- The cache of a file: `size` is rounded up to an even number and halved. It is an `int`: a file is
-- taken to be shorter than 2^31 - 1 bytes.
unfoldable pub load : ℕ → Bytes → Option Bytes
load fuel content =
    let size = (length content + 1) / 2 * 2 in load_loop fuel content (replicate (size / 2) 0) 0 0

-- The loop over the files, where `none` is a file that does not open: the constructor returns there.
-- The Boolean says whether all files were read.
unfoldable pub load_all : ℕ → List (Bytes × Option Bytes) → Dict Bytes → Option (Dict Bytes × Bool)
load_all fuel [] m = some (m, true)
load_all fuel ((file, none) ∷ files) m = some (m, false)
load_all fuel ((file, some content) ∷ files) m = elim (load fuel content) [
  | none ↦ none
  | some cache ↦ load_all fuel files (insert file cache m)
]

-- The constructor; `opened` says whether PortAudio gave a stream.
unfoldable pub construct : ℕ → List (Bytes × Option Bytes) → Bool → Option Player
construct fuel files opened = elim (load_all fuel files []) [
  | none ↦ none
  | some (m, all) ↦ some (record {
    stream = all && opened;
    map_buffer = m;
    current_playing = none;
    current_playing_sample_offset = 0;
    vol = 100;
    queue = [];
    calls = [];
  })
]

-- The files whose first halves the map has, in order.
unfoldable pub halves : List (Bytes × Bytes) → Dict Bytes → Dict Bytes
unfolding insert
halves [] m = m
halves ((file, content) ∷ files) m =
    halves files (insert file (take ((length content + 1) / 2) content) m)

unfoldable pub readable : List (Bytes × Bytes) → List (Bytes × Option Bytes)
readable [] = []
readable ((file, content) ∷ files) = (file, some content) ∷ readable files

drop_all : (xs : Bytes) → drop (length xs) xs ≡ []
drop_all [] = refl
drop_all (x ∷ xs) = drop_all xs

blit_whole :
    (buffer bytes : Bytes) → length bytes ≡ length buffer → blit buffer 0 bytes ≡ some bytes
unfolding blit
blit_whole buffer bytes e = rw e (ground (arith, drop_all buffer, append-nil bytes))

-- One read fills the cache, and the next round ends the loop.
load_loop_lem :
    (fuel k : ℕ) (content : Bytes)
    → k ≤ length content
    → load_loop (suc (suc fuel)) content (replicate k 0) 0 0 ≡ some (take k content)
unfolding load_loop
load_loop_lem fuel zero content h = ground arith
load_loop_lem fuel (suc k) content h =
    let full : length (take (suc k) content) ≡ suc k = omega (arith, length-take (suc k) content) in
    let blank : Bytes = replicate (suc k) 0 in
    let size : length blank ≡ suc k = length-replicate (suc k) 0 in
    let fills = blit_whole blank (take (suc k) content) (full ∙ sym size) in
    ground (arith, size, full, fills)

load_lem :
    (fuel : ℕ) (content : Bytes)
    → 2 ≤ fuel
    → load fuel content ≡ some (take ((length content + 1) / 2) content)
unfolding load
load_lem zero content enough = absurd (omega arith)
load_lem (suc zero) content enough = absurd (omega arith)
load_lem (suc (suc fuel)) content enough =
    let half : (length content + 1) / 2 * 2 / 2 ≡ (length content + 1) / 2 = omega arith in
    ap (λ k. load_loop (suc (suc fuel)) content (replicate k 0) 0 0) half
    ∙ load_loop_lem fuel ((length content + 1) / 2) content (omega arith)

load_all_lem :
    (fuel : ℕ) (files : List (Bytes × Bytes)) (m : Dict Bytes)
    → 2 ≤ fuel
    → load_all fuel (readable files) m ≡ some (halves files m, true)
unfolding load_all readable halves
load_all_lem fuel [] m enough = refl
load_all_lem fuel ((file, content) ∷ files) m enough =
    rw (load_all, load_lem fuel content enough) (load_all_lem fuel files _ enough)

-- Where all files can be read, the constructor comes back, and has put the first half of each file
-- into the map, rounded up to a whole byte, under the name of the file. The player has a stream
-- exactly if PortAudio gave one.
pub construct-halves :
    (fuel : ℕ) (files : List (Bytes × Bytes)) (opened : Bool)
    → 2 ≤ fuel
    → construct fuel (readable files) opened
      ≡ some (record {
        stream = opened;
        map_buffer = halves files [];
        current_playing = none;
        current_playing_sample_offset = 0;
        vol = 100;
        queue = [];
        calls = [];
      })
unfolding construct
construct-halves fuel files opened enough = rw (construct, load_all_lem fuel files [] enough) refl
