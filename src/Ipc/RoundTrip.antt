-- ===== src/Ipc/RoundTrip.antt =====
-- A message that one process sends, as the next process reads it.
use Prim.Native.Nat.add
use sdk_linux.Prelude.{
  ℕ, zero, suc, ◌+◌, ◌-◌, ◌≤◌, ◌<◌, ◌≡◌, ◌≢◌, refl, ap, true, none, some, [], ◌∷◌, ◌++◌, arith,
  length, take, drop, take_all, take-length-append, length-append, length-take, All-append,
}
use sdk_linux.Prelude.Int.{pos, is_pos}
use sdk_linux.Prelude.Bytes.{Bytes, find, Lacks, c_str, c_str_lem, find-append}
use sdk_linux.Prelude.Dict.{lookup}
use sdk_linux.Ipc.Names.{umbrella_recv_addr}
use sdk_linux.Ipc.State.{Sendto, Ipc}
use sdk_linux.Ipc.Send.{message, send_event}
use sdk_linux.Ipc.Worker.{split_message, Round, forward, receive, umbrella_receive}

-- `recvfrom(sock, buf, sizeof(buf) - 1, …)`.
abbrev pub receive_size : ℕ
receive_size = 4095

take-Lacks : (b n : ℕ) (s : Bytes) → Lacks b s → Lacks b (take n s)
take-Lacks b zero s h = tt
take-Lacks b (suc n) [] h = tt
take-Lacks b (suc n) (c ∷ s) h = (h.0, take-Lacks b n s h.1)

take-append_long :
    (s rest : Bytes) (n k : ℕ) → n ≡ length s + k → take n (s ++ rest) ≡ s ++ take k rest
take-append_long [] rest n k e = let e' : n ≡ k = omega arith in rw e'
take-append_long (c ∷ s) rest zero k e = absurd (omega arith)
take-append_long (c ∷ s) rest (suc n) k e = ap (◌∷◌ c) (take-append_long s rest n k (omega arith))

pub drop_past : (s rest : Bytes) (c : ℕ) → drop (length s + 1) (s ++ c ∷ rest) ≡ rest
drop_past [] rest c = refl
drop_past (x ∷ s) rest c = rw add.suc (drop_past s rest c)

-- The split finds the two parts again.
pub split_message_lem :
    (evt msg : Bytes)
    → Lacks b' ' evt
    → Lacks 0 evt
    → Lacks 0 msg
    → split_message (message evt msg) ≡ some (evt, msg)
unfolding split_message message
split_message_lem evt msg blank nul nul' =
    let str : c_str (evt ++ b' ' ∷ msg) ≡ evt ++ b' ' ∷ msg =
      c_str_lem _ (All-append _ evt _ nul (ground arith, nul')) in
    ground (
      arith,
      str,
      find-append b' ' evt msg blank,
      take-length-append evt (b' ' ∷ msg),
      drop_past evt msg b' ',
    )

-- A message cut off after `n` bytes is the message with a shorter text.
pub take-message :
    (evt msg : Bytes) (n k : ℕ)
    → n ≡ length evt + suc k
    → take n (message evt msg) ≡ message evt (take k msg)
unfolding message
take-message evt msg n k e = take-append_long evt (b' ' ∷ msg) n (suc k) e

module _ {ℓ} {H : Type ℓ} (t : Ipc H) where
  -- A round of the plain loop, from what the split gives.
  pub receive_split :
      (buf evt msg : Bytes)
      → split_message buf ≡ some (evt, msg)
      → receive t (some buf)
        ≡ elim (lookup evt t.handlers) [ none ↦ Round.next | some h ↦ Round.call h evt msg ]
  unfolding receive split_message find c_str
  receive_split [] evt msg e = cc
  receive_split (c ∷ buf) evt msg e = rw (e, receive)

  -- A round of the umbrella's loop, from what the split gives.
  pub umbrella_receive_split :
      (kernel : Sendto) (buf evt msg : Bytes)
      → split_message buf ≡ some (evt, msg)
      → umbrella_receive kernel t (some buf) ≡ elim (lookup evt t.handlers) [
        | none ↦ (forward kernel t buf evt msg, Round.next)
        | some h ↦ (t, Round.call h evt msg)
      ]
  unfolding umbrella_receive split_message find c_str
  umbrella_receive_split kernel [] evt msg e = cc
  umbrella_receive_split kernel (c ∷ buf) evt msg e = rw (e, umbrella_receive)

send_event-sends {ℓ} :
    {H : Type ℓ} (kernel : Sendto) (s : Ipc H) (evt msg : Bytes)
    → length evt + length msg ≤ 4096
    → is_pos
        (kernel s.sends (record { address = umbrella_recv_addr; content = message evt msg })).wr
      ≡ true
    → ((send_event kernel s evt msg).1 ≡ pos 0)
      × ((send_event kernel s evt msg).0.sends
          ≡ s.sends ++ record { address = umbrella_recv_addr; content = message evt msg } ∷ [])
unfolding send_event
send_event-sends kernel s evt msg short went = ground arith

-- `send_event` succeeds and hands one datagram to the kernel, and the umbrella process, which reads
-- `buf` of it, calls the handler `h` with the text `text`.
abbrev pub Delivers {ℓ κ} :
    {H : Type ℓ} {G : Type κ} → Sendto → Ipc H → Ipc G → G → Bytes → Bytes → Bytes → Bytes → Type κ
Delivers kernel s t h evt msg buf text =
    ((send_event kernel s evt msg).1 ≡ pos 0)
    × ((send_event kernel s evt msg).0.sends
        ≡ s.sends ++ record { address = umbrella_recv_addr; content = message evt msg } ∷ [])
    × (umbrella_receive kernel t (some buf) ≡ (t, Round.call h evt text))

module _ {ℓ κ} {H : Type ℓ} {G : Type κ} (kernel : Sendto) (recvfrom : ℕ → Bytes → Bytes)
    (recvfrom_cuts : (n : ℕ) (d : Bytes) → recvfrom n d ≡ take n d) (s : Ipc H) (t : Ipc G) (h : G)
    (evt msg : Bytes) (blank : Lacks b' ' evt) (nul : Lacks 0 evt) (nul' : Lacks 0 msg)
    (went : is_pos
        (kernel s.sends (record { address = umbrella_recv_addr; content = message evt msg })).wr
      ≡ true)
    (handled : lookup evt t.handlers ≡ some h) where
  deliver_part :
      (text : Bytes)
      → length evt + length msg ≤ 4096
      → take receive_size (message evt msg) ≡ message evt text
      → Lacks 0 text
      → Delivers kernel s t h evt msg (recvfrom receive_size (message evt msg)) text
  deliver_part text short cut clean =
      let (ret, sends) = send_event-sends kernel s evt msg short went in
      let part = split_message_lem evt text blank nul clean in
      (
        ret,
        sends,
        rw (recvfrom_cuts, cut, umbrella_receive_split t kernel (message evt text) evt text part)
            (rw handled),
      )

  -- Where the kernel takes the datagram and gives back its first 4095 bytes, an event name with no
  -- blank and no NUL and a text with no NUL, together shorter than 4095 bytes, reach the handler of
  -- that event in the umbrella process as they were sent.
  pub send-receive :
      length evt + length msg < receive_size
      → Delivers kernel s t h evt msg (recvfrom receive_size (message evt msg)) msg
  send-receive short =
      deliver_part msg (omega arith)
        (take_all receive_size _ (unfold message in omega (arith, length-append evt (b' ' ∷ msg))))
        nul'

  -- An event name and a text of 4095 or 4096 bytes together are sent with success too, but the
  -- handler gets the text without its last one or two bytes.
  pub send-receive_cut :
      4095 ≤ length evt + length msg
      → length evt + length msg ≤ 4096
      → length evt < 4095
      → Delivers kernel s t h evt msg
          (recvfrom receive_size (message evt msg))
          (take (4094 - length evt) msg)
        × (take (4094 - length evt) msg ≢ msg)
  send-receive_cut long short room = (
    deliver_part (take (4094 - length evt) msg) short
        (take-message evt msg receive_size (4094 - length evt) (omega arith))
        (take-Lacks 0 (4094 - length evt) msg nul'),
    λ e. omega (arith, ap length e, length-take (4094 - length evt) msg),
  )
