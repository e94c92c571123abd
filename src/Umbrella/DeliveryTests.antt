-- ===== src/Umbrella/DeliveryTests.antt =====
-- Runs of the umbrella process with processes that register.
use sdk_linux.Umbrella.Subscribers.{
  Event, IsEvent, addressed_to, receive_all, meant_for, events_in_order,
}
use sdk_linux.Umbrella.Delivery.{
  read_whole, IsTurn, registers, acts, to_step, subscribed, event_once,
}
use sdk_linux.Prelude.Sets.{times}
use mathlib.Core.List.{map}
use sdk_linux.Prelude.{
  length, All, arith, ◌++◌, false, ◌+◌, ◌≤◌, ◌≡◌, ◌≢◌, ◌⊎◌, refl, Option, none, some, List, [], ◌∷◌,
  if◌then◌else◌,
}
use sdk_linux.Prelude.Bytes.{Lacks, set_has, Bytes, codes, str_eq}
use sdk_linux.Ipc.Init.{events_text}
use sdk_linux.Ipc.Send.{message}
use sdk_linux.Umbrella.{receive_round, Umbrella, start_task, stop_task, on_do_start, run_front}
use sdk_linux.Umbrella.Startup.{boot}
use sdk_linux.Umbrella.Process.{fork_ok, runs, starts, step, steps}
use sdk_linux.Ipc.Text.{skip_space, is_space, atoi}
use sdk_linux.Ipc.Routing.{datagrams}
use sdk_linux.Prelude.Dict.{lookup}
use sdk_linux.Umbrella.Handlers.{own_table}
use sdk_linux.Ipc.Register.{bind_message}
use sdk_linux.Umbrella.Tests.{taking, binding, config, booted, boots, started}

-- Two processes register, one of them twice, while a start is on its way.
abbrev evt_x : Bytes
evt_x = codes "EVT_X"

abbrev joins : List sdk_linux.Umbrella.Delivery.Turn
joins =
    registers (codes "a") (evt_x ∷ [])
    ∷ acts starts
    ∷ registers (codes "b") (codes "EVT_Y" ∷ evt_x ∷ [])
    ∷ acts (runs (fork_ok 41))
    ∷ registers (codes "a") (evt_x ∷ [])
    ∷ []

abbrev joined : Umbrella
joined = record started {
  ipc = record booted.ipc {
    receivers = (evt_x, codes "a" ∷ codes "b" ∷ []) ∷ (codes "EVT_Y", codes "b" ∷ []) ∷ [];
  };
}

joined_after : steps taking booted (map to_step joins) ≡ some joined
unfolding steps step booted boot run_front on_do_start to_step receive_round
    sdk_linux.Ipc.Worker.umbrella_receive message sdk_linux.Ipc.Worker.split_message
    sdk_linux.Prelude.Bytes.find sdk_linux.Prelude.Bytes.c_str lookup sdk_linux.Prelude.Dict.insert
    str_eq sdk_linux.Ipc.Register.registeration atoi sdk_linux.Ipc.Register.add_receiver
    sdk_linux.Ipc.Text.words sdk_linux.Prelude.Bytes.set_insert sdk_linux.Prelude.Bytes.lex
joined_after = refl

joins_valid : All IsTurn joins
unfolding events_text is_space skip_space bind_message message
joins_valid = ground arith

unhandled : lookup evt_x own_table ≡ none
unfolding lookup str_eq
unhandled = refl

event_once_example :
    (addrs : List Bytes) × (receive_round taking (some (message evt_x (codes "t"))) joined
      ≡ record joined {
        ipc = record joined.ipc {
          sends = joined.ipc.sends ++ datagrams (message evt_x (codes "t")) addrs;
        };
      })
    × ((b : Bytes) → times b addrs ≡ (if subscribed b evt_x joins then 1 else 0))
event_once_example =
    event_once taking binding config booted joined joins (codes "VT_X") (codes "t") boots
      joins_valid joined_after (ground arith) (ground arith) (ground arith) unhandled
      (read_whole evt_x (codes "t") (omega arith))

abbrev spoken : List Event
spoken =
    record { name = evt_x; text = codes "1" }
    ∷ record { name = codes "EVT_Y"; text = [] }
    ∷ record { name = evt_x; text = codes "2" }
    ∷ []

other_unhandled : lookup (codes "EVT_Y") own_table ≡ none
unfolding lookup str_eq
other_unhandled = refl

x-IsEvent :
    (text : Bytes)
    → Lacks 0 text
    → length text ≤ 4000
    → IsEvent (record { name = evt_x; text = text })
x-IsEvent text nul short = record {
  rest = codes "VT_X";
  starts = refl;
  blank = ground arith;
  nul = ground arith;
  text_nul = nul;
  unhandled = unhandled;
  whole = read_whole _ _ (omega arith);
}

y-IsEvent : IsEvent (record { name = codes "EVT_Y"; text = [] })
y-IsEvent = record {
  rest = codes "VT_Y";
  starts = refl;
  blank = ground arith;
  nul = ground arith;
  text_nul = tt;
  unhandled = other_unhandled;
  whole = read_whole _ _ (omega arith);
}

spoken-IsEvent : All IsEvent spoken
spoken-IsEvent = (
  x-IsEvent (codes "1") (ground arith) (omega arith),
  (y-IsEvent, (x-IsEvent (codes "2") (ground arith) (omega arith), tt)),
)

events_in_order_example :
    addressed_to (codes "a") (receive_all taking spoken joined).ipc.sends
    ≡ addressed_to (codes "a") joined.ipc.sends ++ meant_for (codes "a") joins spoken
events_in_order_example =
    events_in_order taking binding config booted joined joins spoken (codes "a") boots joins_valid
      joined_after spoken-IsEvent

-- Only the events that the address registered for.
meant_for_a :
    meant_for (codes "a") joins spoken ≡ message evt_x (codes "1") ∷ message evt_x (codes "2") ∷ []
unfolding meant_for subscribed set_has str_eq
meant_for_a = refl
