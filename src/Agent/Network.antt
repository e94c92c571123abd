-- ===== src/Agent/Network.antt =====
-- The reports of the network monitor as the process takes them, and what it asks of the umbrella.
use sdk_linux.Prelude.{
  append_assoc, append-nil, arith, some, ◌++◌, false, not, Bool, ◌≡◌, List, [], ◌∷◌, refl,
}
use sdk_linux.Agent.State.{sleep, send, Effect, Agent}
use sdk_linux.Agent.Events.{on_network_status_changed}
use sdk_linux.NetworkMonitor.{NetworkStatus, network_fail, https_ok, is_fail, new, check_loop}
use sdk_linux.NetworkMonitor.Status.{status_of, follow, check_loop-status}

-- The observer of the network takes the reports one after the other.
unfoldable pub observe : List NetworkStatus → Agent → Agent
observe [] s = s
observe (r ∷ rs) s = observe rs (on_network_status_changed r s)

-- The calls that the observer makes: for each report, one message to the umbrella.
unfoldable pub asked : List NetworkStatus → List Effect
asked [] = []
asked (network_fail ∷ rs) = send "DO_STOP" [] ∷ asked rs
asked (https_ok ∷ rs) = sleep 2 ∷ send "DO_START" [] ∷ asked rs

observe-follow :
    (rs : List NetworkStatus) (s : Agent) (from to : NetworkStatus)
    → s.has_network ≡ not (is_fail from)
    → follow from rs ≡ some to
    → ((observe rs s).has_network ≡ not (is_fail to))
      × ((observe rs s).effects ≡ s.effects ++ asked rs)
unfolding observe follow asked on_network_status_changed
observe-follow [] s from to e h = ground (arith, append-nil s.effects)
observe-follow (network_fail ∷ rs) s network_fail to e h = ground arith
observe-follow (https_ok ∷ rs) s network_fail to e h =
    let ih = observe-follow rs (on_network_status_changed https_ok s) https_ok to refl h in
    ground (arith, ih, append_assoc s.effects (sleep 2 ∷ send "DO_START" [] ∷ []) (asked rs))
observe-follow (https_ok ∷ rs) s https_ok to e h = ground arith
observe-follow (network_fail ∷ rs) s https_ok to e h =
    let ih = observe-follow rs (on_network_status_changed network_fail s) network_fail to refl h in
    ground (arith, ih, append_assoc s.effects (send "DO_STOP" [] ∷ []) (asked rs))

-- Behind every history of checks that the monitor made, a process that began without the network
-- and observes the monitor has its flag for the network set exactly if the history calls for it: a
-- check passed and fewer than three have failed since. It asked for one start or stop of iFLYOS for
-- each change, in their order, and made no other call.
pub observe-check_loop :
    (history : List Bool) (s : Agent)
    → s.has_network ≡ false
    → ((observe (check_loop new history).reports s).has_network ≡ not (is_fail (status_of history)))
      × ((observe (check_loop new history).reports s).effects
          ≡ s.effects ++ asked (check_loop new history).reports)
observe-check_loop history s off =
    observe-follow (check_loop new history).reports s network_fail (status_of history) off
      (check_loop-status history).1
