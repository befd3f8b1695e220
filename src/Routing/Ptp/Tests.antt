-- ===== src/Routing/Ptp/Tests.antt =====
-- The theorems on a point-to-point circuit at concrete input.
use cppdecnet.Prelude.{ℕ, ◌+◌, ◌≡◌, true, false, List, [], ◌∷◌, arith}
use cppdecnet.Routing.Ptp.{Parent, PtpVerify, Work, ptp_init, ptp_verify, new_circuit, running, mtu}
use cppdecnet.Routing.Ptp.States.{run}
use cppdecnet.Routing.Ptp.Paired.{Paired}
use cppdecnet.Routing.Ptp.Barred.Run.{run-unverified}
use cppdecnet.Routing.Ptp.Handshake.{init_with}

-- An area router and a level 1 router of area 1.
abbrev node : ℕ → ℕ → Parent
node number ntype = record {
  nodeid = 1024 + number;
  ntype = ntype;
  phase = 4;
  tiver = record { v1 = 2; v2 = 0; v3 = 0 };
  maxnodes = 1023;
  maxarea = 63;
  homearea = 1;
  start_works = true;
  t3 = 60;
}

-- The circuit comes up, the far end is not heard of any more, and it comes up again.
abbrev works : List Work
works =
    Work.circuit_start
    ∷ Work.dl_status true
    ∷ Work.received (ptp_init (init_with mtu (node 2 2)))
    ∷ Work.listen_expired
    ∷ Work.dl_status true
    ∷ Work.received (ptp_init (init_with mtu (node 2 2)))
    ∷ []

abbrev wrong : PtpVerify
wrong = record { srcnode = 1026; fcnval = 1 ∷ [] }

abbrev doubtful : List Work
doubtful =
    Work.circuit_start
    ∷ Work.dl_status true
    ∷ Work.received (ptp_init (init_with mtu (node 2 2)))
    ∷ Work.received (ptp_verify wrong)
    ∷ []

run-unverified_example : running (run (node 1 1) doubtful (new_circuit (2 ∷ []))).state ≡ false
run-unverified_example =
    run-unverified (node 1 1) (2 ∷ []) doubtful (λ e. ground (arith, e))
      (tt, (tt, (tt, ((λ e. ground (arith, e)), tt))))
