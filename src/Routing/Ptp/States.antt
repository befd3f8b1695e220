-- ===== src/Routing/Ptp/States.antt =====
-- src/routing/ptp.cc: the states of a point-to-point circuit.
use cppdecnet.Prelude.{
  ℕ, ◌+◌, min, Bool, true, false, not, ◌&&◌, ◌||◌, Option, none, some, List, [], ◌∷◌, ltb, leb,
  ◌==◌, if◌then◌else◌,
}
use cppdecnet.Types.{area, tid}
use cppdecnet.Routing.Forward.{ShortData}
use cppdecnet.Routing.Message.{RouteUpdate}
use cppdecnet.Routing.Ptp.{
  running, l2router, l1router, endnode, mtu, PtpInit, PtpVerify, ptp_init, ptp_init3, ptp_verify,
  ptp_hello, short_data, long_data, routing_message, Packet, Work, State, Output, forwarded,
  updated, AdjacencyInfo, Adjacency, Parent, Circuit, hello_testdata, testdata_valid, put,
  routeevent, clear_neighbour, adjacency_down, down, up, stay, halt, restart, restart_logged,
  check_src, stopped, sync_lost, unexpected_packet_type, address_out_of_range, invalid_verification,
  listener_timeout,
}

unfoldable pub in_s0 : Work → Circuit → Circuit × Option State
in_s0 Work.circuit_start c = (clear_neighbour (put Output.opened c), some State.ds)
in_s0 Work.expired c = (clear_neighbour (put Output.opened c), some State.ds)
in_s0 w c = stay c

-- `build_initmsg`
unfoldable pub build_initmsg : Parent → Circuit → PtpInit
build_initmsg p c = record {
  srcnode = p.nodeid;
  ntype = p.ntype;
  verif = c.request_verify;
  blo = false;
  blksize = mtu;
  tiver = p.tiver;
  timer = p.t3;
}

unfoldable pub in_ds : Parent → Work → Circuit → Circuit × Option State
in_ds p (Work.dl_status true) c =
    let cleared = clear_neighbour c in
    (
      record (put (Output.sent (ptp_init (build_initmsg p cleared))) cleared) { timer = true },
      some State.ri,
    )
in_ds p (Work.dl_status false) c = restart_logged p 11 sync_lost c
in_ds p Work.circuit_down c = restart p c
in_ds p Work.circuit_stop c = stopped c
in_ds p w c = stay c

-- Out of range: the condition on an init's address.
unfoldable pub out_of_range : Parent → PtpInit → Bool
out_of_range p i =
    let both_l2 = (i.ntype == l2router) && (p.ntype == l2router) in
    let router = (p.ntype == l1router) || (p.ntype == l2router) in
    (router && ltb p.maxnodes (tid i.srcnode))
    || ((both_l2 && not (leb 1 (area i.srcnode) && leb (area i.srcnode) p.maxarea))
        || (not both_l2 && not (area i.srcnode == p.homearea)))

abbrev pub neighbour_info : PtpInit → AdjacencyInfo
neighbour_info i = record {
  id = i.srcnode;
  ntype = i.ntype;
  blksize = min i.blksize mtu;
  tiver = i.tiver;
  timer = i.timer;
  rphase = 4;
}

-- The verification that the neighbour wants; `set_src` of a Phase IV neighbour.
unfoldable pub authenticate : Parent → Bool → Circuit → Circuit
authenticate p wanted c =
    if wanted
    then put (Output.sent (ptp_verify (record { srcnode = p.nodeid; fcnval = c.verify }))) c
    else c

-- A Phase IV init that is accepted.
unfoldable pub accept_init : Parent → PtpInit → Circuit → Circuit × Option State
accept_init p i c =
    let answered = authenticate p i.verif (record c { info = neighbour_info i }) in
    let adjacent = record answered {
      adj = some (record { info = neighbour_info i; up = false; listening = false });
    } in
    if c.request_verify
    then (record adjacent { timer = true }, some State.rv)
    else (up adjacent, some State.ru)

unfoldable pub on_init : Parent → PtpInit → Circuit → Circuit × Option State
on_init p i c =
    if ltb p.phase 4
    then stay c
    else if not ((i.ntype == endnode) || ((i.ntype == l1router) || (i.ntype == l2router)))
    then restart_logged p 12 unexpected_packet_type c
    else if i.blo
    then restart p c
    else if tid i.srcnode == 0
    then restart p c
    else if out_of_range p i
    then restart_logged p 12 address_out_of_range c
    else accept_init p i c

-- What `ri`, `rv` and `ru` do alike with the datalink's state, and the frames that `validate` drops.
unfoldable pub on_status : Parent → Bool → Circuit → Circuit × Option State
on_status p true c = stay c
on_status p false c = restart p c

unfoldable pub in_ri : Parent → Work → Circuit → Circuit × Option State
in_ri p Work.expired c = restart p c
in_ri p Work.circuit_down c = restart p c
in_ri p (Work.dl_status b) c = on_status p b c
in_ri p Work.circuit_stop c = stopped c
in_ri p (Work.received (ptp_init i)) c = on_init p i c
in_ri p (Work.received ptp_init3) c = restart p c
in_ri p (Work.received (ptp_verify v)) c = restart_logged p 12 unexpected_packet_type c
in_ri p w c = stay c

unfoldable pub bytes_equal : List ℕ → List ℕ → Bool
bytes_equal [] [] = true
bytes_equal (a ∷ xs) (b ∷ ys) = (a == b) && bytes_equal xs ys
bytes_equal _ _ = false

unfoldable pub on_verify : Parent → PtpVerify → Circuit → Circuit × Option State
on_verify p v c =
    if not (check_src v.srcnode c.info)
    then restart p c
    else if not (bytes_equal v.fcnval c.expect_verify)
    then restart_logged p 6 invalid_verification
        (record c { counters = record (c.counters) { ver_rejects = c.counters.ver_rejects + 1 } })
    else (up c, some State.ru)

unfoldable pub in_rv : Parent → Work → Circuit → Circuit × Option State
in_rv p Work.expired c = restart p c
in_rv p Work.circuit_down c = restart p c
in_rv p (Work.dl_status b) c = on_status p b c
in_rv p Work.circuit_stop c = stopped c
in_rv p (Work.received (ptp_verify v)) c = on_verify p v c
in_rv p w c = stay c

-- The listen timer of an adjacency that is heard of.
unfoldable pub alive : Option Adjacency → Option Adjacency
alive none = none
alive (some a) = some (record a { listening = a.listening || not (a.info.ntype == 0) })

-- A routing message goes up with the adjacency that it came by.
unfoldable pub route : ℕ → List RouteUpdate → Option Adjacency → Circuit → Circuit
route src us none c = c
route src us (some a) c = put (updated a.info.id us) c

-- A packet in the running state.
unfoldable pub run_packet : Parent → Packet → Circuit → Circuit × Option State
run_packet p (ptp_hello h) c =
    if not (check_src h.srcnode c.info)
    then restart p c
    else if not (testdata_valid h.testdata)
    then restart p c
    else stay c
run_packet p (ptp_verify v) c = if not (check_src v.srcnode c.info) then restart p c else stay c
run_packet p (short_data d) c = stay (put (forwarded d) c)
run_packet p (long_data d) c = stay (put (forwarded d) c)
run_packet p (routing_message src us) c = stay (route src us c.adj c)
run_packet p _ c = stay c

-- `hellomsg_`, which was made with the adjacency.
unfoldable pub send_hello : Parent → Circuit → Circuit
send_hello p c =
    record (put (Output.sent (ptp_hello (record { srcnode = p.nodeid; testdata = hello_testdata })))
      c) { timer = true }

unfoldable pub in_ru : Parent → Work → Circuit → Circuit × Option State
in_ru p Work.expired c = stay (send_hello p c)
in_ru p Work.circuit_down c = restart p c
in_ru p (Work.dl_status b) c = on_status p b c
in_ru p Work.circuit_stop c = halt (down c)
in_ru p (Work.received k) c = run_packet p k (record c { adj = alive c.adj })
in_ru p w c = stay c

unfoldable pub act : Parent → State → Work → Circuit → Circuit × Option State
act p State.s0 w c = in_s0 w c
act p State.ds w c = in_ds p w c
act p State.ri w c = in_ri p w c
act p State.rv w c = in_rv p w c
act p State.ru w c = in_ru p w c

-- From the state in which the action was called; an action itself sets no state.
abbrev pub set_state : State → Circuit × Option State → Circuit
set_state s r = elim r.1 [
  | none ↦ record (r.0) { state = s }
  | some s' ↦ record (r.0) { state = s' }
]

-- Adjacency::timeout, by the adjacency whose timer expires: it goes down, and the circuit starts over.
unfoldable pub listen_timeout : Parent → Option Adjacency → Circuit → Circuit
listen_timeout p none c = c
listen_timeout p (some a) c =
    if not a.listening
    then c
    else let lowered = adjacency_down (record a { listening = false }) c in
      set_state c.state
        (restart p (record (routeevent 8 (some listener_timeout) lowered) { adj = none }))

-- The circuit's own timer: it is no longer armed once it has expired.
unfoldable pub own_timeout : Parent → Circuit → Circuit
own_timeout p c =
    if c.timer
    then (let fired = record c { timer = false } in
        set_state c.state (act p fired.state Work.expired fired))
    else c

-- `dispatch` with `validate` in front of it, and the two timers.
unfoldable pub dispatch : Parent → Work → Circuit → Circuit
dispatch p Work.expired c = own_timeout p c
dispatch p Work.listen_expired c = listen_timeout p c.adj c
dispatch p Work.empty_frame c = c
dispatch p (Work.undecodable frame) c = routeevent 4 none c
dispatch p w c = set_state c.state (act p c.state w c)

unfoldable pub run : Parent → List Work → Circuit → Circuit
run p [] c = c
run p (w ∷ ws) c = run p ws (dispatch p w c)

-- `send`, of a packet from above: whether it was sent.
unfoldable pub send : ShortData → Circuit → Circuit × Bool
send d c =
    if not (running c.state)
    then (c, false)
    else if (c.info.ntype == endnode) && not (d.dstnode == c.info.id)
    then (c, false)
    else (put (Output.sent (short_data d)) c, true)

-- `wants_updates`
unfoldable pub wants_updates : ℕ → Circuit → Bool
wants_updates level c =
    if not (c.info.ntype == l1router) && not (c.info.ntype == l2router)
    then false
    else if level == 2
    then c.info.ntype == l2router
    else true
