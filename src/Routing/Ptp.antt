-- ===== src/Routing/Ptp.antt =====
-- src/routing/ptp.cc and src/routing/adjacency.cc: a point-to-point circuit, its states and its
-- adjacency. `running ()` asks for the state `ru`. A node is there; a state action returns the
-- circuit and the next state, or none to stay.
pub mod States
pub mod Paired
pub mod Barred
pub mod Handshake
mod Tests
use cppdecnet.Prelude.{
  ℕ, ◌+◌, min, Bool, true, false, not, ◌&&◌, ◌||◌, Option, none, some, List, [], ◌∷◌, ltb, leb,
  ◌==◌, if◌then◌else◌,
}
use cppdecnet.Types.{Version, area, tid}
use cppdecnet.Routing.Forward.{ShortData}
use cppdecnet.Routing.Message.{RouteUpdate}

-- The router type codes in routing packets.
abbrev pub l2router : ℕ
l2router = 1

abbrev pub l1router : ℕ
l1router = 2

abbrev pub endnode : ℕ
endnode = 3

abbrev pub unknown : ℕ
unknown = 4

abbrev pub phase2 : ℕ
phase2 = 0

abbrev pub mtu : ℕ
mtu = 576

-- The packets of a point-to-point circuit. A routing message is what the route computation reads of
-- it; `testdata_valid` is said of a hello's test data.
pub record PtpInit : Type 0 where
  pub srcnode : ℕ
  pub ntype : ℕ
  pub verif : Bool
  pub blo : Bool
  pub blksize : ℕ
  pub tiver : Version
  pub timer : ℕ

pub record PtpVerify : Type 0 where
  pub srcnode : ℕ
  pub fcnval : List ℕ

pub record PtpHello : Type 0 where
  pub srcnode : ℕ
  pub testdata : List ℕ

pub data Packet : Type 0 where
  ptp_init : PtpInit → Packet
  ptp_init3 : Packet
  ptp_verify : PtpVerify → Packet
  ptp_hello : PtpHello → Packet
  short_data long_data : ShortData → Packet
  routing_message : ℕ → List RouteUpdate → Packet
  other : Packet

-- What a circuit is given. A frame is what the parser makes of it: `undecodable` where it makes
-- nothing, with the bytes; `listen_expired` is the adjacency's timer.
pub data Work : Type 0 where
  circuit_start circuit_stop circuit_down expired listen_expired empty_frame : Work
  dl_status : Bool → Work
  undecodable : List ℕ → Work
  received : Packet → Work

pub data State : Type 0 where
  s0 ds ri rv ru : State

-- The reasons of events.
abbrev pub sync_lost : ℕ
sync_lost = 0

abbrev pub unexpected_packet_type : ℕ
unexpected_packet_type = 2

abbrev pub address_out_of_range : ℕ
address_out_of_range = 7

abbrev pub invalid_verification : ℕ
invalid_verification = 9

abbrev pub listener_timeout : ℕ
listener_timeout = 10

-- Event identifiers of class 4 and the reason, where one is given.
pub data Event : Type 0 where
  event : ℕ → Option ℕ → Event

-- What a circuit does to the outside: to the datalink port, to the router, to the work queue and to
-- the event log.
pub data Output : Type 0 where
  opened closed restarted : Output
  sent : Packet → Output
  adj_up adj_down : ℕ → Output
  forwarded : ShortData → Output
  updated : ℕ → List RouteUpdate → Output
  posted_up : Output
  logged : Event → Output

pub record AdjacencyInfo : Type 0 where
  pub id : ℕ
  pub ntype : ℕ
  pub blksize : ℕ
  pub tiver : Version
  pub timer : ℕ
  pub rphase : ℕ

-- `listening` says that the listen timer runs.
pub record Adjacency : Type 0 where
  pub info : AdjacencyInfo
  pub up : Bool
  pub listening : Bool

-- What the circuit reads of its router and its port.
pub record Parent : Type 0 where
  pub nodeid : ℕ
  pub ntype : ℕ
  pub phase : ℕ
  pub tiver : Version
  pub maxnodes : ℕ
  pub maxarea : ℕ
  pub homearea : ℕ
  pub start_works : Bool
  pub t3 : ℕ

pub record Counters : Type 0 where
  pub cir_down : ℕ
  pub init_fail : ℕ
  pub adj_down : ℕ
  pub ver_rejects : ℕ

-- `timer` says that the circuit's own timer runs; `out` has the newest first.
pub record Circuit : Type 0 where
  pub state : State
  pub info : AdjacencyInfo
  pub adj : Option Adjacency
  pub timer : Bool
  pub request_verify : Bool
  pub expect_verify : List ℕ
  pub verify : List ℕ
  pub counters : Counters
  pub out : List Output

abbrev pub no_version : Version
no_version = record { v1 = 0; v2 = 0; v3 = 0 }

abbrev pub no_neighbour : AdjacencyInfo
no_neighbour = record {
  id = 0;
  ntype = unknown;
  blksize = mtu;
  tiver = no_version;
  timer = 0;
  rphase = 0;
}

-- `hello_testdata ()`
abbrev pub hello_testdata : List ℕ
hello_testdata = 170 ∷ 170 ∷ 170 ∷ 170 ∷ 170 ∷ 170 ∷ 170 ∷ 170 ∷ 170 ∷ 170 ∷ []

unfoldable pub testdata_valid : List ℕ → Bool
testdata_valid [] = true
testdata_valid (b ∷ bs) = (b == 170) && testdata_valid bs

-- The constructor, with the verification string of the configuration.
unfoldable pub new_circuit : List ℕ → Circuit
new_circuit verify = record {
  state = State.s0;
  info = no_neighbour;
  adj = none;
  timer = false;
  request_verify = elim verify [ [] ↦ false | _ ∷ _ ↦ true ];
  expect_verify = verify;
  verify = [];
  counters = record { cir_down = 0; init_fail = 0; adj_down = 0; ver_rejects = 0 };
  out = [];
}

unfoldable pub running : State → Bool
running State.ru = true
running _ = false

-- `nice_substate () == 0`
unfoldable pub starting : State → Bool
starting State.ri = true
starting State.rv = true
starting _ = false

unfoldable pub put : Output → Circuit → Circuit
put o c = record c { out = o ∷ c.out }

unfoldable pub routeevent : ℕ → Option ℕ → Circuit → Circuit
unfolding put
routeevent id reason c = put (Output.logged (event id reason)) c

unfoldable pub clear_neighbour : Circuit → Circuit
clear_neighbour c = record c { info = no_neighbour; adj = none }

-- The router and the counters of an adjacency that goes down; it is not listened for any more.
unfoldable pub adjacency_down : Adjacency → Circuit → Circuit
unfolding put
adjacency_down a c =
    if not a.up
    then c
    else put (adj_down a.info.id) (record c {
      adj = some (record a { up = false; listening = false });
      counters = record (c.counters) { adj_down = c.counters.adj_down + 1 };
    })

unfoldable pub adjacency_up : Adjacency → Circuit → Circuit
unfolding put
adjacency_up a c =
    if a.up
    then c
    else put (adj_up a.info.id) (record c {
      adj = some (record a { up = true; listening = a.listening || not (a.info.ntype == phase2) });
    })

-- `down`, by the adjacency.
unfoldable pub bring_down : Option Adjacency → Circuit → Circuit
unfolding adjacency_down
bring_down none c = c
bring_down (some a) c = record (adjacency_down a c) { adj = none }

unfoldable pub down : Circuit → Circuit
down c = bring_down c.adj c

unfoldable pub bring_up : Option Adjacency → Circuit → Circuit
unfolding adjacency_up
bring_up none c = c
bring_up (some a) c = adjacency_up a c

unfoldable pub up : Circuit → Circuit
unfolding routeevent
up c = record (routeevent 10 none (bring_up c.adj c)) { timer = true }

abbrev pub stay : Circuit → Circuit × Option State
stay c = (c, none)

unfoldable pub halt : Circuit → Circuit × Option State
unfolding put
halt c = (put Output.closed (record c { timer = false }), some State.s0)

-- The counters of a restart, by the state.
unfoldable pub count_restart : State → Counters → Counters
count_restart s n =
    if running s
    then record n { cir_down = n.cir_down + 1 }
    else if starting s
    then record n { init_fail = n.init_fail + 1 }
    else n

unfoldable pub restart : Parent → Circuit → Circuit × Option State
unfolding put
restart p c =
    let counted = record c { counters = count_restart c.state c.counters } in
    let lowered = if running c.state then down counted else counted in
    let cleared = record (clear_neighbour lowered) { timer = false } in
    (put (if p.start_works then Output.restarted else Output.posted_up) cleared, some State.ds)

-- With an event first.
unfoldable pub restart_logged : Parent → ℕ → ℕ → Circuit → Circuit × Option State
restart_logged p id reason c = restart p (routeevent id (some reason) c)

unfoldable pub check_src : ℕ → AdjacencyInfo → Bool
check_src src i = if i.rphase == 4 then src == i.id else tid src == tid i.id

-- CircuitStop before the circuit runs.
unfoldable pub stopped : Circuit → Circuit × Option State
stopped c = halt (routeevent 9 none c)
