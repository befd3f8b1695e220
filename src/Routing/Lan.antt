-- ===== src/Routing/Lan.antt =====
-- src/routing/lan.cc: a broadcast circuit, on a router and on an endnode. A node and a port are there.
-- A data packet is in its short form. A hello's router list is what its decoder makes of it,
-- none where it throws; an adjacency that is created in either state is the entry's `adj`.
-- created in either state is the entry's `adj`.
pub mod Router
pub mod Endnode
pub mod Election
mod Tests
use cppdecnet.Prelude.{
  ℕ, zero, suc, ◌+◌, ◌*◌, ◌-◌, ◌%◌, min, max, Bool, true, false, not, ◌&&◌, ◌||◌, Option, none,
  some, List, [], ◌∷◌, ltb, leb, ◌==◌, if◌then◌else◌, lookup, assign, remove, drop, length,
}
use cppdecnet.Types.{Version, macaddr_of}
use cppdecnet.Routing.Forward.{ShortData}
use cppdecnet.Routing.Message.{RouteUpdate}
use cppdecnet.Routing.Ptp.{AdjacencyInfo, mtu, l1router, l2router, endnode, no_version}

-- The greatest block on a LAN.
abbrev pub ethmtu : ℕ
ethmtu = mtu + 21 - 6

-- An entry of a router list.
pub record Rsent : Type 0 where
  pub router : ℕ
  pub prio : ℕ
  pub twoway : Bool

pub record RouterHello : Type 0 where
  pub tiver : Version
  pub id : ℕ
  pub ntype : ℕ
  pub blksize : ℕ
  pub prio : ℕ
  pub timer : ℕ
  pub elist : Option (List Rsent)

pub record EndnodeHello : Type 0 where
  pub tiver : Version
  pub id : ℕ
  pub blksize : ℕ
  pub neighbor : List ℕ
  pub timer : ℕ

pub data Packet : Type 0 where
  router_hello : RouterHello → Packet
  endnode_hello : EndnodeHello → Packet
  data_packet : ShortData → Packet
  routing_message : ℕ → List RouteUpdate → Packet
  other : Packet

-- An adjacency, with whether routing has been told that it is up.
pub record Adjacency : Type 0 where
  pub info : AdjacencyInfo
  pub up : Bool

pub record LanAdjacency : Type 0 where
  pub adj : Option Adjacency
  pub macaddr : List ℕ
  pub up : Bool
  pub prio : ℕ
  pub ntype : ℕ

-- What a circuit does to the outside: frames to the routers, to the endnodes or to a station; calls
-- of the router; the listen timer of a neighbour that is started again; events 4.15 and 4.18.
pub data Output : Type 0 where
  to_routers to_endnodes : Packet → Output
  to_station : List ℕ → ShortData → Output
  adj_up adj_down alive : ℕ → Output
  forwarded : ShortData → Output
  updated : ℕ → List RouteUpdate → Output
  logged_up logged_down : ℕ → Output

-- What the circuit reads of its router.
pub record Parent : Type 0 where
  pub nodeid : ℕ
  pub ntype : ℕ
  pub tiver : Version
  pub homearea : ℕ

-- LanCircuit; `out` has the newest first.
pub record Lan : Type 0 where
  pub adjacencies : List (ℕ × LanAdjacency)
  pub adj_downs : ℕ
  pub peak_adj : ℕ
  pub out : List Output

abbrev pub no_adjacency : LanAdjacency
no_adjacency = record {
  adj = none;
  macaddr = 0 ∷ 0 ∷ 0 ∷ 0 ∷ 0 ∷ 0 ∷ [];
  up = false;
  prio = 0;
  ntype = endnode;
}

unfoldable pub entry_or_new : Option LanAdjacency → LanAdjacency
entry_or_new none = no_adjacency
entry_or_new (some a) = a

-- `adjacencies_[key]`
abbrev pub entry : ℕ → Lan → LanAdjacency
entry key c = entry_or_new (lookup key c.adjacencies)

unfoldable pub put : Output → Lan → Lan
put o c = record c { out = o ∷ c.out }

unfoldable pub count_up : List (ℕ × LanAdjacency) → ℕ
count_up [] = 0
count_up ((k, a) ∷ m) = if a.up then suc (count_up m) else count_up m

-- The adjacency of an entry, created where there is none, comes up.
unfoldable pub bring_up : AdjacencyInfo → Option Adjacency → Adjacency × Bool
bring_up info none = (record { info = info; up = true }, true)
bring_up info (some a) = (record a { up = true }, not a.up)

unfoldable pub adjacency_up : ℕ → AdjacencyInfo → Lan → Lan
unfolding put
adjacency_up key info c =
    let a = entry key c in
    let (adj, fresh) = bring_up info a.adj in
    let table = assign key (record a { up = true; adj = some adj }) c.adjacencies in
    put (logged_up info.id) (record c {
      adjacencies = table;
      peak_adj = max c.peak_adj (count_up table);
      out = if fresh then adj_up adj.info.id ∷ c.out else c.out;
    })

-- What routing is told of an entry that goes: the adjacency, where the entry is up.
unfoldable pub report_down : Option Adjacency → Bool → Lan → Lan
unfolding put
report_down (some a) true c =
    let logged = put (logged_down a.info.id) c in
    if a.up
    then record (put (adj_down a.info.id) logged) { adj_downs = c.adj_downs + 1 }
    else logged
report_down _ _ c = c

unfoldable pub drop_entry : ℕ → Option LanAdjacency → Lan → Lan
drop_entry key none c = c
drop_entry key (some a) c = record (report_down a.adj a.up c) {
  adjacencies = remove key c.adjacencies;
}

-- LanCircuit::adjacency_down
unfoldable pub adjacency_down : ℕ → Lan → Lan
adjacency_down key c = drop_entry key (lookup key c.adjacencies) c

-- Adjacency::timeout up to the circuit's part: an adjacency that is up goes down.
unfoldable pub lowered : ℕ → LanAdjacency → Option Adjacency → Lan → Lan
lowered key a none c = c
lowered key a (some x) c =
    if not x.up
    then c
    else put (adj_down x.info.id) (record c {
      adj_downs = c.adj_downs + 1;
      adjacencies = assign key (record a { adj = some (record x { up = false }) }) c.adjacencies;
    })

unfoldable pub lower_entry : ℕ → Option LanAdjacency → Lan → Lan
lower_entry key none c = c
lower_entry key (some a) c = lowered key a a.adj c

unfoldable pub listen_down : ℕ → Lan → Lan
listen_down key c = lower_entry key (lookup key c.adjacencies) c

-- `wants_updates`
unfoldable pub wants_in : ℕ → List (ℕ × LanAdjacency) → Bool
wants_in level [] = false
wants_in level ((k, a) ∷ m) =
    let later = wants_in level m in
    if not a.up || (a.ntype == endnode)
    then later
    else if (level == 2) && not (a.ntype == l2router)
    then later
    else true

unfoldable pub wants_updates : ℕ → Lan → Bool
wants_updates level c = wants_in level c.adjacencies

-- `decode` up to the parser: the bytes that it is given, none where the frame is dropped.
unfoldable pub unpadded : List ℕ → Option (List ℕ)
unpadded [] = none
unpadded (b ∷ bs) = if leb 128 b then none else some (b ∷ bs)

unfoldable pub strip_padding : List ℕ → Option (List ℕ)
strip_padding [] = none
strip_padding (b ∷ bs) =
    if leb 128 b
    then (if (b % 128 == 0) || leb (suc (length bs)) (b % 128)
        then none
        else unpadded (drop (b % 128) (b ∷ bs)))
    else some (b ∷ bs)

unfoldable pub is_null : List ℕ → Bool
is_null [] = true
is_null (b ∷ bs) = (b == 0) && is_null bs

-- The address that a packet for a neighbour is sent to.
unfoldable pub station : Option LanAdjacency → ℕ → List ℕ
station none id = macaddr_of id
station (some a) id = if is_null a.macaddr then macaddr_of id else a.macaddr

-- `send_to`, to a neighbour.
unfoldable pub send_to : ShortData → ℕ → Lan → Lan
send_to p id c = put (to_station (station (lookup id c.adjacencies) id) p) c

abbrev pub info_of_hello : RouterHello → ℕ → AdjacencyInfo
info_of_hello h ntype = record {
  id = h.id;
  ntype = ntype;
  blksize = min h.blksize ethmtu;
  tiver = h.tiver;
  timer = h.timer;
  rphase = 4;
}

-- The node type that a router hello says.
abbrev pub hello_ntype : RouterHello → ℕ
hello_ntype h = if h.ntype == 1 then l2router else l1router
