-- ===== src/Routing/Lan/Router.antt =====
-- src/routing/lan.cc: class RoutingLanCircuit, which elects the designated router.
use cppdecnet.Prelude.{
  ℕ, min, Bool, true, false, not, ◌&&◌, ◌||◌, Option, none, some, List, [], ◌∷◌, ltb, ◌==◌,
  if◌then◌else◌, lookup, assign,
}
use cppdecnet.Types.{area}
use cppdecnet.Routing.Forward.{ShortData}
use cppdecnet.Routing.Message.{RouteUpdate}
use cppdecnet.Routing.Ptp.{AdjacencyInfo, l2router, endnode}
use cppdecnet.Routing.Lan.{
  Rsent, RouterHello, EndnodeHello, Packet, router_hello, endnode_hello, data_packet,
  routing_message, other, Adjacency, LanAdjacency, Output, to_routers, to_endnodes, forwarded,
  updated, alive, Parent, Lan, ethmtu, entry, put, adjacency_up, adjacency_down, listen_down,
  info_of_hello, hello_ntype,
}

-- `dr` is 0 where none is known; `drtimer` is the timer of DRDELAY, which runs or does not.
pub record RoutingLan : Type 0 where
  pub lan : Lan
  pub prio : ℕ
  pub t3 : ℕ
  pub isdr : Bool
  pub dr : ℕ
  pub drtimer_running : Bool
  pub drtimer : Bool

-- The order of the election.
unfoldable pub better_dr : ℕ → ℕ → ℕ → ℕ → Bool
better_dr prio_a a prio_b b = if prio_a == prio_b then ltb b a else ltb prio_b prio_a

-- The loop of `best_dr`: the best priority and address so far, and whether they are our own.
unfoldable pub best_in : ℕ → ℕ × ℕ × Bool → List (ℕ × LanAdjacency) → ℕ × ℕ × Bool
unfolding better_dr
best_in home best [] = best
best_in home best ((key, a) ∷ m) =
    let better = best_in home (a.prio, key, false) m in
    let same = best_in home best m in
    if (a.ntype == endnode) || not (area key == home)
    then same
    else if better_dr a.prio key best.0 best.1
    then better
    else same

unfoldable pub best_dr : Parent → RoutingLan → ℕ × ℕ × Bool
unfolding best_in
best_dr p c = best_in p.homearea (c.prio, p.nodeid, true) c.lan.adjacencies

unfoldable pub elist_of : List (ℕ × LanAdjacency) → List Rsent
elist_of [] = []
elist_of ((key, a) ∷ m) =
    let rest = elist_of m in
    if a.ntype == endnode
    then rest
    else record { router = key; prio = a.prio; twoway = a.up } ∷ rest

unfoldable pub build_elist : Bool → RoutingLan → List Rsent
build_elist empty c = if empty then [] else elist_of c.lan.adjacencies

unfoldable pub hello_of : Parent → Bool → RoutingLan → RouterHello
hello_of p empty c = record {
  tiver = p.tiver;
  id = p.nodeid;
  ntype = if p.ntype == l2router then 1 else 2;
  blksize = ethmtu;
  prio = c.prio;
  timer = c.t3;
  elist = some (build_elist empty c);
}

abbrev pub output : Output → RoutingLan → RoutingLan
output o c = record c { lan = put o c.lan }

unfoldable pub send_hello : Parent → RoutingLan → RoutingLan
send_hello p c =
    let h = router_hello (hello_of p false c) in
    let sent = output (to_routers h) c in if c.isdr then output (to_endnodes h) sent else sent

-- `calc_dr`, by what `best_dr` found.
unfoldable pub settle_dr : Parent → ℕ → Bool → RoutingLan → RoutingLan
settle_dr p who true c =
    if not c.isdr && not c.drtimer_running
    then record c { drtimer_running = true; drtimer = true }
    else c
settle_dr p who false c =
    let stepped = if c.isdr then send_hello p (record c { isdr = false }) else c in
    if stepped.dr == who
    then stepped
    else record stepped { drtimer_running = false; drtimer = false; dr = who }

unfoldable pub calc_dr : Parent → RoutingLan → RoutingLan
calc_dr p c = let (prio, who, self) = best_dr p c in settle_dr p who self c

-- The DRDELAY timer expires.
unfoldable pub become_dr : Parent → RoutingLan → RoutingLan
become_dr p c =
    let fired = record c { drtimer_running = false; drtimer = false } in
    let (prio, who, self) = best_dr p fired in
    if self then send_hello p (record fired { isdr = true; dr = p.nodeid }) else calc_dr p fired

unfoldable pub start : Parent → RoutingLan → RoutingLan
start p c = calc_dr p (send_hello p c)

-- The hello that empties the router list; the circuit's timers are stopped.
unfoldable pub stop : Parent → RoutingLan → RoutingLan
stop p c = output (to_routers (router_hello (hello_of p true c))) (record c { drtimer = false })

-- RoutingLanCircuit::adjacency_down, by the entry.
unfoldable pub lose : Parent → ℕ → Option LanAdjacency → RoutingLan → RoutingLan
lose p key none c = c
lose p key (some a) c =
    let dropped = record c { lan = adjacency_down key c.lan } in
    let forgotten = if c.dr == key then record dropped { dr = 0 } else dropped in
    if a.ntype == endnode then forgotten else send_hello p (calc_dr p forgotten)

unfoldable pub router_down : Parent → ℕ → RoutingLan → RoutingLan
router_down p key c = lose p key (lookup key c.lan.adjacencies) c

-- The listen timer of a neighbour expires: Adjacency::timeout and then the circuit's adj_timeout.
unfoldable pub listen_timeout : Parent → ℕ → RoutingLan → RoutingLan
listen_timeout p key c = router_down p key (record c { lan = listen_down key c.lan })

unfoldable pub lists : ℕ → List Rsent → Bool
lists id [] = false
lists id (e ∷ es) = (e.router == id) || lists id es

unfoldable pub listed : ℕ → Option (List Rsent) → Bool
unfolding lists
listed id none = false
listed id (some es) = lists id es

-- The adjacency that the first hello makes, in the state of one that is not up.
unfoldable pub known : RouterHello → Option Adjacency → Adjacency
known h none = record { info = info_of_hello h (hello_ntype h); up = false }
known h (some a) = a

unfoldable pub on_router_hello : Parent → RouterHello → List ℕ → RoutingLan → RoutingLan
on_router_hello p h src c =
    let both_l2 = (h.ntype == 1) && (p.ntype == l2router) in
    if not (area h.id == p.homearea) && not both_l2
    then c
    else let a = entry h.id c.lan in
      let heard = record a {
        macaddr = src;
        prio = h.prio;
        ntype = hello_ntype h;
        adj = some (known h a.adj);
      } in
      let filed =
        put (alive h.id) (record (c.lan) { adjacencies = assign h.id heard c.lan.adjacencies }) in
      let twoway = listed p.nodeid h.elist && not a.up in
      calc_dr p (record c {
        lan = if twoway then adjacency_up h.id (info_of_hello h (hello_ntype h)) filed else filed;
      })

unfoldable pub on_endnode_hello : Parent → EndnodeHello → List ℕ → RoutingLan → RoutingLan
on_endnode_hello p h src c =
    let a = entry h.id c.lan in
    let heard = record a { macaddr = src; ntype = endnode } in
    let info : AdjacencyInfo = record {
      id = h.id;
      ntype = endnode;
      blksize = min h.blksize ethmtu;
      tiver = h.tiver;
      timer = h.timer;
      rphase = 4;
    } in
    if not (area h.id == p.homearea) then c else if a.up then output (alive h.id) c else record c {
      lan =
          adjacency_up h.id info
            (record (c.lan) { adjacencies = assign h.id heard c.lan.adjacencies });
    }

abbrev pub hears : LanAdjacency → Bool
hears a = elim a.adj [ none ↦ false | some _ ↦ a.up ]

-- A routing message of a neighbour, by the neighbour's entry.
unfoldable pub on_routing_message :
    ℕ → List RouteUpdate → Option LanAdjacency → RoutingLan → RoutingLan
on_routing_message src us none c = c
on_routing_message src us (some a) c =
    if hears a then output (updated src us) (output (alive src) c) else c

unfoldable pub bytes_equal : List ℕ → List ℕ → Bool
bytes_equal [] [] = true
bytes_equal (a ∷ xs) (b ∷ ys) = (a == b) && bytes_equal xs ys
bytes_equal _ _ = false

-- Traffic of an endnode is as good as its hello.
unfoldable pub on_traffic : ShortData → List ℕ → Option LanAdjacency → RoutingLan → RoutingLan
on_traffic d src none c = output (forwarded d) c
on_traffic d src (some a) c =
    let good = hears a && ((a.ntype == endnode) && bytes_equal a.macaddr src) in
    output (forwarded d) (if good then output (alive d.srcnode) c else c)

-- `handle`, of a packet from a station.
unfoldable pub handle : Parent → Packet → List ℕ → RoutingLan → RoutingLan
handle p (router_hello h) src c = on_router_hello p h src c
handle p (endnode_hello h) src c = on_endnode_hello p h src c
handle p (routing_message n us) src c = on_routing_message n us (lookup n c.lan.adjacencies) c
handle p (data_packet d) src c = on_traffic d src (lookup d.srcnode c.lan.adjacencies) c
handle p other src c = c
