-- ===== src/Routing/Lan/Endnode.antt =====
-- src/routing/lan.cc: class EndnodeLanCircuit, which follows a router and caches where packets came from.
use cppdecnet.Prelude.{
  ℕ, ◌+◌, Bool, true, false, not, Option, none, some, List, [], ◌∷◌, leb, ◌==◌, if◌then◌else◌,
  lookup, assign, remove,
}
use cppdecnet.Types.{area, macaddr_of}
use cppdecnet.Routing.Forward.{ShortData}
use cppdecnet.Routing.Lan.{
  RouterHello, Packet, router_hello, endnode_hello, data_packet, LanAdjacency, Output, to_routers,
  to_station, forwarded, alive, Parent, Lan, ethmtu, entry, put, adjacency_up, adjacency_down,
  listen_down, info_of_hello, hello_ntype,
}

pub record CacheEntry : Type 0 where
  pub prevhop : List ℕ
  pub expires : ℕ

-- `dr` is the router that is used, with its station; `now` is what the steady clock reads, in seconds.
pub record EndnodeLan : Type 0 where
  pub lan : Lan
  pub t3 : ℕ
  pub dr : Option (ℕ × List ℕ)
  pub cache : List (ℕ × CacheEntry)
  pub now : ℕ

abbrev pub cache_time : ℕ
cache_time = 60

abbrev pub output : Output → EndnodeLan → EndnodeLan
output o c = record c { lan = put o c.lan }

-- The address of the router that is used, or zeros.
unfoldable pub dr_station : Option (ℕ × List ℕ) → List ℕ
dr_station none = 0 ∷ 0 ∷ 0 ∷ 0 ∷ 0 ∷ 0 ∷ []
dr_station (some d) = d.1

unfoldable pub send_hello : Parent → EndnodeLan → EndnodeLan
send_hello p c =
    output
      (to_routers (
        endnode_hello (record {
          tiver = p.tiver;
          id = p.nodeid;
          blksize = ethmtu;
          neighbor = dr_station c.dr;
          timer = c.t3;
        })))
      c

-- The designated router is the one with this address.
unfoldable pub follows : ℕ → Option (ℕ × List ℕ) → Bool
follows id none = false
follows id (some d) = d.0 == id

unfoldable pub leave : Option (ℕ × List ℕ) → Lan → Lan
leave none l = l
leave (some d) l = adjacency_down d.0 l

-- The listen timer of the router that is used starts again, where it has an adjacency.
unfoldable pub still_there : ℕ → Option LanAdjacency → EndnodeLan → EndnodeLan
still_there id none c = c
still_there id (some a) c = elim a.adj [ none ↦ c | some _ ↦ output (alive id) c ]

unfoldable pub on_router_hello : Parent → RouterHello → List ℕ → EndnodeLan → EndnodeLan
on_router_hello p h src c =
    if not (area h.id == p.homearea)
    then c
    else if follows h.id c.dr
    then still_there h.id (lookup h.id c.lan.adjacencies) c
    else let left = leave c.dr c.lan in
      let filed = record left {
        adjacencies = assign h.id (record (entry h.id left) { macaddr = src }) left.adjacencies;
      } in
      record c {
        dr = some (h.id, src);
        lan = adjacency_up h.id (info_of_hello h (hello_ntype h)) filed;
      }

unfoldable pub unexpired : ℕ → List (ℕ × CacheEntry) → List (ℕ × CacheEntry)
unexpired now [] = []
unexpired now ((k, e) ∷ m) =
    let rest = unexpired now m in if leb e.expires now then rest else (k, e) ∷ rest

unfoldable pub expire_cache : EndnodeLan → EndnodeLan
expire_cache c = record c { cache = unexpired c.now c.cache }

-- A data packet: who delivered it is remembered.
unfoldable pub on_traffic : ShortData → List ℕ → EndnodeLan → EndnodeLan
on_traffic d src c =
    let fresh = expire_cache c in
    output (forwarded d) (record fresh {
      cache = assign d.srcnode (record { prevhop = src; expires = c.now + cache_time }) fresh.cache;
    })

unfoldable pub handle : Parent → Packet → List ℕ → EndnodeLan → EndnodeLan
handle p (router_hello h) src c = on_router_hello p h src c
handle p (data_packet d) src c = on_traffic d src c
handle p _ src c = c

-- What the circuit does when a neighbour's listen timer expires, behind the adjacency.
unfoldable pub adj_timeout : ℕ → EndnodeLan → EndnodeLan
adj_timeout id c =
    let forgotten = if follows id c.dr then record c { dr = none } else c in
    record forgotten { lan = adjacency_down id c.lan }

unfoldable pub listen_timeout : ℕ → EndnodeLan → EndnodeLan
listen_timeout id c = adj_timeout id (record c { lan = listen_down id c.lan })

-- Where a packet goes that no cache entry is used for.
unfoldable pub by_router : Parent → ShortData → Option (ℕ × List ℕ) → EndnodeLan → EndnodeLan × Bool
by_router p d (some r) c = (output (to_station r.1 d) c, true)
by_router p d none c =
    if d.dstnode == p.nodeid
    then (c, false)
    else (output (to_station (macaddr_of d.dstnode) d) c, true)

unfoldable pub by_cache : Parent → ShortData → Option CacheEntry → EndnodeLan → EndnodeLan × Bool
by_cache p d (some e) c = (output (to_station e.prevhop d) c, true)
by_cache p d none c = by_router p d c.dr c

-- `send`: a packet that is sent again does not use the cache.
unfoldable pub send : Parent → ShortData → Bool → EndnodeLan → EndnodeLan × Bool
send p d tryhard c =
    let fresh = expire_cache c in
    if tryhard
    then by_router p d c.dr (record fresh { cache = remove d.dstnode fresh.cache })
    else by_cache p d (lookup d.dstnode fresh.cache) fresh
