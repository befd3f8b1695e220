-- ===== src/Routing/Router.antt =====
-- src/routing/l1router.cc: the level 1 and level 2 routers. One record holds both tables; a level 1
-- router never touches the second.
use cppdecnet.Prelude.{
  ℕ, zero, suc, ◌+◌, ◌%◌, ◌^◌, min, max, Bool, true, false, not, ◌&&◌, ◌||◌, Option, none, some,
  List, [], ◌∷◌, ◌++◌, ltb, leb, ◌==◌, if◌then◌else◌,
}
use cppdecnet.Routing.Message.{infhops, infcost, RouteUpdate}
use cppdecnet.Routing.Matrix.{
  Adjacency, Column, Matrix, Event, new_column, compute, erase_column, find_column, insert_column,
  update, area, tid,
}

-- Events of the level 1 table, of the area table, and of a routing message that names destinations
-- beyond the table; `srm` marks a range of destinations for advertisement on every circuit, and
-- the last three count a packet on a circuit.
pub data Report : Type 0 where
  node_event area_event : Event → Report
  partial_update : ℕ → Report
  srm asrm : ℕ → ℕ → Report
  orig_sent trans_recv trans_sent : ℕ → Report

pub record Router : Type 0 where
  pub nodeid : ℕ
  pub maxnodes : ℕ
  pub maxarea : ℕ
  pub maxvisits : ℕ
  pub self : Adjacency
  pub endnodes : Column
  pub l1 : Matrix
  pub l2 : Matrix
  pub attached : Bool
  pub partial_update_loss : ℕ
  pub aged_loss : ℕ
  pub unreach_loss : ℕ
  pub oor_loss : ℕ
  pub transit_sent : ℕ
  pub reports : List Report

abbrev pub homearea : Router → ℕ
homearea r = area r.nodeid

abbrev pub node_reports : List Event → List Report
node_reports [] = []
node_reports (e ∷ es) = node_event e ∷ node_reports es

abbrev pub area_reports : List Event → List Report
area_reports [] = []
area_reports (e ∷ es) = area_event e ∷ area_reports es

unfoldable pub compute_routes : ℕ → ℕ → Router → Router
compute_routes first last r =
    let (m, es) = compute (some r.endnodes) first last r.l1 in
    record r { l1 = m; reports = r.reports ++ node_reports es }

-- This node's own column: nothing to itself, and infinity to all else.
abbrev pub self_column : Adjacency → ℕ → Column
self_column a i =
    let c = new_column a in record c { hops = update c.hops i 0; cost = update c.cost i 0 }

unfoldable pub start_l1 : Router → Router
unfolding insert_column new_column compute_routes
start_l1 r = compute_routes 0 r.maxnodes (record r {
  l1 = record (r.l1) { columns = insert_column (self_column r.self (tid r.nodeid)) r.l1.columns };
})

unfoldable pub adj_up_l1 : Adjacency → Router → Router
unfolding insert_column new_column compute_routes
adj_up_l1 a r =
    let t = tid a.nodeid in
    if a.router
    then record r {
      l1 = record (r.l1) { columns = insert_column (new_column a) r.l1.columns };
      reports = r.reports ++ srm 0 r.maxnodes ∷ [];
    }
    else if leb t r.maxnodes
    then compute_routes t t (record r {
      endnodes = record (r.endnodes) {
        hops = update r.endnodes.hops t 1;
        cost = update r.endnodes.cost t (a.circuit_cost % 2 ^ 16);
        adjacency = update r.endnodes.adjacency t (some a);
      };
    })
    else r

unfoldable pub adj_down_l1 : Adjacency → Router → Router
unfolding erase_column compute_routes
adj_down_l1 a r =
    let t = tid a.nodeid in
    if a.router
    then compute_routes 0 r.maxnodes
        (record r { l1 = record (r.l1) { columns = erase_column a.key r.l1.columns } })
    else if leb t r.maxnodes
    then compute_routes t t (record r {
      endnodes = record (r.endnodes) {
        hops = update r.endnodes.hops t infhops;
        cost = update r.endnodes.cost t infcost;
        adjacency = update r.endnodes.adjacency t none;
      };
    })
    else r

-- One entry of a routing message in the column of its sender.
unfoldable pub set_entry : ℕ → ℕ → ℕ → Column → Column
set_entry i h c col = record col { hops = update col.hops i h; cost = update col.cost i c }

abbrev pub entry_differs : RouteUpdate → Column → Bool
entry_differs u col =
    not (col.hops u.id == min u.hops infhops) || not (col.cost u.id == min u.cost infcost)

-- The loop of `routing_message`: the router, and the highest destination beyond the table.
unfoldable pub apply_l1 : ℕ → List RouteUpdate → Router → ℕ → Router × ℕ
unfolding find_column insert_column set_entry compute_routes
apply_l1 key [] r maxreach = (r, maxreach)
apply_l1 key (u ∷ us) r maxreach =
    if ltb r.maxnodes u.id
    then apply_l1 key us r
        (if leb u.hops infhops && ltb u.cost infcost then max maxreach u.id else maxreach)
    else apply_l1 key us (apply_entry u (find_column key r.l1.columns)) maxreach
  where
    apply_entry : RouteUpdate → Option Column → Router
    apply_entry u none = r
    apply_entry u (some col) =
        if entry_differs u col
        then compute_routes u.id u.id (record r {
          l1 = record (r.l1) {
            columns =
                insert_column (set_entry u.id (min u.hops infhops) (min u.cost infcost) col)
                  r.l1.columns;
          };
        })
        else r

unfoldable pub report_partial : Router × ℕ → Router
report_partial (r, maxreach) = if maxreach == 0 then r else record r {
  partial_update_loss = r.partial_update_loss + 1;
  reports = r.reports ++ partial_update maxreach ∷ [];
}

-- `routing_message` with a level 1 message from the adjacency of that key.
unfoldable pub message_l1 : ℕ → List RouteUpdate → Router → Router
unfolding find_column apply_l1 report_partial
message_l1 key us r = elim (find_column key r.l1.columns) [
  | none ↦ r
  | some c ↦ report_partial (apply_l1 key us r 0)
]

-- The test of `compute_areas`, over the areas 1 to n.
reaches_area : ℕ → ℕ → (ℕ → Option Adjacency) → Bool
reaches_area zero home oadj = false
reaches_area (suc n) home oadj =
    reaches_area n home oadj
    || (not (suc n == home) && elim (oadj (suc n)) [ none ↦ false | some a ↦ true ])

-- Destination 0 in our own column, which says that we are attached.
advertise_attached : Bool → Router → Option Column → Router
unfolding insert_column set_entry
advertise_attached on r none = r
advertise_attached on r (some c) = record r {
  l1 = record (r.l1) {
    columns =
        insert_column (set_entry 0 (if on then 0 else infhops) (if on then 0 else infcost) c)
          r.l1.columns;
  };
}

same_bool : Bool → Bool → Bool
same_bool true b = b
same_bool false b = not b

unfoldable pub compute_areas : ℕ → ℕ → Router → Router
unfolding reaches_area advertise_attached same_bool find_column compute_routes
compute_areas first last r =
    let (m, es) = compute none first last r.l2 in
    let filed = record r { l2 = m; reports = r.reports ++ area_reports es } in
    let on = reaches_area r.maxarea (homearea r) m.oadj in
    if same_bool on r.attached
    then filed
    else let flagged = record filed { attached = on } in
      let told = advertise_attached on flagged (find_column r.self.key flagged.l1.columns) in
      compute_routes 0 0 (record told { reports = told.reports ++ srm 0 0 ∷ [] })

unfoldable pub start_l2 : Router → Router
unfolding start_l1 insert_column new_column compute_areas
start_l2 r0 =
    let r = start_l1 r0 in
    compute_areas 1 r.maxarea (record r {
      l2 = record (r.l2) { columns = insert_column (self_column r.self (homearea r)) r.l2.columns };
    })

-- `set_asrm (1, maxarea_)`
mark_areas : ℕ → Router → Router
mark_areas maxarea r = record r { reports = r.reports ++ asrm 1 maxarea ∷ [] }

unfoldable pub adj_up_l2 : Adjacency → Router → Router
unfolding adj_up_l1 insert_column new_column mark_areas
adj_up_l2 a r =
    if a.level2
    then mark_areas r.maxarea (
        adj_up_l1 a
          (record r { l2 = record (r.l2) { columns = insert_column (new_column a) r.l2.columns } }))
    else adj_up_l1 a r

unfoldable pub adj_down_l2 : Adjacency → Router → Router
unfolding adj_down_l1 erase_column compute_areas
adj_down_l2 a r =
    let down = adj_down_l1 a r in
    if a.level2
    then compute_areas 1 r.maxarea
        (record down { l2 = record (down.l2) { columns = erase_column a.key down.l2.columns } })
    else down

-- Where a packet goes: the adjacency, none for unreachable; `true` is out of range.
unfoldable pub find_oadj_l1 : ℕ → Router → Option Adjacency × Bool
find_oadj_l1 dest r =
    let t = if area dest == homearea r then tid dest else 0 in
    if ltb r.l1.maxid t then (none, true) else (r.l1.oadj t, false)

unfoldable pub find_oadj_l2 : ℕ → Router → Option Adjacency × Bool
unfolding find_oadj_l1
find_oadj_l2 dest r =
    if r.attached && not (area dest == homearea r)
    then if ltb r.l2.maxid (area dest) then (none, true) else (r.l2.oadj (area dest), false)
    else find_oadj_l1 dest r
