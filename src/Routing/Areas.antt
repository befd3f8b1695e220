-- ===== src/Routing/Areas.antt =====
-- src/routing/l1router.cc: `L2Router::routing_message` with a level 2 message, and what a router says of
-- its routes.
use cppdecnet.Prelude.{
  ℕ, min, max, ◌&&◌, ◌||◌, Bool, true, false, Option, none, some, List, [], ◌∷◌, ltb, leb,
  if◌then◌else◌,
}
use cppdecnet.Routing.Message.{infhops, infcost, RouteUpdate}
use cppdecnet.Routing.Matrix.{Column, Matrix, Adjacency, find_column, insert_column}
use cppdecnet.Routing.Router.{
  Router, set_entry, entry_differs, compute_areas, report_partial, message_l1,
}

-- The entry of an area in the column of the sender.
unfoldable pub apply_area : ℕ → RouteUpdate → Option Column → Router → Router
apply_area key u none r = r
apply_area key u (some col) r =
    if entry_differs u col
    then compute_areas u.id u.id (record r {
      l2 = record (r.l2) {
        columns =
            insert_column (set_entry u.id (min u.hops infhops) (min u.cost infcost) col)
              r.l2.columns;
      };
    })
    else r

-- The loop: the router, and the highest area beyond the table.
unfoldable pub apply_l2 : ℕ → List RouteUpdate → Router → ℕ → Router × ℕ
apply_l2 key [] r maxreach = (r, maxreach)
apply_l2 key (u ∷ us) r maxreach =
    if ltb u.id 1 || ltb r.maxarea u.id
    then apply_l2 key us r (
        if ltb r.maxarea u.id && (leb u.hops infhops && ltb u.cost infcost)
        then max maxreach u.id
        else maxreach)
    else apply_l2 key us (apply_area key u (find_column key r.l2.columns) r) maxreach

unfoldable pub message_areas : ℕ → List RouteUpdate → Option Column → Router → Router
message_areas key us none r = r
message_areas key us (some c) r = report_partial (apply_l2 key us r 0)

-- `routing_message`, by whether the message is of level 2.
unfoldable pub message_l2 : ℕ → Bool → List RouteUpdate → Router → Router
message_l2 key true us r = message_areas key us (find_column key r.l2.columns) r
message_l2 key false us r = message_l1 key us r

unfoldable pub is_some : Option Adjacency → Bool
is_some none = false
is_some (some a) = true

-- What a matrix says of a destination.
unfoldable pub reachable : ℕ → Matrix → Bool
reachable t m = leb t m.maxid && is_some (m.oadj t)

unfoldable pub hops_to : ℕ → Matrix → ℕ
hops_to t m = if leb t m.maxid then m.minhops t else infhops

unfoldable pub cost_to : ℕ → Matrix → ℕ
cost_to t m = if leb t m.maxid then m.mincost t else infcost
