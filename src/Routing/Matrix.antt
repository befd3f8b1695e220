-- ===== src/Routing/Matrix.antt =====
-- src/routing/l1router.cc and include/decnet/routing/l1router.h: the routing matrix, the choice of
-- the best column, and what adjacencies and routing messages change in it.
use cppdecnet.Prelude.{
  ℕ, zero, suc, ◌+◌, ◌-◌, ◌/◌, ◌%◌, ◌^◌, min, Bool, true, false, not, ◌&&◌, ◌||◌, Option, none,
  some, List, [], ◌∷◌, ◌++◌, ltb, ◌==◌, if◌then◌else◌,
}
use cppdecnet.Routing.Message.{infhops, infcost}

-- An adjacency: `key` is its identity (the pointer of the source), `circuit` is none for this node's
-- own.
pub record Adjacency : Type 0 where
  pub key : ℕ
  pub nodeid : ℕ
  pub router : Bool
  pub level2 : Bool
  pub circuit : Option ℕ
  pub circuit_cost : ℕ

abbrev pub is_self : Adjacency → Bool
is_self a = elim a.circuit [ none ↦ true | some _ ↦ false ]

abbrev pub area : ℕ → ℕ
area nodeid = nodeid / 1024

abbrev pub tid : ℕ → ℕ
tid nodeid = nodeid % 1024

-- A vector indexed by destination is a function that is read up to the highest destination.
abbrev pub update {ℓ} : {A : Type ℓ} → (ℕ → A) → ℕ → A → ℕ → A
update f i v j = if j == i then v else f j

-- RouteInfo and EndnodesRouteInfo: `adjacency` is constant in the one.
pub record Column : Type 0 where
  pub key : ℕ
  pub hops : ℕ → ℕ
  pub cost : ℕ → ℕ
  pub adjacency : ℕ → Option Adjacency

unfoldable pub new_column : Adjacency → Column
new_column a = record {
  key = a.key;
  hops = λ i. infhops;
  cost = λ i. infcost;
  adjacency = λ i. some a;
}

unfoldable pub endnode_column : Column
endnode_column = record { key = 0; hops = λ i. infhops; cost = λ i. infcost; adjacency = λ i. none }

-- RouteMatrix; the columns stand in the order of the map.
pub record Matrix : Type 0 where
  pub columns : List Column
  pub minhops : ℕ → ℕ
  pub mincost : ℕ → ℕ
  pub oadj : ℕ → Option Adjacency
  pub maxid : ℕ
  pub maxhops : ℕ
  pub maxcost : ℕ

-- `resize` on a matrix with no column.
unfoldable pub new_matrix : ℕ → ℕ → ℕ → Matrix
new_matrix maxid maxhops maxcost = record {
  columns = [];
  minhops = λ i. infhops;
  mincost = λ i. infcost;
  oadj = λ i. none;
  maxid = maxid;
  maxhops = maxhops;
  maxcost = maxcost;
}

-- The best route found so far.
pub record Best : Type 0 where
  pub hops : ℕ
  pub cost : ℕ
  pub adj : Option Adjacency

abbrev pub no_route : Best
no_route = record { hops = infhops; cost = infcost; adj = none }

-- Both adjacencies are there, and the first has the higher address.
unfoldable pub outranks : Option Adjacency → Option Adjacency → Bool
outranks none b = false
outranks (some a) none = false
outranks (some a) (some b) = ltb b.nodeid a.nodeid

unfoldable pub consider : ℕ → Best → Column → Best
unfolding outranks
consider i b r =
    if ltb (r.cost i) b.cost || (r.cost i == b.cost && outranks (r.adjacency i) b.adj)
    then record { hops = r.hops i; cost = r.cost i; adj = r.adjacency i }
    else b

unfoldable pub best_of : ℕ → List Column → Best → Best
unfolding consider
best_of i [] b = b
best_of i (r ∷ rs) b = best_of i rs (consider i b r)

-- A route beyond the limits is none.
unfoldable pub limited : ℕ → ℕ → Best → Best
limited maxhops maxcost b = if ltb maxcost b.cost || ltb maxhops b.hops then no_route else b

-- The columns that are looked at, in order.
abbrev pub considered : Matrix → Option Column → List Column
considered m none = m.columns
considered m (some r) = m.columns ++ r ∷ []

unfoldable pub choose : Matrix → Option Column → ℕ → Best
unfolding best_of limited
choose m extra i = limited m.maxhops m.maxcost (best_of i (considered m extra) no_route)

-- What the computation reports: `on_change`, and `on_reach` with the new reachability.
pub data Event : Type 0 where
  changed : ℕ → Event
  reach : ℕ → Bool → Event

abbrev same_adj : Option Adjacency → Option Adjacency → Bool
same_adj none none = true
same_adj none (some b) = false
same_adj (some a) none = false
same_adj (some a) (some b) = a.key == b.key

abbrev is_some : Option Adjacency → Bool
is_some none = false
is_some (some a) = true

abbrev is_own : Option Adjacency → Bool
is_own none = false
is_own (some a) = is_self a

abbrev differs : ℕ → Best → Matrix → Bool
differs i b m = not (m.minhops i == b.hops) || not (m.mincost i == b.cost)

-- The tail of the loop of `compute` for destination i, which files the best route.
unfoldable pub file_route : ℕ → Best → Matrix → Matrix
file_route i b m = record m {
  minhops = if differs i b m then update m.minhops i (b.hops % 256) else m.minhops;
  mincost = if differs i b m then update m.mincost i (b.cost % 2 ^ 16) else m.mincost;
  oadj = if same_adj b.adj (m.oadj i) then m.oadj else update m.oadj i b.adj;
}

unfoldable pub route_events : ℕ → Best → Matrix → List Event
route_events i b m =
    (if differs i b m then changed i ∷ [] else [])
    ++ (if not (same_adj b.adj (m.oadj i))
          && ((not (is_some b.adj) || not (is_some (m.oadj i))) && not (is_own b.adj))
        then reach i (is_some b.adj) ∷ []
        else [])

unfoldable pub compute_one : Option Column → ℕ → Matrix → Matrix × List Event
unfolding choose file_route route_events
compute_one extra i m = let b = choose m extra i in (file_route i b m, route_events i b m)

-- The loop of `compute`: `rounds` destinations from first on.
unfoldable pub compute_loop : Option Column → ℕ → ℕ → Matrix → Matrix × List Event
unfolding compute_one
compute_loop extra zero first m = (m, [])
compute_loop extra (suc rounds) first m =
    let (m', es) = compute_one extra first m in
    let (m'', es') = compute_loop extra rounds (first + 1) m' in (m'', es ++ es')

unfoldable pub compute : Option Column → ℕ → ℕ → Matrix → Matrix × List Event
unfolding compute_loop
compute extra first last m = compute_loop extra (suc (min last m.maxid) - first) first m

unfoldable pub erase_column : ℕ → List Column → List Column
erase_column k [] = []
erase_column k (r ∷ rs) = if r.key == k then rs else r ∷ erase_column k rs

unfoldable pub find_column : ℕ → List Column → Option Column
find_column k [] = none
find_column k (r ∷ rs) = if r.key == k then some r else find_column k rs

-- `columns[key] = column`, in a map ordered by key.
unfoldable pub insert_column : Column → List Column → List Column
insert_column c [] = c ∷ []
insert_column c (r ∷ rs) =
    if r.key == c.key
    then c ∷ rs
    else if ltb c.key r.key
    then c ∷ (r ∷ rs)
    else r ∷ insert_column c rs
