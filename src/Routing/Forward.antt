-- ===== src/Routing/Forward.antt =====
-- src/routing/l1router.cc: `L1Router::forward`, over the `find_oadj` of either router.
use cppdecnet.Prelude.{
  ℕ, zero, suc, ◌+◌, ◌*◌, ◌%◌, min, Bool, true, false, not, ◌&&◌, Option, none, some, List, [], ◌∷◌,
  ◌++◌, ltb, if◌then◌else◌,
}
use cppdecnet.Routing.Matrix.{Adjacency, is_self}
use cppdecnet.Routing.Router.{Router, Report, orig_sent, trans_recv, trans_sent}

-- ShortData. `src` is the circuit on which the packet arrived, none where we originated it.
pub record ShortData : Type 0 where
  pub sfpd : ℕ
  pub rqr : Bool
  pub rts : Bool
  pub vers : Bool
  pub pf : Bool
  pub dstnode : ℕ
  pub srcnode : ℕ
  pub visit : ℕ
  pub payload : List ℕ
  pub ie : Bool
  pub src : Option ℕ

pub data Loss : Type 0 where
  aged out_of_range unreachable : Loss

-- What becomes of a packet: handed to an adjacency, or dropped and reported. `stuck` is no outcome
-- of the source: the fuel of `forward_fuel` ran out.
pub data Outcome : Type 0 where
  sent : Adjacency → ShortData → Outcome
  dropped : Loss → ShortData → Outcome
  stuck : Outcome

abbrev pub visit_limit_max : ℕ
visit_limit_max = 63

-- A packet that is being returned may make twice as many visits, as far as the field holds them.
unfoldable pub visit_limit : Router → ShortData → ℕ
visit_limit r p = if p.rts then min (r.maxvisits * 2) visit_limit_max else r.maxvisits

-- The router with the counter of a loss.
unfoldable pub count_loss : Loss → Router → Router
count_loss Loss.aged r = record r { aged_loss = r.aged_loss + 1 }
count_loss Loss.out_of_range r = record r { oor_loss = r.oor_loss + 1 }
count_loss Loss.unreachable r = record r { unreach_loss = r.unreach_loss + 1 }

-- The packet on its way back to its sender.
unfoldable pub returned : ShortData → ShortData
returned p = record p {
  dstnode = p.srcnode;
  srcnode = p.dstnode;
  rts = true;
  rqr = false;
  ie = false;
}

-- The first half of `forward`: the outcome where the packet can go on, or why it cannot.
pub data Attempt : Type 0 where
  goes : Router → Adjacency → ShortData → Attempt
  fails : Loss → Attempt

-- The traffic counters of the circuits that a packet crosses.
crossing : Option ℕ → Option ℕ → List Report
crossing none none = []
crossing none (some c) = trans_recv c ∷ []
crossing (some out) none = orig_sent out ∷ []
crossing (some out) (some c) = trans_recv c ∷ trans_sent out ∷ []

unfoldable pub attempt : Option Adjacency × Bool → Router → ShortData → Attempt
unfolding visit_limit crossing
attempt (none, true) r p = fails Loss.out_of_range
attempt (none, false) r p = fails Loss.unreachable
attempt (some a, true) r p = fails Loss.out_of_range
attempt (some a, false) r p =
    if is_self a
    then goes r a p
    else if ltb p.visit (visit_limit r p)
    then goes
        (record r {
          transit_sent = r.transit_sent + 1;
          reports = r.reports ++ crossing a.circuit p.src;
        })
        a (record p { visit = (p.visit + 1) % 256 })
    else fails Loss.aged

unfoldable pub forward_fuel :
    (ℕ → Router → Option Adjacency × Bool) → ℕ → Router → ShortData → Router × Outcome
unfolding attempt returned count_loss
forward_fuel find zero r p = (r, stuck)
forward_fuel find (suc fuel) r p =
    let back = forward_fuel find fuel r (returned p) in
    elim (attempt (find p.dstnode r) r p) [
      | goes r' a p' ↦ (r', sent a p')
      | fails l ↦ if p.rqr && not p.rts then back else (count_loss l r, dropped l p)
    ]

-- The source calls itself; a packet is turned back once, so two rounds are enough.
unfoldable pub forward :
    (ℕ → Router → Option Adjacency × Bool) → Router → ShortData → Router × Outcome
unfolding forward_fuel
forward find r p = forward_fuel find 2 r p
