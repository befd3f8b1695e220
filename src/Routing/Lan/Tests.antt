-- ===== src/Routing/Lan/Tests.antt =====
-- The theorems on a broadcast circuit at concrete input.
use cppdecnet.Prelude.{ℕ, ◌+◌, ◌≡◌, ◌↔◌, refl, sym, inl, inr, true, false, none, [], ◌∷◌}
use cppdecnet.Routing.Lan.{LanAdjacency, Parent}
use cppdecnet.Routing.Lan.Router.{RoutingLan, best_dr, better_dr, calc_dr}
use cppdecnet.Routing.Lan.Election.{Candidate, best_dr-best, best_dr-agree, calc_dr-follows}

-- Routers of area 1, of numbers 1 and 2, of priorities 64 and 65, each of which hears the other.
abbrev node : ℕ → Parent
node number = record {
  nodeid = 1024 + number;
  ntype = 2;
  tiver = record { v1 = 2; v2 = 0; v3 = 0 };
  homearea = 1;
}

abbrev heard : ℕ → LanAdjacency
heard prio = record { adj = none; macaddr = []; up = true; prio = prio; ntype = 2 }

abbrev circuit : ℕ → ℕ → ℕ → RoutingLan
circuit prio other other_prio = record {
  lan = record {
    adjacencies = (1024 + other, heard other_prio) ∷ [];
    adj_downs = 0;
    peak_adj = 1;
    out = [];
  };
  prio = prio;
  t3 = 10;
  isdr = true;
  dr = 1025;
  drtimer_running = false;
  drtimer = false;
}

abbrev first : RoutingLan
first = circuit 64 2 65

abbrev second : RoutingLan
second = circuit 65 1 64

second_wins : best_dr (node 1) first ≡ (65, 1026, false)
unfolding best_dr
second_wins = refl

best_dr-best_example :
    Candidate (node 1) first (best_dr (node 1) first).0 (best_dr (node 1) first).1
    × ((prio id : ℕ)
        → Candidate (node 1) first prio id
        → better_dr prio id (best_dr (node 1) first).0 (best_dr (node 1) first).1 ≡ false)
best_dr-best_example = best_dr-best (node 1) first

same : (prio id : ℕ) → Candidate (node 1) first prio id ↔ Candidate (node 2) second prio id
same prio id = (forth, back)
  where
    forth : Candidate (node 1) first prio id → Candidate (node 2) second prio id
    forth = elim [
      | inl (x, y) ↦ inr (inl (refl, refl, sym x, sym y))
      | inr (inl (x, y, z, w)) ↦ inl (sym z, sym w)
      | inr (inr h) ↦ absurd h
    ]

    back : Candidate (node 2) second prio id → Candidate (node 1) first prio id
    back = elim [
      | inl (x, y) ↦ inr (inl (refl, refl, sym x, sym y))
      | inr (inl (x, y, z, w)) ↦ inl (sym z, sym w)
      | inr (inr h) ↦ absurd h
    ]

best_dr-agree_example :
    ((best_dr (node 1) first).1 ≡ (best_dr (node 2) second).1)
    × ((best_dr (node 1) first).2 ≡ true
        → (best_dr (node 2) second).2 ≡ true
        → (node 1).nodeid ≡ (node 2).nodeid)
best_dr-agree_example = best_dr-agree (node 1) (node 2) first second same

calc_dr-follows_example :
    ((calc_dr (node 1) first).isdr ≡ false)
    × ((calc_dr (node 1) first).dr ≡ (best_dr (node 1) first).1)
calc_dr-follows_example = calc_dr-follows (node 1) first (unfold best_dr in refl)
