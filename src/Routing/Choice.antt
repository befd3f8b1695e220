-- ===== src/Routing/Choice.antt =====
-- The route that is chosen for a destination (L1Router::compute of src/routing/l1router.cc).
use cppdecnet.Prelude.{
  ℕ, ◌≤◌, ◌<◌, ◌≡◌, refl, ◌∙◌, ◌⊎◌, inl, inr, ◌&&◌, ◌||◌, Option, List, [], ◌∷◌, ltb, ◌==◌,
  if-cases, arith,
}
use cppdecnet.Routing.Matrix.{
  Column, Matrix, Best, no_route, outranks, consider, best_of, limited, considered, choose,
}

-- The best route costs no more than any other.
abbrev pub Cheapest : ℕ → List Column → Best → Type 0
Cheapest i [] b = Unit {0}
Cheapest i (r ∷ rs) b = (b.cost ≤ r.cost i) × Cheapest i rs b

abbrev pub route_of : ℕ → Column → Best
route_of i r = record { hops = r.hops i; cost = r.cost i; adj = r.adjacency i }

-- The route is that of a column.
abbrev pub Offered : ℕ → List Column → Best → Type 0
Offered i [] b = ⊥
Offered i (r ∷ rs) b = (b ≡ route_of i r) ⊎ Offered i rs b

consider-le :
    (i : ℕ) (b : Best) (r : Column)
    → ((consider i b r).cost ≤ b.cost) × ((consider i b r).cost ≤ r.cost i)
unfolding consider
consider-le i b r = ground arith

consider_cases :
    (i : ℕ) (b : Best) (r : Column) → (consider i b r ≡ b) ⊎ (consider i b r ≡ route_of i r)
unfolding consider
consider_cases i b r =
    if-cases (λ c. (c ≡ b) ⊎ (c ≡ route_of i r))
      (ltb (r.cost i) b.cost || (r.cost i == b.cost && outranks (r.adjacency i) b.adj))
      (λ _. inr refl) (λ _. inl refl)

best_of-le : (i : ℕ) (rs : List Column) (b : Best) → (best_of i rs b).cost ≤ b.cost
unfolding best_of
best_of-le i [] b = omega arith
best_of-le i (r ∷ rs) b = omega (arith, best_of-le i rs (consider i b r), (consider-le i b r).0)

best_of-Cheapest : (i : ℕ) (rs : List Column) (b : Best) → Cheapest i rs (best_of i rs b)
unfolding best_of
best_of-Cheapest i [] b = tt
best_of-Cheapest i (r ∷ rs) b = (
  omega (arith, best_of-le i rs (consider i b r), (consider-le i b r).1),
  best_of-Cheapest i rs (consider i b r),
)

best_of-Offered :
    (i : ℕ) (rs : List Column) (b : Best) → (best_of i rs b ≡ b) ⊎ Offered i rs (best_of i rs b)
unfolding best_of
best_of-Offered i [] b = inl refl
best_of-Offered i (r ∷ rs) b = elim (best_of-Offered i rs (consider i b r)) [
  | inl e ↦ elim (consider_cases i b r) [ inl f ↦ inl (e ∙ f) | inr f ↦ inr (inl (e ∙ f)) ]
  | inr h ↦ inr (inr h)
]

-- What a matrix makes of the best route: none beyond its limits.
abbrev pub Within : Matrix → Best → Best → Type 0
Within m best c =
    ((m.maxcost < best.cost) ⊎ (m.maxhops < best.hops)) × (c ≡ no_route)
    ⊎ (best.cost ≤ m.maxcost) × (best.hops ≤ m.maxhops) × (c ≡ best)

limited-Within : (m : Matrix) (b : Best) → Within m b (limited m.maxhops m.maxcost b)
unfolding limited
limited-Within m b =
    if-cases (λ c. Within m b c) (ltb m.maxcost b.cost || ltb m.maxhops b.hops)
      (λ h. inl (ground arith, refl)) (λ h. inr (ground arith, ground arith, refl))

-- The route chosen for a destination is the cheapest that a column offers, or none where no column
-- costs less than infinity; and it is none where the cheapest is beyond the limits of cost or
-- hops.
pub choose-Cheapest :
    (m : Matrix) (extra : Option Column) (i : ℕ)
    → (best : Best) × Cheapest i (considered m extra) best
      × ((best ≡ no_route) ⊎ Offered i (considered m extra) best)
      × Within m best (choose m extra i)
unfolding choose
choose-Cheapest m extra i =
    let best = best_of i (considered m extra) no_route in
    (
      best,
      best_of-Cheapest i (considered m extra) no_route,
      best_of-Offered i (considered m extra) no_route,
      limited-Within m best,
    )
