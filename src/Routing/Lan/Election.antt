-- ===== src/Routing/Lan/Election.antt =====
-- The election of the designated router.
use cppdecnet.Prelude.{
  ℕ, ◌≡◌, refl, sym, ap, subst, ◌∙◌, ◌⊎◌, inl, inr, ◌↔◌, Bool, true, false, not, ◌||◌, List, [],
  ◌∷◌, ◌==◌, if◌then◌else◌, if-cases, arith,
}
use cppdecnet.Types.{area}
use cppdecnet.Routing.Ptp.{endnode}
use cppdecnet.Routing.Lan.{LanAdjacency, Parent}
use cppdecnet.Routing.Lan.Router.{
  RoutingLan, better_dr, best_in, best_dr, calc_dr, settle_dr, send_hello,
}

-- A router of the circuit's area in the table, with its priority.
abbrev pub Heard : ℕ → ℕ → ℕ → List (ℕ × LanAdjacency) → Type 0
Heard home prio id [] = ⊥
Heard home prio id ((key, a) ∷ m) =
    (((a.ntype == endnode) ≡ false) × ((area key == home) ≡ true) × (a.prio ≡ prio) × (key ≡ id))
    ⊎ Heard home prio id m

better_not :
    (pa a pb b pc c : ℕ)
    → better_dr pa a pb b ≡ false
    → better_dr pb b pc c ≡ false
    → better_dr pa a pc c ≡ false
unfolding better_dr
better_not pa a pb b pc c h k = ground arith

better_self : (p i : ℕ) → better_dr p i p i ≡ false
unfolding better_dr
better_self p i = ground arith

better_asym : (pa a pb b : ℕ) → better_dr pa a pb b ≡ true → better_dr pb b pa a ≡ false
unfolding better_dr
better_asym pa a pb b h = ground arith

better_total :
    (pa a pb b : ℕ)
    → better_dr pa a pb b ≡ false
    → better_dr pb b pa a ≡ false
    → (pa ≡ pb) × (a ≡ b)
unfolding better_dr
better_total pa a pb b h k = ground arith

better_trans :
    (pa a pb b pc c : ℕ)
    → better_dr pa a pb b ≡ true
    → better_dr pb b pc c ≡ true
    → better_dr pa a pc c ≡ true
unfolding better_dr
better_trans pa a pb b pc c h k = ground arith

-- The best of `best` and the routers of the table.
record Elected (home : ℕ) (best : ℕ × ℕ × Bool) (m : List (ℕ × LanAdjacency)) (r : ℕ × ℕ × Bool)
    : Type 0 where
  first : better_dr best.0 best.1 r.0 r.1 ≡ false
  most : (prio id : ℕ) → Heard home prio id m → better_dr prio id r.0 r.1 ≡ false
  from :
      (r ≡ best) ⊎ (Heard home r.0 r.1 m × (r.2 ≡ false) × (better_dr r.0 r.1 best.0 best.1 ≡ true))

best_in-Elected :
    (home : ℕ) (best : ℕ × ℕ × Bool) (m : List (ℕ × LanAdjacency))
    → Elected home best m (best_in home best m)
unfolding best_in
best_in-Elected home best [] = record {
  first = better_self best.0 best.1;
  most = λ p i h. absurd h;
  from = inl refl;
}
best_in-Elected home best ((key, a) ∷ m) =
    if-cases (λ r. Elected home best ((key, a) ∷ m) r)
      ((a.ntype == endnode) || not (area key == home))
      (λ e. skipped e (best_in-Elected home best m))
      (λ e.
        if-cases (λ r. Elected home best ((key, a) ∷ m) r) (better_dr a.prio key best.0 best.1)
          (λ b. taken e b (best_in-Elected home (a.prio, key, false) m))
          (λ b. passed b (best_in-Elected home best m)))
  where
    skipped :
        {r : ℕ × ℕ × Bool}
        → ((a.ntype == endnode) || not (area key == home)) ≡ true
        → Elected home best m r
        → Elected home best ((key, a) ∷ m) r
    skipped e h = record {
      first = h.first;
      most = λ p i. elim [
        | inl (x, y, z, w) ↦ absurd (ground (arith, e, x, y))
        | inr k ↦ h.most p i k
      ];
      from = elim h.from [ inl s ↦ inl s | inr (k, s, t) ↦ inr (inr k, s, t) ];
    }

    passed :
        {r : ℕ × ℕ × Bool}
        → better_dr a.prio key best.0 best.1 ≡ false
        → Elected home best m r
        → Elected home best ((key, a) ∷ m) r
    passed b h = record {
      first = h.first;
      most = λ p i. elim [
        | inl (x, y, z, w) ↦
            better_not p i best.0 best.1 _ _
              (subst (λ n. better_dr n i best.0 best.1 ≡ false) z
                (subst (λ n. better_dr a.prio n best.0 best.1 ≡ false) w b))
              h.first
        | inr k ↦ h.most p i k
      ];
      from = elim h.from [ inl s ↦ inl s | inr (k, s, t) ↦ inr (inr k, s, t) ];
    }

    taken :
        {r : ℕ × ℕ × Bool}
        → ((a.ntype == endnode) || not (area key == home)) ≡ false
        → better_dr a.prio key best.0 best.1 ≡ true
        → Elected home (a.prio, key, false) m r
        → Elected home best ((key, a) ∷ m) r
    taken {r} e b h = record {
      first =
          better_not best.0 best.1 a.prio key r.0 r.1 (better_asym a.prio key best.0 best.1 b)
            h.first;
      most = λ p i. elim [
        | inl (x, y, z, w) ↦
            subst (λ n. better_dr n i r.0 r.1 ≡ false) z
              (subst (λ n. better_dr a.prio n r.0 r.1 ≡ false) w h.first)
        | inr k ↦ h.most p i k
      ];
      from = elim h.from [
        | inl s ↦ inr (
          inl (ground (arith, e), ground (arith, e), sym (ap (λ x. x.0) s), sym (ap (λ x. x.1) s)),
          ap (λ x. x.2) s,
          subst (λ x. better_dr x.0 x.1 best.0 best.1 ≡ true) (sym s) b,
        )
        | inr (k, s, t) ↦ inr (inr k, s, better_trans r.0 r.1 a.prio key best.0 best.1 t b)
      ];
    }

-- Who stands in the election on a circuit: the router itself and the routers that it hears.
abbrev pub Candidate : Parent → RoutingLan → ℕ → ℕ → Type 0
Candidate p c prio id =
    ((prio ≡ c.prio) × (id ≡ p.nodeid)) ⊎ Heard p.homearea prio id c.lan.adjacencies

elected :
    (p : Parent) (c : RoutingLan)
    → Elected p.homearea (c.prio, p.nodeid, true) c.lan.adjacencies (best_dr p c)
unfolding best_dr
elected p c = best_in-Elected p.homearea (c.prio, p.nodeid, true) c.lan.adjacencies

-- The designated router that is found stands in the election, and none that stands there is
-- better.
pub best_dr-best :
    (p : Parent) (c : RoutingLan)
    → Candidate p c (best_dr p c).0 (best_dr p c).1
      × ((prio id : ℕ)
          → Candidate p c prio id
          → better_dr prio id (best_dr p c).0 (best_dr p c).1 ≡ false)
best_dr-best p c = (stands, most)
  where
    stands : Candidate p c (best_dr p c).0 (best_dr p c).1
    stands = elim (elected p c).from [
      | inl s ↦ inl (ap (λ x. x.0) s, ap (λ x. x.1) s)
      | inr (h, s, t) ↦ inr h
    ]

    most :
        (prio id : ℕ)
        → Candidate p c prio id
        → better_dr prio id (best_dr p c).0 (best_dr p c).1 ≡ false
    most prio id = elim [
      | inl (x, y) ↦
          subst (λ n. better_dr n id (best_dr p c).0 (best_dr p c).1 ≡ false) (sym x)
            (subst (λ n. better_dr c.prio n (best_dr p c).0 (best_dr p c).1 ≡ false) (sym y)
              (elected p c).first)
      | inr h ↦ (elected p c).most prio id h
    ]

self_id : (p : Parent) (c : RoutingLan) → (best_dr p c).2 ≡ true → (best_dr p c).1 ≡ p.nodeid
self_id p c e = elim (elected p c).from [
  | inl s ↦ ap (λ x. x.1) s
  | inr (h, s, t) ↦ absurd (ground (arith, e, s))
]

-- Two routers for which the same priorities and addresses stand in the election, each its own and
-- those of the routers of its area that it hears, find the same designated router, and find
-- themselves both only if they have one address.
pub best_dr-agree :
    (p q : Parent) (c d : RoutingLan)
    → ((prio id : ℕ) → Candidate p c prio id ↔ Candidate q d prio id)
    → ((best_dr p c).1 ≡ (best_dr q d).1)
      × ((best_dr p c).2 ≡ true → (best_dr q d).2 ≡ true → p.nodeid ≡ q.nodeid)
best_dr-agree p q c d s =
    let a = best_dr-best p c in
    let b = best_dr-best q d in
    let same = (better_total _ _ _ _ (b.1 _ _ ((s _ _).0 a.0)) (a.1 _ _ ((s _ _).1 b.0))).1 in
    (same, λ e f. sym (self_id p c e) ∙ same ∙ self_id q d f)

-- Where another router is best, calc_dr leaves the circuit not designated router and with that
-- router as the one.
pub calc_dr-follows :
    (p : Parent) (c : RoutingLan)
    → (best_dr p c).2 ≡ false
    → ((calc_dr p c).isdr ≡ false) × ((calc_dr p c).dr ≡ (best_dr p c).1)
unfolding calc_dr
calc_dr-follows p c e =
    subst
      (λ b.
        ((settle_dr p (best_dr p c).1 b c).isdr ≡ false)
        × ((settle_dr p (best_dr p c).1 b c).dr ≡ (best_dr p c).1))
      (sym e) (steps (best_dr p c).1)
  where
    stepped : ((if c.isdr then send_hello p (record c { isdr = false }) else c).isdr ≡ false)
    stepped = unfold send_hello in ground arith

    steps :
        (who : ℕ) → ((settle_dr p who false c).isdr ≡ false) × ((settle_dr p who false c).dr ≡ who)
    steps who =
        unfold settle_dr in
        let k = if c.isdr then send_hello p (record c { isdr = false }) else c in
        if-cases {A = RoutingLan} (λ r. (r.isdr ≡ false) × (r.dr ≡ who)) (k.dr == who)
          (λ z. (stepped, ground arith)) (λ z. (stepped, refl))
