-- ===== src/Routing/Settled.antt =====
-- What becomes of a packet that the router forwards (L1Router::forward of src/routing/l1router.cc).
use cppdecnet.Prelude.{
  ℕ, suc, ◌+◌, ◌%◌, ◌<◌, ◌≡◌, refl, ◌⊎◌, inl, inr, Bool, true, false, not, ◌&&◌, Option, none, some,
  ltb, ltb→lt, if◌then◌else◌, if-cases, arith,
}
use cppdecnet.Routing.Matrix.{Adjacency, is_self}
use cppdecnet.Routing.Router.{Router}
use cppdecnet.Routing.Forward.{
  ShortData, Outcome, sent, dropped, stuck, visit_limit, returned, forward, forward_fuel, Attempt,
  goes, fails, attempt, count_loss,
}

-- The packet, or the packet on its way back.
abbrev pub Turned : ShortData → ShortData → Type 0
Turned p q = (q ≡ p) ⊎ ((p.rqr ≡ true) × (p.rts ≡ false) × (q ≡ returned p))

-- A packet goes out as it was, but for its visits; a packet that leaves the node has made one more
-- visit and no more than its limit. A packet that is dropped asks for no return.
abbrev pub Settled : Router → ShortData → Outcome → Type 0
Settled r p (sent a q) =
    (x : ShortData) × Turned p x
    × (((is_self a ≡ true) × (q ≡ x))
        ⊎ ((x.visit < visit_limit r x) × (q ≡ record x { visit = (x.visit + 1) % 256 })))
Settled r p (dropped l q) = Turned p q × ((q.rqr ≡ false) ⊎ (q.rts ≡ true))
Settled r p stuck = ⊥

abbrev Advanced : Router → ShortData → Adjacency → ShortData → Type 0
Advanced r x a q =
    ((is_self a ≡ true) × (q ≡ x))
    ⊎ ((x.visit < visit_limit r x) × (q ≡ record x { visit = (x.visit + 1) % 256 }))

-- The two things an attempt comes to.
abbrev Attempted : Router → ShortData → Attempt → Type 0
Attempted r x (goes r' a q) = Advanced r x a q
Attempted r x (fails l) = Unit {0}

attempt_lem :
    (o : Option Adjacency × Bool) (r : Router) (x : ShortData) → Attempted r x (attempt o r x)
unfolding attempt
attempt_lem (none, true) r x = tt
attempt_lem (none, false) r x = tt
attempt_lem (some a, true) r x = tt
attempt_lem (some a, false) r x =
    if-cases (Attempted r x) (is_self a) (λ s. inl (s, refl))
      (λ _.
        if-cases (Attempted r x) (ltb x.visit (visit_limit r x)) (λ l. inr (ltb→lt _ _ l, refl))
          (λ _. tt))

asks : (x : ShortData) → (x.rqr && not x.rts) ≡ false → (x.rqr ≡ false) ⊎ (x.rts ≡ true)
asks x h = ground arith

module _ (find : ℕ → Router → Option Adjacency × Bool) where
  -- A round that does not turn the packet back settles it; one that does leaves it to the next.
  round_lem :
      (fuel : ℕ) (r : Router) (p x : ShortData)
      → Turned p x
      → ((x.rqr && not x.rts) ≡ true → Settled r p (forward_fuel find fuel r (returned x)).1)
      → Settled r p (forward_fuel find (suc fuel) r x).1
  unfolding forward_fuel
  round_lem fuel r p x t back =
      go (attempt (find x.dstnode r) r x) (attempt_lem (find x.dstnode r) r x)
    where
      go :
          (w : Attempt)
          → Attempted r x w
          → Settled r p
              (elim w as (λ _. Router × Outcome) [
                | goes r' a p' ↦ (r', sent a p')
                | fails l ↦
                    if x.rqr && not x.rts
                    then forward_fuel find fuel r (returned x)
                    else (count_loss l r, dropped l x)
              ]).1
      go (goes r' a q) h = (x, t, h)
      go (fails l) h =
          if-cases {A = Router × Outcome} (λ o. Settled r p o.1) (x.rqr && not x.rts) back
            (λ e. (t, asks x e))

  -- forward sends a packet or drops it: it is sent as it was or turned back to its sender once,
  -- which only a packet is that asks for it; its visits are below the limit before it leaves the
  -- node; and a packet that is dropped asks for no return or is on its way back.
  pub forward-Settled : (r : Router) (p : ShortData) → Settled r p (forward find r p).1
  unfolding forward
  forward-Settled r p = round_lem 1 r p p (inl refl) (λ e.
      round_lem 0 r p (returned p) (inr (ground arith, ground arith, refl)) (λ f. ground arith))
