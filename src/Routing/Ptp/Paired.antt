-- ===== src/Routing/Ptp/Paired.antt =====
-- What the router is told of the adjacency of a point-to-point circuit.
pub mod Early
pub mod Run
use cppdecnet.Prelude.{
  ℕ, suc, ◌+◌, ◌≡◌, refl, sym, ap, subst, ◌∙◌, ◌⊎◌, inl, inr, Bool, true, false, not, ◌&&◌, ◌||◌,
  Option, none, some, List, [], ◌∷◌, ltb, ◌==◌, if◌then◌else◌, if-cases, arith,
}
use cppdecnet.Types.{tid}
use cppdecnet.Routing.Ptp
use cppdecnet.Routing.Ptp.States

-- The calls of the router's adj_up and adj_down.
abbrev pub ups : List Ptp.Output → ℕ
ups [] = 0
ups (Ptp.adj_up n ∷ os) = suc (ups os)
ups (o ∷ os) = ups os

abbrev pub downs : List Ptp.Output → ℕ
downs [] = 0
downs (Ptp.adj_down n ∷ os) = suc (downs os)
downs (o ∷ os) = downs os

abbrev pub is_up : Option Ptp.Adjacency → Bool
is_up none = false
is_up (some a) = a.up

abbrev pub bit : Bool → ℕ
bit false = 0
bit true = 1

-- The router has been told of one adjacency more that came up than of ones that went down while the
-- adjacency is up, and of as many otherwise.
abbrev pub Level : Ptp.Circuit → Type 0
Level c = ups c.out ≡ downs c.out + bit (is_up c.adj)

abbrev pub has_one : Option Ptp.Adjacency → Bool
has_one none = false
has_one (some a) = true

-- The adjacency is up just in the running state, and is there while its verification is awaited.
abbrev pub Fits : Ptp.State → Option Ptp.Adjacency → Type 0
Fits Ptp.State.ru o = is_up o ≡ true
Fits Ptp.State.rv o = (is_up o ≡ false) × (has_one o ≡ true)
Fits _ o = is_up o ≡ false

pub record Paired (c : Ptp.Circuit) : Type 0 where
  pub level : Level c
  pub fits : Fits c.state c.adj

-- What a state action leaves: the state to come is the one returned, or else the one before.
abbrev pub next : Ptp.State → Option Ptp.State → Ptp.State
next s none = s
next s (some s') = s'

pub record Leaves (s : Ptp.State) (r : Ptp.Circuit × Option Ptp.State) : Type 0 where
  pub level : Level r.0
  pub fits : Fits (next s r.1) (r.0).adj

pub down-Level :
    (o : Option Ptp.Adjacency) (c : Ptp.Circuit) → c.adj ≡ o → Level c → Level (Ptp.bring_down o c)
unfolding Ptp.bring_down Ptp.adjacency_down Ptp.put
down-Level none c e l = l
down-Level (some a) c e l = ground (arith, ap is_up e)

pub down-adj : (c : Ptp.Circuit) → is_up (Ptp.down c).adj ≡ false
unfolding Ptp.down Ptp.bring_down
down-adj c = by_adj c.adj refl
  where
    by_adj : (o : Option Ptp.Adjacency) → c.adj ≡ o → is_up (Ptp.bring_down o c).adj ≡ false
    by_adj none e = ap is_up e
    by_adj (some a) e = refl

pub restart-Leaves :
    (p : Ptp.Parent) (c : Ptp.Circuit) (s : Ptp.State)
    → Level c
    → (Ptp.running c.state ≡ false → is_up c.adj ≡ false)
    → Leaves s (Ptp.restart p c)
unfolding Ptp.restart Ptp.put Ptp.clear_neighbour Ptp.running
restart-Leaves p c s l z = record { level = by_run; fits = refl }
  where
    counted : Ptp.Circuit
    counted = record c { counters = Ptp.count_restart c.state c.counters }

    lowered : Ptp.Circuit
    lowered = if Ptp.running c.state then Ptp.down counted else counted

    lowered-Level : Level lowered × (is_up lowered.adj ≡ false)
    lowered-Level =
        if-cases (λ d. Level d × (is_up d.adj ≡ false)) (Ptp.running c.state)
          (λ e. (unfold Ptp.down in down-Level counted.adj counted refl l, down-adj counted))
          (λ e. (l, z e))

    by_run : Level (Ptp.restart p c).0
    by_run =
        if-cases (λ o. ups (o ∷ lowered.out) ≡ downs (o ∷ lowered.out) + 0) p.start_works
          (λ e. let k = lowered-Level in ground (arith, k.0, k.1))
          (λ e. let k = lowered-Level in ground (arith, k.0, k.1))

pub routeevent-Level :
    (id : ℕ) (r : Option ℕ) (c : Ptp.Circuit) → Level c → Level (Ptp.routeevent id r c)
unfolding Ptp.routeevent Ptp.put
routeevent-Level id r c l = l

pub logged-Leaves :
    (p : Ptp.Parent) (id reason : ℕ) (c : Ptp.Circuit) (s : Ptp.State)
    → Level c
    → (Ptp.running c.state ≡ false → is_up c.adj ≡ false)
    → Leaves s (Ptp.restart_logged p id reason c)
unfolding Ptp.restart_logged Ptp.routeevent Ptp.put
logged-Leaves p id reason c s l z = restart-Leaves p _ s l z

pub halt-Leaves :
    (c : Ptp.Circuit) (s : Ptp.State) → Level c → is_up c.adj ≡ false → Leaves s (Ptp.halt c)
unfolding Ptp.halt Ptp.put Ptp.running
halt-Leaves c s l z = record { level = l; fits = z }

pub stay-Leaves : (c : Ptp.Circuit) (s : Ptp.State) → Level c → Fits s c.adj → Leaves s (Ptp.stay c)
stay-Leaves c s l z = record { level = l; fits = z }

pub on_status-Leaves :
    (p : Ptp.Parent) (b : Bool) (c : Ptp.Circuit) (s : Ptp.State)
    → Level c
    → Fits s c.adj
    → (Ptp.running c.state ≡ false → is_up c.adj ≡ false)
    → Leaves s (States.on_status p b c)
unfolding States.on_status
on_status-Leaves p true c s l m z = stay-Leaves c s l m
on_status-Leaves p false c s l m z = restart-Leaves p c s l z

-- An adjacency that was down comes up.
pub up-Level :
    (a : Ptp.Adjacency) (c : Ptp.Circuit)
    → a.up ≡ false
    → c.adj ≡ some a
    → Level c
    → Level (Ptp.up c) × (is_up (Ptp.up c).adj ≡ true)
unfolding Ptp.up Ptp.routeevent Ptp.put
up-Level a c d e l = by_adj c.adj e
  where
    came_up : Level (Ptp.adjacency_up a c) × (is_up (Ptp.adjacency_up a c).adj ≡ true)
    came_up = unfold Ptp.adjacency_up Ptp.put in ground (arith, l, ap is_up e, d)

    by_adj :
        (o : Option Ptp.Adjacency)
        → o ≡ some a
        → Level (Ptp.bring_up o c) × (is_up (Ptp.bring_up o c).adj ≡ true)
    by_adj o h =
        subst (λ o. Level (Ptp.bring_up o c) × (is_up (Ptp.bring_up o c).adj ≡ true)) (sym h)
          (unfold Ptp.bring_up in came_up)
