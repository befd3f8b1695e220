-- ===== src/Routing/Ptp/Barred.antt =====
-- A point-to-point circuit that asks for verification, and one that does not.
pub mod Run
use cppdecnet.Prelude.{
  ℕ, ◌≡◌, ◌≢◌, refl, ap₂, ◌∙◌, Bool, true, false, not, ◌||◌, Option, none, some, List, [], ◌∷◌, ltb,
  ◌==◌, if-cases, arith,
}
use cppdecnet.Types.{tid}
use cppdecnet.Routing.Ptp
use cppdecnet.Routing.Ptp.States

-- No verification message with this value.
abbrev pub Unverified : List ℕ → Ptp.Work → Type 0
Unverified v (Ptp.Work.received (Ptp.ptp_verify m)) = m.fcnval ≢ v
Unverified v _ = Unit {0}

abbrev pub AllUnverified : List ℕ → List Ptp.Work → Type 0
AllUnverified v [] = Unit {0}
AllUnverified v (w ∷ ws) = Unverified v w × AllUnverified v ws

pub bytes_equal_eq : (xs ys : List ℕ) → States.bytes_equal xs ys ≡ true → xs ≡ ys
unfolding States.bytes_equal
bytes_equal_eq [] [] e = refl
bytes_equal_eq [] (y ∷ ys) e = absurd (ground (arith, e))
bytes_equal_eq (x ∷ xs) [] e = absurd (ground (arith, e))
bytes_equal_eq (x ∷ xs) (y ∷ ys) e =
    let h : (x == y) ≡ true = ground (arith, e) in
    let k : States.bytes_equal xs ys ≡ true = ground (arith, e) in
    let f : x ≡ y = ground (arith, h) in ap₂ (λ a b. a ∷ b) f (bytes_equal_eq xs ys k)

-- Verification is asked for and the circuit does not run.
pub record Barred (v : List ℕ) (c : Ptp.Circuit) : Type 0 where
  pub asked : c.request_verify ≡ true
  pub expected : c.expect_verify ≡ v
  pub idle : Ptp.running c.state ≡ false

pub record Leaves (v : List ℕ) (r : Ptp.Circuit × Option Ptp.State) : Type 0 where
  pub asked : (r.0).request_verify ≡ true
  pub expected : (r.0).expect_verify ≡ v
  pub idle : (elim r.1 [ none ↦ false | some s ↦ Ptp.running s ]) ≡ false

pub stay-Leaves : (v : List ℕ) (c : Ptp.Circuit) → Barred v c → Leaves v (Ptp.stay c)
stay-Leaves v c b = record { asked = b.asked; expected = b.expected; idle = refl }

pub restart-Leaves :
    (v : List ℕ) (p : Ptp.Parent) (c : Ptp.Circuit) → Barred v c → Leaves v (Ptp.restart p c)
unfolding Ptp.restart Ptp.put Ptp.clear_neighbour Ptp.running
restart-Leaves v p c b =
    rw (b.idle) (record { asked = b.asked; expected = b.expected; idle = refl })

pub logged-Leaves :
    (v : List ℕ) (p : Ptp.Parent) (id reason : ℕ) (c : Ptp.Circuit)
    → Barred v c
    → Leaves v (Ptp.restart_logged p id reason c)
unfolding Ptp.restart_logged Ptp.routeevent Ptp.put
logged-Leaves v p id reason c b =
    restart-Leaves v p _ (record { asked = b.asked; expected = b.expected; idle = b.idle })

pub stopped-Leaves : (v : List ℕ) (c : Ptp.Circuit) → Barred v c → Leaves v (Ptp.stopped c)
unfolding Ptp.stopped Ptp.halt Ptp.routeevent Ptp.put Ptp.running
stopped-Leaves v c b = record { asked = b.asked; expected = b.expected; idle = refl }

pub in_s0-Leaves :
    (v : List ℕ) (w : Ptp.Work) (c : Ptp.Circuit) → Barred v c → Leaves v (States.in_s0 w c)
unfolding States.in_s0 Ptp.clear_neighbour Ptp.put Ptp.running
in_s0-Leaves v Ptp.Work.circuit_start c b = record {
  asked = b.asked;
  expected = b.expected;
  idle = refl;
}
in_s0-Leaves v Ptp.Work.expired c b = record { asked = b.asked; expected = b.expected; idle = refl }
in_s0-Leaves v Ptp.Work.circuit_stop c b = stay-Leaves v c b
in_s0-Leaves v Ptp.Work.circuit_down c b = stay-Leaves v c b
in_s0-Leaves v Ptp.Work.listen_expired c b = stay-Leaves v c b
in_s0-Leaves v Ptp.Work.empty_frame c b = stay-Leaves v c b
in_s0-Leaves v (Ptp.Work.dl_status s) c b = stay-Leaves v c b
in_s0-Leaves v (Ptp.Work.undecodable f) c b = stay-Leaves v c b
in_s0-Leaves v (Ptp.Work.received k) c b = stay-Leaves v c b

pub in_ds-Leaves :
    (v : List ℕ) (p : Ptp.Parent) (w : Ptp.Work) (c : Ptp.Circuit)
    → Barred v c
    → Leaves v (States.in_ds p w c)
unfolding States.in_ds Ptp.clear_neighbour Ptp.put Ptp.running
in_ds-Leaves v p (Ptp.Work.dl_status true) c b = record {
  asked = b.asked;
  expected = b.expected;
  idle = refl;
}
in_ds-Leaves v p (Ptp.Work.dl_status false) c b = logged-Leaves v p 11 _ c b
in_ds-Leaves v p Ptp.Work.circuit_down c b = restart-Leaves v p c b
in_ds-Leaves v p Ptp.Work.circuit_stop c b = stopped-Leaves v c b
in_ds-Leaves v p Ptp.Work.circuit_start c b = stay-Leaves v c b
in_ds-Leaves v p Ptp.Work.expired c b = stay-Leaves v c b
in_ds-Leaves v p Ptp.Work.listen_expired c b = stay-Leaves v c b
in_ds-Leaves v p Ptp.Work.empty_frame c b = stay-Leaves v c b
in_ds-Leaves v p (Ptp.Work.undecodable f) c b = stay-Leaves v c b
in_ds-Leaves v p (Ptp.Work.received k) c b = stay-Leaves v c b

pub on_status-Leaves :
    (v : List ℕ) (p : Ptp.Parent) (s : Bool) (c : Ptp.Circuit)
    → Barred v c
    → Leaves v (States.on_status p s c)
unfolding States.on_status
on_status-Leaves v p true c b = stay-Leaves v c b
on_status-Leaves v p false c b = restart-Leaves v p c b

pub accept_init-Leaves :
    (v : List ℕ) (p : Ptp.Parent) (i : Ptp.PtpInit) (c : Ptp.Circuit)
    → Barred v c
    → Leaves v (States.accept_init p i c)
unfolding States.accept_init Ptp.running
accept_init-Leaves v p i c b =
    if-cases (λ r. Leaves v r) c.request_verify
      (λ e. record { asked = same.0 ∙ b.asked; expected = same.1 ∙ b.expected; idle = refl })
      (λ e. absurd (let a = b.asked in ground arith))
  where
    same :
        ((States.authenticate p i.verif
            (record c { info = States.neighbour_info i })).request_verify
          ≡ c.request_verify)
        × ((States.authenticate p i.verif
              (record c { info = States.neighbour_info i })).expect_verify
            ≡ c.expect_verify)
    same =
        unfold States.authenticate Ptp.put in
        if-cases {A = Ptp.Circuit}
          (λ d. (d.request_verify ≡ c.request_verify) × (d.expect_verify ≡ c.expect_verify)) i.verif
          (λ e. (refl, refl)) (λ e. (refl, refl))

pub on_init-Leaves :
    (v : List ℕ) (p : Ptp.Parent) (i : Ptp.PtpInit) (c : Ptp.Circuit)
    → Barred v c
    → Leaves v (States.on_init p i c)
unfolding States.on_init
on_init-Leaves v p i c b =
    let P : Ptp.Circuit × Option Ptp.State → Type 0 = λ r. Leaves v r in
    if-cases P (ltb p.phase 4) (λ e. stay-Leaves v c b)
      (λ e.
        if-cases P
          (not
            ((i.ntype == Ptp.endnode) || ((i.ntype == Ptp.l1router) || (i.ntype == Ptp.l2router))))
          (λ e. logged-Leaves v p 12 _ c b)
          (λ e.
            if-cases P i.blo (λ e. restart-Leaves v p c b)
              (λ e.
                if-cases P (tid i.srcnode == 0) (λ e. restart-Leaves v p c b)
                  (λ e.
                    if-cases P (States.out_of_range p i) (λ e. logged-Leaves v p 12 _ c b)
                      (λ e. accept_init-Leaves v p i c b)))))

pub in_ri-Leaves :
    (v : List ℕ) (p : Ptp.Parent) (w : Ptp.Work) (c : Ptp.Circuit)
    → Barred v c
    → Leaves v (States.in_ri p w c)
unfolding States.in_ri
in_ri-Leaves v p Ptp.Work.expired c b = restart-Leaves v p c b
in_ri-Leaves v p Ptp.Work.circuit_down c b = restart-Leaves v p c b
in_ri-Leaves v p (Ptp.Work.dl_status s) c b = on_status-Leaves v p s c b
in_ri-Leaves v p Ptp.Work.circuit_stop c b = stopped-Leaves v c b
in_ri-Leaves v p (Ptp.Work.received (Ptp.ptp_init i)) c b = on_init-Leaves v p i c b
in_ri-Leaves v p (Ptp.Work.received Ptp.ptp_init3) c b = restart-Leaves v p c b
in_ri-Leaves v p (Ptp.Work.received (Ptp.ptp_verify m)) c b = logged-Leaves v p 12 _ c b
in_ri-Leaves v p (Ptp.Work.received (Ptp.ptp_hello h)) c b = stay-Leaves v c b
in_ri-Leaves v p (Ptp.Work.received (Ptp.short_data d)) c b = stay-Leaves v c b
in_ri-Leaves v p (Ptp.Work.received (Ptp.long_data d)) c b = stay-Leaves v c b
in_ri-Leaves v p (Ptp.Work.received (Ptp.routing_message n us)) c b = stay-Leaves v c b
in_ri-Leaves v p (Ptp.Work.received Ptp.other) c b = stay-Leaves v c b
in_ri-Leaves v p Ptp.Work.circuit_start c b = stay-Leaves v c b
in_ri-Leaves v p Ptp.Work.listen_expired c b = stay-Leaves v c b
in_ri-Leaves v p Ptp.Work.empty_frame c b = stay-Leaves v c b
in_ri-Leaves v p (Ptp.Work.undecodable f) c b = stay-Leaves v c b

-- A verification with another value is no way into the running state.
pub on_verify-Leaves :
    (v : List ℕ) (p : Ptp.Parent) (m : Ptp.PtpVerify) (c : Ptp.Circuit)
    → m.fcnval ≢ v
    → Barred v c
    → Leaves v (States.on_verify p m c)
unfolding States.on_verify
on_verify-Leaves v p m c n b =
    let P : Ptp.Circuit × Option Ptp.State → Type 0 = λ r. Leaves v r in
    if-cases P (not (Ptp.check_src m.srcnode c.info)) (λ e. restart-Leaves v p c b)
      (λ e.
        if-cases P (not (States.bytes_equal m.fcnval c.expect_verify))
          (λ e.
            logged-Leaves v p 6 _ _
              (record { asked = b.asked; expected = b.expected; idle = b.idle }))
          (λ e.
            let k : States.bytes_equal m.fcnval c.expect_verify ≡ true = ground (arith, e) in
            absurd (n (bytes_equal_eq m.fcnval c.expect_verify k ∙ b.expected))))
