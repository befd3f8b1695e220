-- ===== src/Routing/Ptp/Barred/Run.antt =====
-- A point-to-point circuit that asks for verification, from there to its run.
use cppdecnet.Prelude.{
  ℕ, ◌≡◌, ◌≢◌, refl, false, not, Option, none, some, List, [], ◌∷◌, if-cases, arith,
}
use cppdecnet.Routing.Ptp
use cppdecnet.Routing.Ptp.States
use cppdecnet.Routing.Ptp.Barred.{
  stay-Leaves, restart-Leaves, stopped-Leaves, in_s0-Leaves, in_ds-Leaves, on_status-Leaves,
  in_ri-Leaves, on_verify-Leaves, Barred, Leaves, Unverified, AllUnverified,
}

in_rv-Leaves :
    (v : List ℕ) (p : Ptp.Parent) (w : Ptp.Work) (c : Ptp.Circuit)
    → Unverified v w
    → Barred v c
    → Leaves v (States.in_rv p w c)
unfolding States.in_rv
in_rv-Leaves v p Ptp.Work.expired c n b = restart-Leaves v p c b
in_rv-Leaves v p Ptp.Work.circuit_down c n b = restart-Leaves v p c b
in_rv-Leaves v p (Ptp.Work.dl_status s) c n b = on_status-Leaves v p s c b
in_rv-Leaves v p Ptp.Work.circuit_stop c n b = stopped-Leaves v c b
in_rv-Leaves v p (Ptp.Work.received (Ptp.ptp_verify m)) c n b = on_verify-Leaves v p m c n b
in_rv-Leaves v p (Ptp.Work.received Ptp.ptp_init3) c n b = stay-Leaves v c b
in_rv-Leaves v p (Ptp.Work.received (Ptp.ptp_init i)) c n b = stay-Leaves v c b
in_rv-Leaves v p (Ptp.Work.received (Ptp.ptp_hello i)) c n b = stay-Leaves v c b
in_rv-Leaves v p (Ptp.Work.received (Ptp.short_data d)) c n b = stay-Leaves v c b
in_rv-Leaves v p (Ptp.Work.received (Ptp.long_data d)) c n b = stay-Leaves v c b
in_rv-Leaves v p (Ptp.Work.received (Ptp.routing_message k us)) c n b = stay-Leaves v c b
in_rv-Leaves v p (Ptp.Work.received Ptp.other) c n b = stay-Leaves v c b
in_rv-Leaves v p Ptp.Work.circuit_start c n b = stay-Leaves v c b
in_rv-Leaves v p Ptp.Work.listen_expired c n b = stay-Leaves v c b
in_rv-Leaves v p Ptp.Work.empty_frame c n b = stay-Leaves v c b
in_rv-Leaves v p (Ptp.Work.undecodable f) c n b = stay-Leaves v c b

act-Leaves :
    (v : List ℕ) (p : Ptp.Parent) (s : Ptp.State) (w : Ptp.Work) (c : Ptp.Circuit)
    → Ptp.running s ≡ false
    → Unverified v w
    → Barred v c
    → Leaves v (States.act p s w c)
unfolding States.act Ptp.running
act-Leaves v p Ptp.State.s0 w c i n b = in_s0-Leaves v w c b
act-Leaves v p Ptp.State.ds w c i n b = in_ds-Leaves v p w c b
act-Leaves v p Ptp.State.ri w c i n b = in_ri-Leaves v p w c b
act-Leaves v p Ptp.State.rv w c i n b = in_rv-Leaves v p w c n b
act-Leaves v p Ptp.State.ru w c i n b = absurd (ground (arith, i))

set_state-Barred :
    (v : List ℕ) (s : Ptp.State) (r : Ptp.Circuit × Option Ptp.State)
    → Ptp.running s ≡ false
    → Leaves v r
    → Barred v (States.set_state s r)
set_state-Barred v s (d, none) i h = record { asked = h.asked; expected = h.expected; idle = i }
set_state-Barred v s (d, some s') i h = record {
  asked = h.asked;
  expected = h.expected;
  idle = h.idle;
}

own_timeout-Barred :
    (v : List ℕ) (p : Ptp.Parent) (c : Ptp.Circuit) → Barred v c → Barred v (States.own_timeout p c)
unfolding States.own_timeout
own_timeout-Barred v p c b =
    if-cases (λ d. Barred v d) c.timer
      (λ e. set_state-Barred v c.state _ b.idle (
        act-Leaves v p c.state Ptp.Work.expired (record c { timer = false }) b.idle tt
          (record { asked = b.asked; expected = b.expected; idle = b.idle })))
      (λ e. b)

listen_timeout-Barred :
    (v : List ℕ) (p : Ptp.Parent) (o : Option Ptp.Adjacency) (c : Ptp.Circuit)
    → Barred v c
    → Barred v (States.listen_timeout p o c)
unfolding States.listen_timeout
listen_timeout-Barred v p none c b = b
listen_timeout-Barred v p (some a) c b =
    if-cases (λ d. Barred v d) (not a.listening) (λ e. b)
      (λ e. set_state-Barred v c.state _ b.idle (restart-Leaves v p _ lowered))
  where
    lowered :
        Barred v
          (record (Ptp.routeevent 8
            (some Ptp.listener_timeout)
            (Ptp.adjacency_down (record a { listening = false }) c)) { adj = none })
    lowered =
        unfold Ptp.routeevent Ptp.adjacency_down Ptp.put in
        if-cases {A = Ptp.Circuit}
          (λ d. Barred v (record d {
            adj = none;
            out = Ptp.Output.logged (Ptp.event 8 (some Ptp.listener_timeout)) ∷ d.out;
          }))
          (not a.up) (λ e. record { asked = b.asked; expected = b.expected; idle = b.idle })
          (λ e. record { asked = b.asked; expected = b.expected; idle = b.idle })

dispatch-Barred :
    (v : List ℕ) (p : Ptp.Parent) (w : Ptp.Work) (c : Ptp.Circuit)
    → Unverified v w
    → Barred v c
    → Barred v (States.dispatch p w c)
unfolding States.dispatch Ptp.routeevent Ptp.put
dispatch-Barred v p Ptp.Work.expired c n b = own_timeout-Barred v p c b
dispatch-Barred v p Ptp.Work.listen_expired c n b = listen_timeout-Barred v p c.adj c b
dispatch-Barred v p Ptp.Work.empty_frame c n b = b
dispatch-Barred v p (Ptp.Work.undecodable f) c n b = record {
  asked = b.asked;
  expected = b.expected;
  idle = b.idle;
}
dispatch-Barred v p Ptp.Work.circuit_start c n b =
    set_state-Barred v c.state _ b.idle (act-Leaves v p c.state _ c b.idle n b)
dispatch-Barred v p Ptp.Work.circuit_stop c n b =
    set_state-Barred v c.state _ b.idle (act-Leaves v p c.state _ c b.idle n b)
dispatch-Barred v p Ptp.Work.circuit_down c n b =
    set_state-Barred v c.state _ b.idle (act-Leaves v p c.state _ c b.idle n b)
dispatch-Barred v p (Ptp.Work.dl_status s) c n b =
    set_state-Barred v c.state _ b.idle (act-Leaves v p c.state _ c b.idle n b)
dispatch-Barred v p (Ptp.Work.received k) c n b =
    set_state-Barred v c.state _ b.idle (act-Leaves v p c.state _ c b.idle n b)

run-Barred :
    (v : List ℕ) (p : Ptp.Parent) (ws : List Ptp.Work) (c : Ptp.Circuit)
    → AllUnverified v ws
    → Barred v c
    → Barred v (States.run p ws c)
unfolding States.run
run-Barred v p [] c n b = b
run-Barred v p (w ∷ ws) c (n, ns) b = run-Barred v p ws _ ns (dispatch-Barred v p w c n b)

-- A point-to-point circuit that asks for verification, by a string that is not empty, does not
-- come to run on any work that has no verification message with that string.
pub run-unverified :
    (p : Ptp.Parent) (v : List ℕ) (ws : List Ptp.Work)
    → v ≢ []
    → AllUnverified v ws
    → Ptp.running (States.run p ws (Ptp.new_circuit v)).state ≡ false
run-unverified p [] ws e n = absurd (e refl)
run-unverified p (x ∷ xs) ws e n =
    (run-Barred (x ∷ xs) p ws (Ptp.new_circuit (x ∷ xs)) n (
      unfold Ptp.new_circuit Ptp.running in
      record { asked = refl; expected = refl; idle = refl })).idle
