-- ===== src/Routing/Ptp/Paired/Early.antt =====
-- What the router is told of the adjacency, before the circuit runs.
use cppdecnet.Prelude.{
  ◌+◌, ◌≡◌, refl, true, false, not, ◌||◌, Option, some, ltb, ◌==◌, if-cases, arith,
}
use cppdecnet.Types.{tid}
use cppdecnet.Routing.Ptp
use cppdecnet.Routing.Ptp.States
use cppdecnet.Routing.Ptp.Paired.{
  ups, downs, is_up, Level, Leaves, restart-Leaves, logged-Leaves, halt-Leaves, stay-Leaves,
  on_status-Leaves, up-Level,
}

pub opened-Leaves :
    (c : Ptp.Circuit) (s : Ptp.State)
    → Level c
    → is_up c.adj ≡ false
    → Leaves s (Ptp.clear_neighbour (Ptp.put Ptp.Output.opened c), some Ptp.State.ds)
unfolding Ptp.clear_neighbour Ptp.put Ptp.running
opened-Leaves c s l z = record { level = ground (arith, l, z); fits = refl }

pub in_s0-Leaves :
    (w : Ptp.Work) (c : Ptp.Circuit)
    → Level c
    → is_up c.adj ≡ false
    → Leaves Ptp.State.s0 (States.in_s0 w c)
unfolding States.in_s0 Ptp.running
in_s0-Leaves Ptp.Work.circuit_start c l z = opened-Leaves c _ l z
in_s0-Leaves Ptp.Work.expired c l z = opened-Leaves c _ l z
in_s0-Leaves Ptp.Work.circuit_stop c l z = stay-Leaves c _ l z
in_s0-Leaves Ptp.Work.circuit_down c l z = stay-Leaves c _ l z
in_s0-Leaves Ptp.Work.listen_expired c l z = stay-Leaves c _ l z
in_s0-Leaves Ptp.Work.empty_frame c l z = stay-Leaves c _ l z
in_s0-Leaves (Ptp.Work.dl_status b) c l z = stay-Leaves c _ l z
in_s0-Leaves (Ptp.Work.undecodable f) c l z = stay-Leaves c _ l z
in_s0-Leaves (Ptp.Work.received k) c l z = stay-Leaves c _ l z

pub stopped-Leaves :
    (c : Ptp.Circuit) (s : Ptp.State) → Level c → is_up c.adj ≡ false → Leaves s (Ptp.stopped c)
unfolding Ptp.stopped Ptp.routeevent Ptp.put
stopped-Leaves c s l z = halt-Leaves _ s l z

pub in_ds-Leaves :
    (p : Ptp.Parent) (w : Ptp.Work) (c : Ptp.Circuit)
    → Level c
    → is_up c.adj ≡ false
    → Leaves Ptp.State.ds (States.in_ds p w c)
unfolding States.in_ds Ptp.running Ptp.clear_neighbour Ptp.put
in_ds-Leaves p (Ptp.Work.dl_status true) c l z = record {
  level = ground (arith, l, z);
  fits = refl;
}
in_ds-Leaves p (Ptp.Work.dl_status false) c l z = logged-Leaves p 11 _ c _ l (λ e. z)
in_ds-Leaves p Ptp.Work.circuit_down c l z = restart-Leaves p c _ l (λ e. z)
in_ds-Leaves p Ptp.Work.circuit_stop c l z = stopped-Leaves c _ l z
in_ds-Leaves p Ptp.Work.circuit_start c l z = stay-Leaves c _ l z
in_ds-Leaves p Ptp.Work.expired c l z = stay-Leaves c _ l z
in_ds-Leaves p Ptp.Work.listen_expired c l z = stay-Leaves c _ l z
in_ds-Leaves p Ptp.Work.empty_frame c l z = stay-Leaves c _ l z
in_ds-Leaves p (Ptp.Work.undecodable f) c l z = stay-Leaves c _ l z
in_ds-Leaves p (Ptp.Work.received k) c l z = stay-Leaves c _ l z

pub accept_init-Leaves :
    (p : Ptp.Parent) (i : Ptp.PtpInit) (c : Ptp.Circuit)
    → Level c
    → is_up c.adj ≡ false
    → Leaves Ptp.State.ri (States.accept_init p i c)
unfolding States.accept_init
accept_init-Leaves p i c l z =
    if-cases (λ r. Leaves Ptp.State.ri r) c.request_verify
      (λ e. record { level = answered_level; fits = (refl, refl) })
      (λ e.
        let k = up-Level fresh adjacent refl refl answered_level in
        record { level = k.0; fits = k.1 })
  where
    fresh : Ptp.Adjacency
    fresh = record { info = States.neighbour_info i; up = false; listening = false }

    adjacent : Ptp.Circuit
    adjacent =
        record (States.authenticate p i.verif (record c { info = States.neighbour_info i })) {
          adj = some fresh;
        }

    answered_level : Level adjacent
    answered_level =
        unfold States.authenticate Ptp.put in
        if-cases {A = Ptp.Circuit} (λ d. ups d.out ≡ downs d.out + 0) i.verif
          (λ e. ground (arith, l, z)) (λ e. ground (arith, l, z))

pub on_init-Leaves :
    (p : Ptp.Parent) (i : Ptp.PtpInit) (c : Ptp.Circuit)
    → Level c
    → is_up c.adj ≡ false
    → Leaves Ptp.State.ri (States.on_init p i c)
unfolding States.on_init
on_init-Leaves p i c l z =
    let P : Ptp.Circuit × Option Ptp.State → Type 0 = λ r. Leaves Ptp.State.ri r in
    if-cases P (ltb p.phase 4) (λ e. stay-Leaves c _ l z)
      (λ e.
        if-cases P
          (not
            ((i.ntype == Ptp.endnode) || ((i.ntype == Ptp.l1router) || (i.ntype == Ptp.l2router))))
          (λ e. logged-Leaves p 12 _ c _ l (λ e. z))
          (λ e.
            if-cases P i.blo (λ e. restart-Leaves p c _ l (λ e. z))
              (λ e.
                if-cases P (tid i.srcnode == 0) (λ e. restart-Leaves p c _ l (λ e. z))
                  (λ e.
                    if-cases P (States.out_of_range p i) (λ e. logged-Leaves p 12 _ c _ l (λ e. z))
                      (λ e. accept_init-Leaves p i c l z)))))

pub in_ri-Leaves :
    (p : Ptp.Parent) (w : Ptp.Work) (c : Ptp.Circuit)
    → Level c
    → is_up c.adj ≡ false
    → Leaves Ptp.State.ri (States.in_ri p w c)
unfolding States.in_ri
in_ri-Leaves p Ptp.Work.expired c l z = restart-Leaves p c _ l (λ e. z)
in_ri-Leaves p Ptp.Work.circuit_down c l z = restart-Leaves p c _ l (λ e. z)
in_ri-Leaves p (Ptp.Work.dl_status b) c l z = on_status-Leaves p b c _ l z (λ e. z)
in_ri-Leaves p Ptp.Work.circuit_stop c l z = stopped-Leaves c _ l z
in_ri-Leaves p (Ptp.Work.received (Ptp.ptp_init i)) c l z = on_init-Leaves p i c l z
in_ri-Leaves p (Ptp.Work.received Ptp.ptp_init3) c l z = restart-Leaves p c _ l (λ e. z)
in_ri-Leaves p (Ptp.Work.received (Ptp.ptp_verify v)) c l z = logged-Leaves p 12 _ c _ l (λ e. z)
in_ri-Leaves p (Ptp.Work.received (Ptp.ptp_hello h)) c l z = stay-Leaves c _ l z
in_ri-Leaves p (Ptp.Work.received (Ptp.short_data d)) c l z = stay-Leaves c _ l z
in_ri-Leaves p (Ptp.Work.received (Ptp.long_data d)) c l z = stay-Leaves c _ l z
in_ri-Leaves p (Ptp.Work.received (Ptp.routing_message n us)) c l z = stay-Leaves c _ l z
in_ri-Leaves p (Ptp.Work.received Ptp.other) c l z = stay-Leaves c _ l z
in_ri-Leaves p Ptp.Work.circuit_start c l z = stay-Leaves c _ l z
in_ri-Leaves p Ptp.Work.listen_expired c l z = stay-Leaves c _ l z
in_ri-Leaves p Ptp.Work.empty_frame c l z = stay-Leaves c _ l z
in_ri-Leaves p (Ptp.Work.undecodable f) c l z = stay-Leaves c _ l z
