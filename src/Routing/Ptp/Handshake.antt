-- ===== src/Routing/Ptp/Handshake.antt =====
-- Two nodes that start a circuit between them.
use cppdecnet.Prelude.{ℕ, min, some, ◌≤◌, ◌≡◌, ◌≢◌, refl, ◌⊎◌, true, false, [], ◌∷◌}
use cppdecnet.Types.{tid, area}
use cppdecnet.Routing.Ptp
use cppdecnet.Routing.Ptp.States

-- A node that a neighbour takes: a Phase IV node with a node number, of a type that may be.
abbrev pub Eligible : Ptp.Parent → Type 0
Eligible q = (tid q.nodeid ≢ 0) × (1 ≤ q.ntype) × (q.ntype ≤ 3)

-- Two nodes of one area, or two area routers, within what each is configured for.
abbrev pub Admits : Ptp.Parent → Ptp.Parent → Type 0
Admits p q =
    (4 ≤ p.phase)
    × (tid q.nodeid ≤ p.maxnodes)
    × (((p.ntype ≡ Ptp.l2router)
          × (q.ntype ≡ Ptp.l2router)
          × (1 ≤ area q.nodeid)
          × (area q.nodeid ≤ p.maxarea))
        ⊎ ((area q.nodeid ≡ p.homearea) × ((p.ntype ≢ Ptp.l2router) ⊎ (q.ntype ≢ Ptp.l2router))))

-- The circuit of a node that was started and whose datalink came up.
abbrev pub started : Ptp.Parent → Ptp.Circuit
started p =
    States.run p (Ptp.Work.circuit_start ∷ Ptp.Work.dl_status true ∷ []) (Ptp.new_circuit [])

-- The init message of a node that asks for no verification, with a block size.
abbrev pub init_with : ℕ → Ptp.Parent → Ptp.PtpInit
init_with size p = record {
  srcnode = p.nodeid;
  ntype = p.ntype;
  verif = false;
  blo = false;
  blksize = size;
  tiver = p.tiver;
  timer = p.t3;
}

-- What a circuit has learned of a Phase IV neighbour q, which told it a block size.
pub record Learned (size : ℕ) (q : Ptp.Parent) (c : Ptp.Circuit) : Type 0 where
  pub state : c.state ≡ Ptp.State.ru
  pub id : c.info.id ≡ q.nodeid
  pub ntype : c.info.ntype ≡ q.ntype
  pub blksize : c.info.blksize ≡ min size Ptp.mtu
  pub tiver : c.info.tiver ≡ q.tiver
  pub timer : c.info.timer ≡ q.t3
  pub rphase : c.info.rphase ≡ 4
  pub adjacent : (a : Ptp.Adjacency) × (c.adj ≡ some a) × (a.up ≡ true) × (a.info ≡ c.info)

accepted :
    (size : ℕ) (p q : Ptp.Parent)
    → Learned size q
        (States.set_state Ptp.State.ri (States.accept_init p (init_with size q) (started p)))
unfolding States.accept_init States.authenticate States.run States.dispatch States.act States.in_s0
    States.in_ds Ptp.clear_neighbour Ptp.put Ptp.new_circuit Ptp.up Ptp.bring_up Ptp.adjacency_up
    Ptp.routeevent
accepted size p q = record {
  state = refl;
  id = refl;
  ntype = refl;
  blksize = refl;
  tiver = refl;
  timer = refl;
  rphase = refl;
  adjacent = (_, refl, refl, refl);
}

-- The circuit of a node that has been given the other's init message.
abbrev pub greeted : ℕ → Ptp.Parent → Ptp.Parent → Ptp.Circuit
greeted size p q =
    States.dispatch p (Ptp.Work.received (Ptp.ptp_init (init_with size q))) (started p)
