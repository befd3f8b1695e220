-- ===== src/Nsp/Table.antt =====
-- src/nsp/nsp.cc: class NSP, which gives link addresses out and hands packets to the links. What a
-- link puts out is carried out when the link is done with the event, in order: session control makes
-- calls on the link that it is told of, and none on NSP.

pub mod Addresses
pub mod Unique
mod Tests
use cppdecnet.Prelude.{
  ℕ, zero, suc, ◌+◌, ◌*◌, ◌-◌, ◌%◌, ◌^◌, max, Bool, true, false, Option, none, some, List, [], ◌∷◌,
  ◌++◌, ltb, leb, if◌then◌else◌, length, lookup, assign, replace, remove,
}
use cppdecnet.Nsp.Packets.{
  Packet, Conn, ack_data, ack_other, ack_conn, data_seg, int_msg, link_svc, conn_init, conn_conf,
  disc_conf, disc_init,
}
use cppdecnet.Nsp.Link.{
  Link, Env, Upcall, Call, Output, transmitted, notified, released, new_link, ack_holdoff,
}
use cppdecnet.Nsp.Api.{call}
use cppdecnet.Nsp.States.{receive, timeout, start_outbound, start_inbound, no_resources}

-- What can happen to a link: a packet for it, its two timers, a call of session control, its start.
pub data LinkEvent : Type 0 where
  received : Packet → LinkEvent
  timer_expired : LinkEvent
  holdoff_expired : LinkEvent
  called : Call → LinkEvent
  outbound : List ℕ → LinkEvent
  inbound : Conn → LinkEvent

-- What can happen to NSP.
pub data NspEvent : Type 0 where
  connecting : ℕ → List ℕ → NspEvent
  delivered : ℕ → Option Packet → NspEvent
  on_open_link : ℕ → LinkEvent → NspEvent
  time_passed : ℕ → NspEvent
  stopped : NspEvent

-- What NSP does to the outside: a packet given to routing for a node, a call of session control for
-- a link, event 3.0 about a packet of a node.
pub data Report : Type 0 where
  sent : ℕ → Packet → Report
  told : ℕ → Upcall → Report
  invalid : ℕ → Report

pub record Entry (D : Type 0) : Type 0 where
  pub dest : ℕ
  pub link : Link D

-- A pointer to a link is the link's address. `by_remote_` has the pair that it is keyed by as one
-- number. `closed` has each retired link with the time of its retirement; `reports` has the newest
-- first.
pub record Table (D : Type 0) : Type 0 where
  pub maxconns : ℕ
  pub free_ids : List ℕ
  pub by_addr : List (ℕ × Entry D)
  pub by_remote : List (ℕ × ℕ)
  pub closed : List (Entry D × ℕ)
  pub closed_grace : ℕ
  pub peak_conns : ℕ
  pub routing : Bool
  pub now : ℕ
  pub reports : List Report

abbrev pub remote_key : ℕ → ℕ → ℕ
remote_key node srcaddr = node * 2 ^ 16 + srcaddr

-- The low bits are 1 to maxconns; `high` has the random high parts.
unfoldable pub ids_from : ℕ → ℕ → ℕ → (ℕ → ℕ) → List ℕ
ids_from i zero c high = []
ids_from i (suc n) c high = (i + high i * c) % 2 ^ 16 ∷ ids_from (suc i) n c high

-- The destination address of a packet: the link of ours that it is for.
unfoldable pub link_address : Packet → ℕ
link_address (ack_data a) = a.dstaddr
link_address (ack_other a) = a.dstaddr
link_address (ack_conn a) = a.dstaddr
link_address (data_seg s) = s.dstaddr
link_address (int_msg m) = m.dstaddr
link_address (link_svc l) = l.dstaddr
link_address (conn_init p) = p.dstaddr
link_address (conn_conf p) = p.dstaddr
link_address (disc_conf d) = d.dstaddr
link_address (disc_init d) = d.dstaddr

unfoldable pub link_event : {D : Type 0} → Env D → LinkEvent → Link D → Link D
link_event env (received p) c = receive env p c
link_event env timer_expired c = timeout env c
link_event env holdoff_expired c = ack_holdoff c
link_event env (called k) c = call env k c
link_event env (outbound bytes) c = start_outbound env bytes c
link_event env (inbound p) c = start_inbound env p c

module _ {D : Type 0} where
  -- `init_ids`, with std::shuffle, and the tables as they are constructed.
  unfoldable pub new_table : ℕ → (ℕ → ℕ) → (List ℕ → List ℕ) → Table D
  new_table maxconns high shuffle = record {
    maxconns = maxconns;
    free_ids = shuffle (ids_from 1 maxconns (maxconns + 1) high);
    by_addr = [];
    by_remote = [];
    closed = [];
    closed_grace = 60;
    peak_conns = 0;
    routing = true;
    now = 0;
    reports = [];
  }

  unfoldable pub return_id : ℕ → Table D → Table D
  return_id id t = record t { free_ids = t.free_ids ++ (id + t.maxconns + 1) % 2 ^ 16 ∷ [] }

  unfoldable pub send_to : ℕ → Packet → Table D → Table D
  send_to dest frame t = if t.routing then record t { reports = sent dest frame ∷ t.reports } else t

  unfoldable pub note_peak_links : Table D → Table D
  note_peak_links t = record t { peak_conns = max t.peak_conns (length t.by_addr) }

  unfoldable pub held : ℕ → ℕ → List (Entry D × ℕ) → List (Entry D × ℕ)
  held now grace [] = []
  held now grace ((e, since) ∷ es) =
      let rest = held now grace es in if leb grace (now - since) then rest else (e, since) ∷ rest

  unfoldable pub sweep_closed : Table D → Table D
  sweep_closed t = record t { closed = held t.now t.closed_grace t.closed }

  -- The link leaves the table of open links, if it is there.
  unfoldable pub retire : ℕ → Option (Entry D) → Table D → Table D
  retire addr none t = t
  retire addr (some e) t = record t {
    closed = t.closed ++ (e, t.now) ∷ [];
    by_addr = remove addr t.by_addr;
  }

  -- `close_connection` of the link at an address, with its far end.
  unfoldable pub close_connection : ℕ → ℕ → ℕ → Table D → Table D
  close_connection addr dest dstaddr t =
      let forgotten = record t { by_remote = remove (remote_key dest dstaddr) t.by_remote } in
      let swept = sweep_closed (return_id addr forgotten) in
      retire addr (lookup addr swept.by_addr) swept

  unfoldable pub apply_output : ℕ → ℕ → ℕ → Output → Table D → Table D
  apply_output addr dest dstaddr (transmitted p) t = send_to dest p t
  apply_output addr dest dstaddr (notified u) t = record t { reports = told addr u ∷ t.reports }
  apply_output addr dest dstaddr released t = close_connection addr dest dstaddr t

  -- The outputs, the newest first, from the oldest on.
  unfoldable pub apply_outputs : ℕ → ℕ → ℕ → List Output → Table D → Table D
  apply_outputs addr dest dstaddr [] t = t
  apply_outputs addr dest dstaddr (o ∷ older) t =
      apply_output addr dest dstaddr o (apply_outputs addr dest dstaddr older t)

-- `env` is what a link to a node reads of its surroundings, `delay` the node's round trip estimate.
module _ {D : Type 0} (env : ℕ → Env D) (delay : ℕ → D) where
  -- An event of the link at an address, by the entry there.
  unfoldable pub on_link : ℕ → LinkEvent → Option (Entry D) → Table D → Table D
  on_link addr ev none t = t
  on_link addr ev (some e) t =
      let c = link_event (env e.dest) ev (record (e.link) { now = t.now; out = [] }) in
      apply_outputs addr e.dest c.dstaddr c.out (record t {
        by_addr = replace addr (record { dest = e.dest; link = record c { out = [] } }) t.by_addr;
      })

  unfoldable pub operate : ℕ → LinkEvent → Table D → Table D
  operate addr ev t = on_link addr ev (lookup addr t.by_addr) t

  abbrev pub entered : ℕ → List ℕ → ℕ → Table D → Table D
  entered addr rest dest t = note_peak_links (record t {
    free_ids = rest;
    by_addr =
        assign addr (record { dest = dest; link = new_link (env dest) addr (delay dest) })
          t.by_addr;
  })

  -- `connect`, by the free addresses.
  unfoldable pub connect_with : List ℕ → ℕ → List ℕ → Table D → Table D × Option ℕ
  connect_with [] dest bytes t = (t, none)
  connect_with (addr ∷ rest) dest bytes t =
      (operate addr (outbound bytes) (entered addr rest dest t), some addr)

  unfoldable pub connect : ℕ → List ℕ → Table D → Table D × Option ℕ
  connect dest bytes t = connect_with t.free_ids dest bytes t

  -- A connect initiate for which there is no link yet.
  unfoldable pub accept_with : List ℕ → ℕ → Conn → Table D → Table D
  accept_with [] src p t =
      send_to src (disc_conf (record { dstaddr = p.srcaddr; srcaddr = 0; reason = no_resources })) t
  accept_with (addr ∷ rest) src p t =
      let filed = record t { by_remote = assign (remote_key src p.srcaddr) addr t.by_remote } in
      operate addr (inbound p) (entered addr rest src filed)

  unfoldable pub deliver_connect : Option ℕ → ℕ → Conn → Table D → Table D
  deliver_connect (some addr) src p t = operate addr (received (conn_init p)) t
  deliver_connect none src p t = accept_with t.free_ids src p t

  -- A packet that was parsed.
  unfoldable pub deliver_packet : ℕ → Packet → Table D → Table D
  deliver_packet src (conn_init p) t =
      deliver_connect (lookup (remote_key src p.srcaddr) t.by_remote) src p t
  deliver_packet src p t = operate (link_address p) (received p) t

  -- `deliver` of what the parser made of the frame.
  unfoldable pub deliver : ℕ → Option Packet → Table D → Table D
  deliver src none t = record t { reports = invalid src ∷ t.reports }
  deliver src (some p) t = deliver_packet src p t

  unfoldable pub stop : Table D → Table D
  stop t = record t { by_addr = []; by_remote = [] }

  unfoldable pub nsp_event : NspEvent → Table D → Table D
  nsp_event (connecting dest bytes) t = (connect dest bytes t).0
  nsp_event (delivered src p) t = deliver src p t
  nsp_event (on_open_link addr ev) t = operate addr ev t
  nsp_event (time_passed n) t = record t { now = t.now + n }
  nsp_event stopped t = stop t

  unfoldable pub nsp_events : List NspEvent → Table D → Table D
  nsp_events [] t = t
  nsp_events (e ∷ es) t = nsp_events es (nsp_event e t)
