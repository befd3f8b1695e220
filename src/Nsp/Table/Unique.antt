-- ===== src/Nsp/Table/Unique.antt =====
-- The addresses of links under every event of NSP.
use cppdecnet.Prelude.{
  ℕ, ◌+◌, ◌%◌, ◌^◌, ◌≤◌, ◌≡◌, refl, ap, ◌∙◌, Bool, Option, none, some, List, [], ◌∷◌, ◌==◌,
  if◌then◌else◌, if-cases, arith, lookup, assign, replace, keys, keys-replace, lookup-replace,
}
use Prim.Native.Nat.{◌∣◌}
use cppdecnet.Nsp.Packets.{
  Packet, Conn, ack_data, ack_other, ack_conn, data_seg, int_msg, link_svc, conn_init, conn_conf,
  disc_conf, disc_init,
}
use cppdecnet.Nsp.Link.{Link, Env, Output, transmitted, notified, released, new_link, ack_holdoff}
use cppdecnet.Nsp.States.{start_outbound}
use cppdecnet.Nsp.Released
use cppdecnet.Nsp.Released.Once
use cppdecnet.Nsp.Table
use cppdecnet.Nsp.Table.Addresses.{
  count, hit, tally, tally-append, tally-assign, tally-remove, hit-return, ids_from-tally,
}

module _ {D : Type 0} where
  -- Of the free and the open addresses, no two have the same low bits and none has low bits 0.
  pub record Unique (c : ℕ) (t : Table.Table D) : Type 0 where
    pub conns : t.maxconns + 1 ≡ c
    pub few :
        (r : ℕ) → tally c r t.free_ids + tally c r (keys t.by_addr) ≤ (if r == 0 then 0 else 1)

  -- What an event of a link leaves alone.
  abbrev Same : Table.Table D → Table.Table D → Type 0
  Same s t = (t.maxconns ≡ s.maxconns) × (t.free_ids ≡ s.free_ids) × (t.by_addr ≡ s.by_addr)

  send_to-Same : (dest : ℕ) (p : Packet) (t : Table.Table D) → Same t (Table.send_to dest p t)
  unfolding Table.send_to
  send_to-Same dest p t =
      if-cases (λ s. Same t s) t.routing (λ e. (refl, refl, refl)) (λ e. (refl, refl, refl))

  quiet_outputs :
      (addr dest dstaddr : ℕ) (os : List Output) (t : Table.Table D)
      → Released.releases os ≡ 0
      → Same t (Table.apply_outputs addr dest dstaddr os t)
  unfolding Table.apply_outputs Table.apply_output
  quiet_outputs addr dest dstaddr [] t e = (refl, refl, refl)
  quiet_outputs addr dest dstaddr (transmitted p ∷ os) t e =
      let s = quiet_outputs addr dest dstaddr os t e in
      let k = send_to-Same dest p (Table.apply_outputs addr dest dstaddr os t) in
      (k.0 ∙ s.0, k.1 ∙ s.1, k.2 ∙ s.2)
  quiet_outputs addr dest dstaddr (notified u ∷ os) t e = quiet_outputs addr dest dstaddr os t e
  quiet_outputs addr dest dstaddr (released ∷ os) t e = absurd (omega arith)

  Same-Unique : (c : ℕ) (s t : Table.Table D) → Same s t → Unique c s → Unique c t
  Same-Unique c s t (m, f, b) u = record {
    conns = ap (λ n. n + 1) m ∙ u.conns;
    few = λ r. rw (f, b) (u.few r);
  }

  -- An open link is closed: its address goes from the open ones to the free ones.
  close_connection-Unique :
      (c addr dest dstaddr : ℕ) (e : Table.Entry D) (t : Table.Table D)
      → c ∣ 2 ^ 16
      → lookup addr t.by_addr ≡ some e
      → Unique c t
      → Unique c (Table.close_connection addr dest dstaddr t)
  unfolding Table.close_connection Table.return_id Table.sweep_closed Table.retire
  close_connection-Unique c addr dest dstaddr e t d l u =
      let id = (addr + t.maxconns + 1) % 2 ^ 16 in
      let same : id ≡ (addr + c) % 2 ^ 16 = ap (λ n. n % 2 ^ 16) (let k = u.conns in omega arith) in
      rw l (record {
        conns = u.conns;
        few = λ r.
            let a = tally-append c r t.free_ids (id ∷ []) in
            let h : hit c r id ≡ hit c r addr = ap (hit c r) same ∙ hit-return c r addr d in
            let b = tally-remove c r addr e t.by_addr l in let f = u.few r in omega arith;
      })

  outputs-Unique :
      (c addr dest dstaddr : ℕ) (e : Table.Entry D) (os : List Output) (t : Table.Table D)
      → c ∣ 2 ^ 16
      → Released.releases os ≤ 1
      → lookup addr t.by_addr ≡ some e
      → Unique c t
      → Unique c (Table.apply_outputs addr dest dstaddr os t)
  unfolding Table.apply_outputs Table.apply_output
  outputs-Unique c addr dest dstaddr e [] t d n l u = u
  outputs-Unique c addr dest dstaddr e (transmitted p ∷ os) t d n l u =
      Same-Unique c _ _ (send_to-Same dest p _) (outputs-Unique c addr dest dstaddr e os t d n l u)
  outputs-Unique c addr dest dstaddr e (notified v ∷ os) t d n l u =
      let k = outputs-Unique c addr dest dstaddr e os t d n l u in
      record { conns = k.conns; few = k.few }
  outputs-Unique c addr dest dstaddr e (released ∷ os) t d n l u =
      let s = quiet_outputs addr dest dstaddr os t (omega arith) in
      close_connection-Unique c addr dest dstaddr e _ d (ap (lookup addr) s.2 ∙ l)
        (Same-Unique c t _ s u)

module _ {D : Type 0} (env : ℕ → Env D) (delay : ℕ → D)
    (polite : (n : ℕ) → Released.Polite (env n)) where
  -- An event of a link whose outputs have been carried out releases the link once at most.
  link_event-releases :
      (n : ℕ) (ev : Table.LinkEvent) (c : Link D)
      → c.out ≡ []
      → Released.releases (Table.link_event (env n) ev c).out ≤ 1
  unfolding Table.link_event ack_holdoff start_outbound
  link_event-releases n ev c e = by_event ev (ap Released.releases e)
    where
      by_event :
          (ev : Table.LinkEvent)
          → Released.releases c.out ≡ 0
          → Released.releases (Table.link_event (env n) ev c).out ≤ 1
      by_event (Table.received p) z =
          let k = (Once.receive-Once (env n) (polite n) p c).le in omega arith
      by_event Table.timer_expired z =
          let k = (Once.timeout-Once (env n) (polite n) c).le in omega arith
      by_event Table.holdoff_expired z = let k = (Once.ack_holdoff-Once c).le in omega arith
      by_event (Table.called k) z = let l = (Once.call-Once (env n) k c).le in omega arith
      by_event (Table.outbound bytes) z =
          let k = (Once.start_outbound-Once (env n) bytes c).le in omega arith
      by_event (Table.inbound p) z =
          let k = (Once.start_inbound-Once (env n) (polite n) p c).le in omega arith

  on_link-Unique :
      (c addr : ℕ) (ev : Table.LinkEvent) (o : Option (Table.Entry D)) (t : Table.Table D)
      → c ∣ 2 ^ 16
      → lookup addr t.by_addr ≡ o
      → Unique c t
      → Unique c (Table.on_link env delay addr ev o t)
  unfolding Table.on_link
  on_link-Unique c addr ev none t d l u = u
  on_link-Unique c addr ev (some e) t d l u =
      let k = Table.link_event (env e.dest) ev (record (e.link) { now = t.now; out = [] }) in
      let e' : Table.Entry D = record { dest = e.dest; link = record k { out = [] } } in
      outputs-Unique c addr e.dest k.dstaddr e' k.out
        (record t { by_addr = replace addr e' t.by_addr }) d (link_event-releases e.dest ev _ refl)
        (lookup-replace addr e e' t.by_addr l)
        (record { conns = u.conns; few = λ r. rw (keys-replace addr e' t.by_addr) (u.few r) })

  operate-Unique :
      (c addr : ℕ) (ev : Table.LinkEvent) (t : Table.Table D)
      → c ∣ 2 ^ 16
      → Unique c t
      → Unique c (Table.operate env delay addr ev t)
  unfolding Table.operate
  operate-Unique c addr ev t d u = on_link-Unique c addr ev (lookup addr t.by_addr) t d refl u

  -- A free address becomes an open one.
  entered-Unique :
      (c addr : ℕ) (rest : List ℕ) (dest : ℕ) (t : Table.Table D)
      → t.free_ids ≡ addr ∷ rest
      → Unique c t
      → Unique c (Table.entered env delay addr rest dest t)
  unfolding Table.note_peak_links
  entered-Unique c addr rest dest t e u = record {
    conns = u.conns;
    few = λ r.
        let a =
          tally-assign c r addr
            (record { dest = dest; link = new_link (env dest) addr (delay dest) }) t.by_addr in
        let f = ap (tally c r) e in let k = u.few r in omega arith;
  }

  connect-Unique :
      (c dest : ℕ) (bytes : List ℕ) (t : Table.Table D)
      → c ∣ 2 ^ 16
      → Unique c t
      → Unique c (Table.connect env delay dest bytes t).0
  unfolding Table.connect Table.connect_with
  connect-Unique c dest bytes t d u = by_free t.free_ids refl
    where
      by_free :
          (xs : List ℕ)
          → t.free_ids ≡ xs
          → Unique c (Table.connect_with env delay xs dest bytes t).0
      by_free [] e = u
      by_free (a ∷ xs) e = operate-Unique c a _ _ d (entered-Unique c a xs dest t e u)

  accept-Unique :
      (c src : ℕ) (p : Conn) (t : Table.Table D)
      → c ∣ 2 ^ 16
      → Unique c t
      → Unique c (Table.accept_with env delay t.free_ids src p t)
  unfolding Table.accept_with
  accept-Unique c src p t d u = by_free t.free_ids refl
    where
      by_free : (xs : List ℕ) → t.free_ids ≡ xs → Unique c (Table.accept_with env delay xs src p t)
      by_free [] e = Same-Unique c t _ (send_to-Same src _ t) u
      by_free (a ∷ xs) e = operate-Unique c a _ _ d (
          entered-Unique c a xs src
            (record t { by_remote = assign (Table.remote_key src p.srcaddr) a t.by_remote }) e
            (record { conns = u.conns; few = u.few }))

  deliver-Unique :
      (c src : ℕ) (p : Option Packet) (t : Table.Table D)
      → c ∣ 2 ^ 16
      → Unique c t
      → Unique c (Table.deliver env delay src p t)
  unfolding Table.deliver Table.deliver_packet Table.deliver_connect
  deliver-Unique c src none t d u = record { conns = u.conns; few = u.few }
  deliver-Unique c src (some (conn_init p)) t d u =
      by_known (lookup (Table.remote_key src p.srcaddr) t.by_remote)
    where
      by_known : (o : Option ℕ) → Unique c (Table.deliver_connect env delay o src p t)
      by_known none = accept-Unique c src p t d u
      by_known (some addr) = operate-Unique c addr _ t d u
  deliver-Unique c src (some (ack_data p)) t d u = operate-Unique c _ _ t d u
  deliver-Unique c src (some (ack_other p)) t d u = operate-Unique c _ _ t d u
  deliver-Unique c src (some (ack_conn p)) t d u = operate-Unique c _ _ t d u
  deliver-Unique c src (some (data_seg p)) t d u = operate-Unique c _ _ t d u
  deliver-Unique c src (some (int_msg p)) t d u = operate-Unique c _ _ t d u
  deliver-Unique c src (some (link_svc p)) t d u = operate-Unique c _ _ t d u
  deliver-Unique c src (some (conn_conf p)) t d u = operate-Unique c _ _ t d u
  deliver-Unique c src (some (disc_conf p)) t d u = operate-Unique c _ _ t d u
  deliver-Unique c src (some (disc_init p)) t d u = operate-Unique c _ _ t d u

  nsp_event-Unique :
      (c : ℕ) (ev : Table.NspEvent) (t : Table.Table D)
      → c ∣ 2 ^ 16
      → Unique c t
      → Unique c (Table.nsp_event env delay ev t)
  unfolding Table.nsp_event Table.stop
  nsp_event-Unique c (Table.connecting dest bytes) t d u = connect-Unique c dest bytes t d u
  nsp_event-Unique c (Table.delivered src p) t d u = deliver-Unique c src p t d u
  nsp_event-Unique c (Table.on_open_link addr ev) t d u = operate-Unique c addr ev t d u
  nsp_event-Unique c (Table.time_passed n) t d u = record { conns = u.conns; few = u.few }
  nsp_event-Unique c Table.stopped t d u = record {
    conns = u.conns;
    few = λ r. unfold keys in let k = u.few r in omega arith;
  }

  events-Unique :
      (c : ℕ) (es : List Table.NspEvent) (t : Table.Table D)
      → c ∣ 2 ^ 16
      → Unique c t
      → Unique c (Table.nsp_events env delay es t)
  unfolding Table.nsp_events
  events-Unique c [] t d u = u
  events-Unique c (e ∷ es) t d u = events-Unique c es _ d (nsp_event-Unique c e t d u)

new_table-Unique :
    {D : Type 0} (maxconns : ℕ) (high : ℕ → ℕ) (shuffle : List ℕ → List ℕ)
    → maxconns + 1 ∣ 2 ^ 16
    → ((p : ℕ → Bool) (xs : List ℕ) → count p (shuffle xs) ≡ count p xs)
    → Unique {D = D} (maxconns + 1) (Table.new_table maxconns high shuffle)
unfolding Table.new_table keys
new_table-Unique maxconns high shuffle d s = record {
  conns = refl;
  few = λ r.
      let e = s (λ a. a % (maxconns + 1) == r) (Table.ids_from 1 maxconns (maxconns + 1) high) in
      let k = ids_from-tally (maxconns + 1) r 1 maxconns high (omega arith) d in ground arith;
}

-- Whatever happens to NSP and its links, of the addresses that are free or open no two have the
-- same low bits, which are the address modulo one more than the number of links, and none has low
-- bits 0: where that modulus divides 2^16, std::shuffle permutes, and session control rejects a
-- link at most once, when it is told of the connect.
pub nsp_events-Unique :
    {D : Type 0} (env : ℕ → Env D) (delay : ℕ → D) (maxconns : ℕ) (high : ℕ → ℕ)
    (shuffle : List ℕ → List ℕ) (es : List Table.NspEvent)
    → ((n : ℕ) → Released.Polite (env n))
    → maxconns + 1 ∣ 2 ^ 16
    → ((p : ℕ → Bool) (xs : List ℕ) → count p (shuffle xs) ≡ count p xs)
    → Unique (maxconns + 1) (Table.nsp_events env delay es (Table.new_table maxconns high shuffle))
nsp_events-Unique env delay maxconns high shuffle es polite d s =
    events-Unique env delay polite (maxconns + 1) es _ d
      (new_table-Unique maxconns high shuffle d s)
