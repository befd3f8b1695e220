-- ===== src/Nsp/Table/Tests.antt =====
-- The theorem on addresses at concrete input, and tests of NSP.
use cppdecnet.Prelude.{ℕ, ◌≤◌, ◌≡◌, refl, subst, true, false, some, List, [], ◌∷◌, arith}
use mathlib.Core.Option.{some-injective}
use native.Mathlib.Nat.{dvd-mul_left}
use cppdecnet.Nsp.Packets.{Packet, Conn, conn_init, disc_conf}
use cppdecnet.Nsp.Link.{Link, Env, Upcall, Call, State, new_link, reject}
use cppdecnet.Nsp.States.{receive, timeout}
use cppdecnet.Nsp.Released
use cppdecnet.Nsp.Released.Once
use cppdecnet.Nsp.Table.{
  NspEvent, connecting, delivered, nsp_events, new_table, return_id, ids_from,
}
use cppdecnet.Nsp.Table.Unique.{Unique, nsp_events-Unique}
use cppdecnet.Nsp.Tests.{nat_double}

-- Session control rejects every connect.
abbrev reject_all : Upcall → Link ℕ → List Call
reject_all (Upcall.connect_received bytes) c = reject 4 [] ∷ []
reject_all u c = []

abbrev env : ℕ → Env ℕ
env n = record {
  double = nat_double;
  qmax = 20;
  delay_weight = 3;
  delay_factor = 2;
  min_delay = 1;
  retransmit_limit = 5;
  nsp_version = 2;
  phase = 4;
  session = some reject_all;
}

env-Polite : (n : ℕ) → Released.Polite (env n)
env-Polite n respond u c e =
    subst (λ r. Released.rejects (r u c) ≤ Released.rejectable u) (some-injective _ _ e) (few u c)
  where
    few : (u : Upcall) (c : Link ℕ) → Released.rejects (reject_all u c) ≤ Released.rejectable u
    few (Upcall.connect_received bytes) c = omega arith
    few (Upcall.connect_confirmed bytes) c = omega arith
    few (Upcall.connect_rejected reason bytes) c = omega arith
    few (Upcall.data_received bytes) c = omega arith
    few (Upcall.interrupt_received bytes) c = omega arith
    few Upcall.run_state c = omega arith
    few (Upcall.disconnected reason bytes) c = omega arith

abbrev hello : Conn
hello = record { dstaddr = 0; srcaddr = 77; fcopt = 0; info = 2; segsize = 100; body = [] }

-- A link is opened, another is asked for and rejected, and the first is refused.
abbrev events : List NspEvent
events =
    connecting 1025 []
    ∷ delivered 1026 (some (conn_init hello))
    ∷ delivered 1025 (some (disc_conf (record { dstaddr = 1; srcaddr = 9; reason = 41 })))
    ∷ []

nsp_events-Unique_example :
    Unique 16 (nsp_events env (λ n. 0) events (new_table 15 (λ i. 0) (λ xs. xs)))
nsp_events-Unique_example =
    nsp_events-Unique env (λ n. 0) 15 (λ i. 0) (λ xs. xs) events env-Polite (dvd-mul_left 16 4096)
      (λ p xs. refl)

-- A link that is closed gives its address back moved on, and is held until the grace is over.
returned_free :
    (return_id 18 (new_table {D = ℕ} 3 (λ i. 0) (λ xs. xs))).free_ids ≡ 1 ∷ 2 ∷ 3 ∷ 22 ∷ []
unfolding return_id new_table ids_from
returned_free = refl

-- A link whose connect has been sent as often as it may.
abbrev tired : Link ℕ
tired = record (new_link (env 0) 1 0) {
  state = State.ci;
  retries = 5;
  timer_is_retransmit = true;
  txq =
      record {
        seq = 0;
        segnum = 0;
        msgnum = 0;
        frame = conn_init hello;
        sent = true;
        is_data = false;
        txtime = 0;
      }
      ∷ [];
}

abbrev refusal : Packet
refusal = disc_conf (record { dstaddr = 1; srcaddr = 9; reason = 41 })

receive-timeout-Once_example :
    Once.Once tired (receive (env 0) refusal tired) × Once.Once tired (timeout (env 0) tired)
receive-timeout-Once_example = Once.receive-timeout-Once (env 0) (env-Polite 0) refusal tired
