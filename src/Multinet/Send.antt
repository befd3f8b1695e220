-- ===== src/Multinet/Send.antt =====
-- src/datalink/multinet.cc: the frames that wait for a Multinet connection, and their writes. What the
-- socket answers to a write is there; behind the answers given, the connection is full.
pub mod InFull
use cppdecnet.Prelude.{
  ℕ, zero, suc, ◌+◌, ◌*◌, ◌-◌, min, Bool, true, false, not, ◌&&◌, List, [], ◌∷◌, ◌++◌, ltb, leb,
  if◌then◌else◌, length, take, drop,
}
use cppdecnet.Multinet.{frame}

abbrev pub hdrlen : ℕ
hdrlen = 4

abbrev pub max_frame : ℕ
max_frame = 65535

abbrev pub max_backlog : ℕ
max_backlog = 262144

abbrev pub cork_limit : ℕ
cork_limit = 32768

-- What `sock_send` answers: it took so many bytes, it was interrupted, it would block, or it failed.
pub data Answer : Type 0 where
  took : ℕ → Answer
  interrupted : Answer
  would_block : Answer
  failed : Answer

-- The written bytes are what the connection has taken; a wake is a datagram to the receive thread.
pub record Tx : Type 0 where
  txbuf : List ℕ
  txoff : ℕ
  posted : Bool
  blocked : Bool
  pub written : List ℕ
  wakes : ℕ
  bytes_sent : ℕ
  pkts_sent : ℕ

-- The bytes that are still to go.
unfoldable pub waiting : Tx → List ℕ
waiting t = drop t.txoff t.txbuf

-- The connection is full: only what is still to go is kept.
unfoldable pub full : Tx → Tx
full t = record t { txbuf = drop t.txoff t.txbuf; txoff = 0; blocked = true }

unfoldable pub emptied : Tx → Tx
emptied t = record t { txbuf = []; txoff = 0; blocked = false }

-- The connection takes n of the bytes it is offered, at most all of them.
unfoldable pub wrote : ℕ → Tx → Tx
wrote n t = record t {
  txoff = t.txoff + min n (length (waiting t));
  written = t.written ++ take n (waiting t);
}

-- One write, by its answer; the flag tells whether the connection still holds.
unfoldable pub after_write : (Tx → Tx × Bool) → Answer → Tx → Tx × Bool
after_write again (took zero) t = (full t, true)
after_write again (took (suc n)) t = again (wrote (suc n) t)
after_write again interrupted t = again t
after_write again would_block t = (full t, true)
after_write again failed t = (t, false)

unfoldable pub flush : List Answer → Tx → Tx × Bool
flush [] t = if ltb t.txoff (length t.txbuf) then (full t, true) else (emptied t, true)
flush (a ∷ answers) t =
    if ltb t.txoff (length t.txbuf) then after_write (flush answers) a t else (emptied t, true)

unfoldable pub wake_if : Bool → Tx → Tx
wake_if b t = if b then record t { wakes = t.wakes + 1 } else t

-- The end of `flush_posted`.
unfoldable pub flushed : Tx × Bool → Tx × Bool
flushed (t, ok) = if ok then (wake_if t.blocked t, true) else (t, false)

unfoldable pub flush_posted : List Answer → Tx → Tx × Bool
flush_posted answers t =
    let u = record t { posted = false } in
    flushed (if not u.blocked && ltb u.txoff (length u.txbuf) then flush answers u else (u, true))

-- A message that `send` takes on a running circuit.
unfoldable pub accepted : List ℕ → Tx → Bool
accepted msg t =
    leb (length msg) max_frame && leb (length t.txbuf - t.txoff + hdrlen + length msg) max_backlog

unfoldable pub append_frame : List ℕ → Tx → Tx
append_frame msg t = record t { txbuf = t.txbuf ++ frame msg }

-- The end of `send`.
unfoldable pub sent : ℕ → Bool → Tx × Bool → Tx × Bool
sent mlen woken (t, ok) =
    if ok
    then (
      wake_if woken (record t { bytes_sent = t.bytes_sent + mlen; pkts_sent = t.pkts_sent + 1 }),
      true,
    )
    else (t, false)

-- What becomes of a frame that was appended where so many bytes waited.
unfoldable pub dispatch_frame : List Answer → ℕ → ℕ → Tx → Tx × Bool
dispatch_frame answers before mlen t =
    if t.blocked
    then sent mlen false (t, true)
    else if leb cork_limit (before + hdrlen + mlen)
    then (let r = flush answers t in sent mlen (r.0).blocked r)
    else sent mlen false (record t { posted = true }, true)

unfoldable pub send : List Answer → List ℕ → Tx → Tx × Bool
send answers msg t =
    if accepted msg t
    then dispatch_frame answers (length t.txbuf - t.txoff) (length msg) (append_frame msg t)
    else (t, true)

-- A message to send, the flush that `send` posted, and the receive thread where the connection takes
-- bytes again.
pub data Event : Type 0 where
  send_message : List ℕ → List Answer → Event
  posted_flush : List Answer → Event
  writable : List Answer → Event

unfoldable pub step : Event → Tx → Tx × Bool
step (send_message msg answers) t = send answers msg t
step (posted_flush answers) t = flush_posted answers t
step (writable answers) t = flush answers t

unfoldable pub new_tx : Tx
new_tx = record {
  txbuf = [];
  txoff = 0;
  posted = false;
  blocked = false;
  written = [];
  wakes = 0;
  bytes_sent = 0;
  pkts_sent = 0;
}
