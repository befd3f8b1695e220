-- ===== src/Nsp/Window/Reached.antt =====
-- What a link comes to as it sends, against the transmit window.
use cppdecnet.Prelude.{ℕ, suc, ◌+◌, ◌^◌, ◌≤◌, List, length}
use cppdecnet.Nsp.Link.{Link, Env}
use cppdecnet.Nsp.Transmit.{send_segments, send_blocked}
use cppdecnet.Nsp.Acks.{process_ack, process_nak, resend}
use cppdecnet.Nsp.Window.{Window, width, count_data, count_data-le}
use cppdecnet.Nsp.Window.Sending.{send_segments-Window, send_blocked-Window}
use cppdecnet.Nsp.Window.Acks.{process_ack-Window}
use cppdecnet.Nsp.Window.Again.{process_nak-Window, resend-Window}

module _ {D : Type 0} (env : Env D) where
  -- The links that c comes to: by messages that its segment counter has room for, by acknowledgements
  -- and negative ones, by retransmissions and by packets that were held up.
  pub data Reached (c : Link D) : Link D → Type 0 where
    begun : Reached c c
    message :
        {d : Link D} (bytes : List ℕ)
        → Reached c d
        → d.next_segnum + suc (length bytes) + width d ≤ 2 ^ 32
        → Reached c (send_segments env bytes d)
    acked : {d : Link D} (num : ℕ) → Reached c d → Reached c (process_ack env num d)
    missed : {d : Link D} → Reached c d → Reached c (process_nak env d)
    resent : {d : Link D} → Reached c d → Reached c (resend env d)
    unblocked : {d : Link D} → Reached c d → Reached c (send_blocked env d)

  abbrev Windowed : Link D → Type 0
  Windowed d = (k : ℕ) × Window k d

  Reached-Windowed : (k : ℕ) (c d : Link D) → Window k c → Reached c d → Windowed d
  Reached-Windowed k c d w begun = (k, w)
  Reached-Windowed k c d w (message {d = e} bytes r room) =
      let i = Reached-Windowed k c e w r in (i.0, send_segments-Window env i.0 bytes e i.1 room)
  Reached-Windowed k c d w (acked {d = e} num r) =
      let i = Reached-Windowed k c e w r in
      let a = process_ack-Window env num i.0 e i.1 in (a.0, a.2)
  Reached-Windowed k c d w (missed {d = e} r) =
      let i = Reached-Windowed k c e w r in (i.0, process_nak-Window env i.0 e i.1)
  Reached-Windowed k c d w (resent {d = e} r) =
      let i = Reached-Windowed k c e w r in (i.0, resend-Window env i.0 e i.1)
  Reached-Windowed k c d w (unblocked {d = e} r) =
      let i = Reached-Windowed k c e w r in (i.0, send_blocked-Window env i.0 e i.1)

  -- Whatever a link comes to from one where the window invariant holds, by messages that its
  -- segment counter has room for, acknowledgements, negative ones, retransmissions and packets
  -- that were held up, in any order, no more data segments are on the wire than the greatest
  -- window, the maximum of 1 and qmax.
  pub Reached-bounded :
      (k : ℕ) (c d : Link D) → Window k c → Reached c d → count_data d.txq ≤ width d
  Reached-bounded k c d w r =
      let (n, v) = Reached-Windowed k c d w r in
      count_data-le (width d) n d.next_segnum d.txq v.numbered v.below
