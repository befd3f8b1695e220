-- ===== src/Nsp/Reassembly.antt =====
-- Messages put together from segments: as such, and by the receiving half of a link.
use cppdecnet.Prelude.{
  ℕ, zero, suc, ◌≡◌, ◌≢◌, ◌⊎◌, Bool, true, false, ◌&&◌, none, List, [], ◌∷◌, ◌++◌, arith,
  if◌then◌else◌, length,
}
use cppdecnet.Nsp.Packets.{DataSeg, bom, eom}
use cppdecnet.Nsp.Link.{Link, Env, data_received}
use cppdecnet.Nsp.Receive.{accept_segment, count_received, deliver_message, append_payload}
use cppdecnet.Nsp.Kept.{delivered, notify-Kept}

-- Reassembly as such: the message being put together, whether one is, and the complete ones, the
-- newest first.
pub record Reassembly : Type 0 where
  pub buffer : List ℕ
  pub started : Bool
  pub messages : List (List ℕ)

abbrev pub joined : DataSeg → Reassembly → Reassembly
joined s r =
    if bom s
    then record r { buffer = s.payload; started = true }
    else if r.started
    then record r { buffer = r.buffer ++ s.payload }
    else r

abbrev pub feed : DataSeg → Reassembly → Reassembly
feed s r =
    let j = joined s r in
    if j.started && eom s
    then record { buffer = []; started = false; messages = j.buffer ∷ j.messages }
    else j

-- The segments 1 to n of a stream, reassembled.
unfoldable pub absorbed : (ℕ → DataSeg) → ℕ → Reassembly
absorbed stream zero = record { buffer = []; started = false; messages = [] }
absorbed stream (suc n) = feed (stream (suc n)) (absorbed stream n)

module _ {D : Type 0} where
  abbrev pub view : Link D → Reassembly
  view c = record { buffer = c.assembly; started = c.assembling; messages = delivered c.out }

module _ {D : Type 0} (env : Env D) (h : env.session ≢ none) where
  pub record Fed (s : DataSeg) (c d : Link D) : Type 0 where
    pub fed : view d ≡ feed s (view c)
    pub next_expect : d.next_expect ≡ c.next_expect
    pub ooo : (d.ooo ≡ c.ooo) ⊎ (d.ooo ≡ [])

  pub deliver_message-Fed :
      (c : Link D)
      → (view (deliver_message env c)
          ≡ record { buffer = []; started = false; messages = c.assembly ∷ delivered c.out })
        × ((deliver_message env c).next_expect ≡ c.next_expect)
        × (((deliver_message env c).ooo ≡ c.ooo) ⊎ ((deliver_message env c).ooo ≡ []))
  unfolding deliver_message
  deliver_message-Fed c =
      let counted = count_received (length c.assembly) (record c { assembling = false }) in
      ground (arith, notify-Kept env (data_received c.assembly) counted h)

  pub accept_segment-Fed : (s : DataSeg) (c : Link D) → Fed s c (accept_segment env s c)
  unfolding accept_segment append_payload
  accept_segment-Fed s c = ground (arith, deliver_message-Fed (append_payload s c))
