-- ===== src/Ddcmp/Tests.antt =====
-- Runs of the DDCMP engine and its framing at concrete inputs, and the theorems applied to them.
use cppdecnet.Prelude.{ℕ, ◌≡◌, refl, true, false, some, List, [], ◌∷◌, arith}
use cppdecnet.Ddcmp.Message.{
  Message, MsgKind, encode_header, decode_header, ok, make_stack, make_ack, find_header, encode,
}
use cppdecnet.Crc.{good, update_all, initial, compute}
use cppdecnet.Ddcmp.Protocol.{Protocol, State, new_protocol}
use cppdecnet.Ddcmp.Receive.{receive}
use cppdecnet.Ddcmp.Outstanding.{Outstanding}
use cppdecnet.Ddcmp.Kept.{Step, connects, receives, sends, run_steps, run_steps-Outstanding}
use cppdecnet.Ddcmp.InOrder.{Received, Outcome, receive-Received}
use cppdecnet.Ddcmp.Framing.{decode_header-encode_header}

-- The engine starts, sends two messages and has the first acknowledged.
abbrev steps : List Step
steps =
    connects ∷ receives make_stack ∷ sends (1 ∷ []) ∷ sends (2 ∷ []) ∷ receives (make_ack 1) ∷ []

run_steps-Outstanding_example : Outstanding (run_steps steps (new_protocol 7))
run_steps-Outstanding_example = run_steps-Outstanding 7 steps (omega arith)

-- The far end's messages, each its own number.
abbrev numbers : ℕ → List ℕ
numbers i = i ∷ []

abbrev engine : Protocol
engine = record (new_protocol 7) { state = State.running }

engine-Received : Received numbers 0 engine
unfolding new_protocol
engine-Received = record { last = refl; passed = refl }

abbrev first_message : Message
first_message = record {
  kind = MsgKind.payload_data;
  count = 1;
  type = 0;
  subtype = 0;
  qsync = false;
  select = false;
  resp = 0;
  num = 1;
  addr = 1;
  payload = 1 ∷ [];
  crcok = true;
}

receive-Received_example : Outcome numbers 0 1 (receive first_message engine)
receive-Received_example =
    receive-Received numbers 0 1 first_message engine engine-Received refl refl refl refl
      (omega arith) (omega arith)

decode_header-encode_header_example :
    decode_header true (encode_header first_message)
    ≡ ok (record first_message { payload = []; crcok = true })
decode_header-encode_header_example =
    decode_header-encode_header first_message (omega arith, refl, refl)

-- A header is found behind bytes that begin none.
test_find : find_header (7 ∷ 8 ∷ encode (make_ack 5)) ≡ some 2
unfolding find_header encode make_ack good update_all initial compute
test_find = refl
