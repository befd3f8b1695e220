-- ===== src/Routing/Tests.antt =====
-- Routing messages and routes at concrete inputs, and the theorems applied to them.
use cppdecnet.Prelude.{ℕ, ◌+◌, ◌^◌, ◌<◌, ◌≡◌, refl, ◌⊎◌, true, false, none, some, [], ◌∷◌, arith}
use cppdecnet.Routing.Message.{
  Header, RouteSegment, ok, valid_l1, encode_ph4, decode_ph4, encode_ph3, decode_ph3, index_key,
  segment_words,
}
use cppdecnet.Routing.Index.{
  All, Fits, total, index_key-encode, decode_ph4-encode_ph4, decode_ph3-encode_ph3,
}
use cppdecnet.Routing.Matrix.{
  Adjacency, Column, Matrix, Best, new_matrix, considered, choose, no_route,
}
use cppdecnet.Routing.Choice.{Cheapest, Offered, Within, choose-Cheapest}
use cppdecnet.Routing.Router.{Router, find_oadj_l1}
use cppdecnet.Routing.Forward.{ShortData, forward}
use cppdecnet.Routing.Settled.{Settled, forward-Settled}

abbrev header : Header
header = record { control = true; type = 3; ext_type = 0; pf = false; srcnode = 1025 }

abbrev reached : RouteSegment
reached = record { startid = 1; entries = 1029 ∷ 2054 ∷ [] }

small_ph4 : total (segment_words (reached ∷ [])) + 0x1_0000 < 2 ^ 32
unfolding segment_words
small_ph4 = omega arith

small_ph3 : total (1029 ∷ 2054 ∷ []) + 0xffff < 2 ^ 32
small_ph3 = omega arith

index_key-encode_example :
    (index_key (encode_ph4 header (reached ∷ [])) ≡ ok 0xfffe)
    × (index_key (encode_ph3 header (1029 ∷ 2054 ∷ [])) ≡ ok 0xffff)
index_key-encode_example =
    index_key-encode header (reached ∷ []) (1029 ∷ 2054 ∷ []) small_ph4 small_ph3

reached-Fits : All (Fits valid_l1) (reached ∷ [])
unfolding valid_l1
reached-Fits = ((refl, omega arith), tt)

decode_ph4-encode_ph4_example :
    decode_ph4 valid_l1 (encode_ph4 header (reached ∷ [])) ≡ ok (header, reached ∷ [])
decode_ph4-encode_ph4_example =
    decode_ph4-encode_ph4 valid_l1 header reached [] (omega arith) (omega arith) reached-Fits

decode_ph3-encode_ph3_example :
    decode_ph3 (encode_ph3 header (1029 ∷ 2054 ∷ [])) ≡ ok (header, 1029 ∷ 2054 ∷ [])
decode_ph3-encode_ph3_example =
    decode_ph3-encode_ph3 header 1029 (2054 ∷ []) (omega arith) (omega arith)

-- Two neighbours, and their columns with a route to node 5.
abbrev neighbour : ℕ → Adjacency
neighbour i = record {
  key = i;
  nodeid = 1024 + i;
  router = true;
  level2 = false;
  circuit = some i;
  circuit_cost = 4;
}

abbrev column : ℕ → ℕ → Column
column i cost = record {
  key = i;
  hops = λ d. 2;
  cost = λ d. cost;
  adjacency = λ d. some (neighbour i);
}

abbrev matrix : Matrix
matrix = record (new_matrix 1023 30 1022) { columns = column 2 9 ∷ column 3 6 ∷ [] }

choose-Cheapest_example :
    (best : Best) × Cheapest 5 (considered matrix none) best
    × ((best ≡ no_route) ⊎ Offered 5 (considered matrix none) best)
    × Within matrix best (choose matrix none 5)
choose-Cheapest_example = choose-Cheapest matrix none 5

test_choice : (choose matrix none 5).cost ≡ 6
unfolding choose new_matrix
test_choice = refl

abbrev this_node : Adjacency
this_node = record {
  key = 1;
  nodeid = 1025;
  router = true;
  level2 = false;
  circuit = none;
  circuit_cost = 0;
}

abbrev pub router : Router
router = record {
  nodeid = 1025;
  maxnodes = 1023;
  maxarea = 63;
  maxvisits = 63;
  self = this_node;
  endnodes = column 0 6;
  l1 = matrix;
  l2 = matrix;
  attached = false;
  partial_update_loss = 0;
  aged_loss = 0;
  unreach_loss = 0;
  oor_loss = 0;
  transit_sent = 0;
  reports = [];
}

-- A packet for a node that is not reachable, which is to be returned.
abbrev lost : ShortData
lost = record {
  sfpd = 2;
  rqr = true;
  rts = false;
  vers = false;
  pf = false;
  dstnode = 1030;
  srcnode = 1026;
  visit = 3;
  payload = 7 ∷ [];
  ie = false;
  src = some 2;
}

forward-Settled_example : Settled router lost (forward find_oadj_l1 router lost).1
forward-Settled_example = forward-Settled find_oadj_l1 router lost
