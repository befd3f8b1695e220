-- ===== src/Routing/Update.antt =====
-- src/routing/l1router.cc: class Update, which tells one circuit's neighbours of the routes.
pub mod Covers
pub mod Room
mod Tests
use cppdecnet.Prelude.{
  ℕ, zero, suc, ◌+◌, ◌-◌, ◌*◌, ◌%◌, ◌^◌, min, Bool, true, false, not, ◌&&◌, ◌||◌, Option, none,
  some, List, [], ◌∷◌, ◌++◌, ltb, leb, ◌==◌, if◌then◌else◌, length, map,
}
use cppdecnet.Routing.Message.{RouteSegment, Header, route_entry, infhops, infcost, encode_ph4}
use cppdecnet.Routing.Matrix.{Matrix}
use cppdecnet.Routing.Router.{Router}

-- What the process reads of its circuit.
pub record Circuit : Type 0 where
  pub wants_updates : ℕ → Bool
  pub update_blksize : ℕ

-- Times are in milliseconds; `now` is what the steady clock reads, `timer` the interval for which the
-- process's timer was armed last, and `sent` has the frames, the oldest first.
pub record Update : Type 0 where
  pub t1 : ℕ
  pub level : ℕ
  pub srm_size : ℕ
  pub srm : ℕ → Bool
  pub any_srm : Bool
  pub holdoff : Bool
  pub running : Bool
  pub lastfull : ℕ
  pub next_interval : ℕ
  pub last_complete : Bool
  pub now : ℕ
  pub timer : Option ℕ
  pub sent : List (List ℕ)

-- T2
abbrev pub t2 : ℕ
t2 = 1000

unfoldable pub new_update : ℕ → ℕ → ℕ → Update
new_update maxnodes t1 level = record {
  t1 = t1;
  level = level;
  srm_size = if level == 2 then 64 else maxnodes + 1;
  srm = λ i. false;
  any_srm = false;
  holdoff = false;
  running = false;
  lastfull = 0;
  next_interval = 0;
  last_complete = false;
  now = 0;
  timer = none;
  sent = [];
}

unfoldable pub start : Update → Update
start u = record u { running = true; lastfull = u.now; timer = some u.t1 }

unfoldable pub stop : Update → Update
stop u = record u { running = false; timer = none }

-- `set_srm (first, last)`
unfoldable pub set_srm : Circuit → ℕ → ℕ → Update → Update
set_srm c first last u =
    let marked = record u {
      srm = λ i. if leb first i && leb i (min last (u.srm_size - 1)) then true else u.srm i;
      any_srm = true;
    } in
    if not (c.wants_updates u.level)
    then u
    else if not u.holdoff && u.running
    then record marked { holdoff = true; timer = some t2 }
    else marked

unfoldable pub advertised : Matrix → ℕ → ℕ
advertised m i =
    if ltb m.maxid i then route_entry infhops infcost else route_entry (m.minhops i) (m.mincost i)

unfoldable pub entry_for : Router → ℕ → ℕ → ℕ
entry_for r level i = if level == 2 then advertised r.l2 i else advertised r.l1 i

-- The variables of `build`: the message's segments, the segment that is open, the words of the
-- message, the last destination and the messages that are done.
pub record Building : Type 0 where
  pub segments : List RouteSegment
  pub seg : Option RouteSegment
  pub words : ℕ
  pub previd : ℕ
  pub done : List (List RouteSegment)

abbrev pub new_building : Building
new_building = record { segments = []; seg = none; words = 0; previd = 0; done = [] }

unfoldable pub close_segment : Option RouteSegment → Building → Building
close_segment none b = b
close_segment (some s) b = record b {
  segments = if length s.entries == 0 then b.segments else b.segments ++ s ∷ [];
  seg = none;
}

unfoldable pub flush_segment : Building → Building
flush_segment b = close_segment b.seg b

unfoldable pub close_message : List RouteSegment → Building → Building
close_message [] b = record b { words = 0 }
close_message (s ∷ segs) b = record b { done = b.done ++ (s ∷ segs) ∷ []; segments = []; words = 0 }

unfoldable pub flush_message : Building → Building
flush_message b = let f = flush_segment b in close_message f.segments f

-- An entry joins the open segment, or starts one.
unfoldable pub push_entry : ℕ → ℕ → Option RouteSegment → Building → Building
push_entry i e none b = record b {
  seg = some (record { startid = i % 2 ^ 16; entries = e ∷ [] });
  words = b.words + 2 + 1;
  previd = i;
}
push_entry i e (some s) b = record b {
  seg = some (record s { entries = s.entries ++ e ∷ [] });
  words = b.words + 1;
  previd = i;
}

-- A gap in the destinations closes the open segment.
unfoldable pub at_gap : ℕ → Building → Building
at_gap i b = if i == b.previd + 1 then b else flush_segment b

-- A round of the loop for a destination that is advertised.
unfoldable pub add_entry : ℕ → ℕ → ℕ → Building → Building
add_entry room i e b =
    let gapped = at_gap i b in
    let added = push_entry i e gapped.seg gapped in
    if leb room (added.words * 2) then flush_message added else added

-- The loop over n destinations from i on.
unfoldable pub build_loop : (ℕ → Bool) → (ℕ → ℕ) → ℕ → ℕ → ℕ → Building → Building
build_loop wanted entry room i zero b = b
build_loop wanted entry room i (suc n) b =
    let next = if wanted i then add_entry room i (entry i) b else b in
    build_loop wanted entry room (suc i) n next

unfoldable pub room_of : ℕ → ℕ
room_of mtu = if ltb 16 mtu then mtu - 16 else 64

-- The segments of the messages of `build`.
unfoldable pub build_segments : (ℕ → Bool) → (ℕ → ℕ) → ℕ → ℕ → ℕ → List (List RouteSegment)
build_segments wanted entry mtu low n =
    (flush_message (build_loop wanted entry (room_of mtu) low n new_building)).done

abbrev pub header_of : Router → ℕ → Header
header_of r level = record {
  control = true;
  type = if level == 2 then 4 else 3;
  ext_type = 0;
  pf = false;
  srcnode = r.nodeid;
}

-- The first destination of a level, and how many there are.
abbrev pub low_id : ℕ → ℕ
low_id level = if level == 2 then 1 else 0

abbrev pub id_count : Router → Update → ℕ
id_count r u = if u.level == 2 then u.srm_size - 1 else r.maxnodes + 1

unfoldable pub build : Router → Circuit → Bool → Update → List (List ℕ)
build r c complete u = map (encode_ph4 (header_of r u.level)) (
    build_segments (λ i. complete || u.srm i) (entry_for r u.level) c.update_blksize
      (low_id u.level) (id_count r u))

unfoldable pub send_now : Router → Circuit → Update → Update
send_now r c u =
    let delta = if u.any_srm then min (u.now - u.lastfull) u.t1 else u.t1 in
    record u {
      sent = u.sent ++ build r c (not u.any_srm) u;
      srm = λ i. false;
      any_srm = false;
      lastfull = if u.any_srm then u.lastfull else u.now;
      next_interval = delta;
      last_complete = not u.any_srm;
      timer = some delta;
    }

unfoldable pub timeout : Router → Circuit → Update → Update
timeout r c u =
    let fired = record u { holdoff = false; timer = none } in
    if not u.running
    then fired
    else if not (c.wants_updates u.level)
    then record fired { timer = some u.t1 }
    else send_now r c fired
