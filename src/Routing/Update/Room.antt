-- ===== src/Routing/Update/Room.antt =====
-- How long the messages of the update process are.
use cppdecnet.Prelude.{
  ℕ, zero, suc, ◌+◌, ◌-◌, ◌*◌, ◌<◌, ◌≤◌, ◌≡◌, refl, ap, subst, Bool, Option, none, some, List, [],
  ◌∷◌, ◌++◌, leb, ◌||◌, ◌==◌, if◌then◌else◌, if-cases, arith, length, length-append, map,
}
use cppdecnet.Routing.Message.{
  RouteSegment, Header, encode_ph4, encode_header, segment_words, append_body, of_words,
  ones_complement_sum,
}
use cppdecnet.Routing.Router.{Router}
use cppdecnet.Routing.Update
use cppdecnet.Routing.Update.Covers.{flush_segment-none}

-- The words of segments: two in front of the entries of each.
abbrev size : List RouteSegment → ℕ
size [] = 0
size (s ∷ segs) = 2 + length s.entries + size segs

size-snoc :
    (s : RouteSegment) (segs : List RouteSegment)
    → size (segs ++ s ∷ []) ≡ size segs + (2 + length s.entries)
size-snoc s [] = omega arith
size-snoc s (x ∷ segs) = let e = size-snoc s segs in omega arith

abbrev open_size : Option RouteSegment → ℕ
open_size none = 0
open_size (some s) = 2 + length s.entries

-- Messages of fewer words than this.
abbrev AllBelow : ℕ → List (List RouteSegment) → Type 0
AllBelow n [] = Unit {0}
AllBelow n (m ∷ ms) = (2 * size m < n) × AllBelow n ms

AllBelow-snoc :
    (n : ℕ) (m : List RouteSegment) (ms : List (List RouteSegment))
    → 2 * size m < n
    → AllBelow n ms
    → AllBelow n (ms ++ m ∷ [])
AllBelow-snoc n m [] h k = (h, tt)
AllBelow-snoc n m (x ∷ ms) h (k, ks) = (k, AllBelow-snoc n m ms h ks)

record Counted (room : ℕ) (b : Update.Building) : Type 0 where
  words : size b.segments + open_size b.seg ≤ b.words
  done : AllBelow (room + 6) b.done

close_segment-Counted :
    (room : ℕ) (o : Option RouteSegment) (b : Update.Building)
    → b.seg ≡ o
    → Counted room b
    → Counted room (Update.close_segment o b)
unfolding Update.close_segment
close_segment-Counted room none b e c = c
close_segment-Counted room (some s) b e c =
    let o = ap open_size e in
    let w = c.words in
    let k = size-snoc s b.segments in
    record {
      words =
          if-cases (λ segs. size segs + 0 ≤ b.words) (length s.entries == 0) (λ h. omega arith)
            (λ h. omega arith);
      done = c.done;
    }

close_segment-words :
    (o : Option RouteSegment) (b : Update.Building) → (Update.close_segment o b).words ≡ b.words
unfolding Update.close_segment
close_segment-words none b = refl
close_segment-words (some s) b = refl

close_message-Counted :
    (room : ℕ) (f : Update.Building) (m : List RouteSegment)
    → f.segments ≡ m
    → f.seg ≡ none
    → f.words * 2 < room + 6
    → Counted room f
    → Counted room (Update.close_message m f) × ((Update.close_message m f).words ≡ 0)
unfolding Update.close_message
close_message-Counted room f [] e o l c = (
  record { words = let a = ap size e in let b = ap open_size o in omega arith; done = c.done },
  refl,
)
close_message-Counted room f (s ∷ segs) e o l c =
    let a = ap size e in
    let b = ap open_size o in
    let w = c.words in
    (
      record {
        words = omega arith;
        done = AllBelow-snoc (room + 6) (s ∷ segs) f.done (omega arith) c.done;
      },
      refl,
    )

flush_message-Counted :
    (room : ℕ) (b : Update.Building)
    → b.words * 2 < room + 6
    → Counted room b
    → Counted room (Update.flush_message b) × ((Update.flush_message b).words ≡ 0)
unfolding Update.flush_message Update.flush_segment
flush_message-Counted room b l c =
    let f = Update.close_segment b.seg b in
    close_message-Counted room f f.segments refl
      (unfold Update.flush_segment in flush_segment-none b)
      (let e = close_segment-words b.seg b in omega arith)
      (close_segment-Counted room b.seg b refl c)

push_entry-Counted :
    (room i e : ℕ) (o : Option RouteSegment) (b : Update.Building)
    → b.seg ≡ o
    → b.words * 2 < room
    → Counted room b
    → Counted room (Update.push_entry i e o b) × ((Update.push_entry i e o b).words * 2 < room + 6)
unfolding Update.push_entry
push_entry-Counted room i e none b h l c =
    let w = c.words in
    let z = ap open_size h in (record { words = omega arith; done = c.done }, omega arith)
push_entry-Counted room i e (some s) b h l c =
    let w = c.words in
    let z = ap open_size h in
    let k = length-append s.entries (e ∷ []) in
    (record { words = omega arith; done = c.done }, omega arith)

at_gap-Counted :
    (room i : ℕ) (b : Update.Building)
    → Counted room b
    → Counted room (Update.at_gap i b) × ((Update.at_gap i b).words ≡ b.words)
unfolding Update.at_gap Update.flush_segment
at_gap-Counted room i b c =
    if-cases {A = Update.Building} (λ d. Counted room d × (d.words ≡ b.words)) (i == b.previd + 1)
      (λ e. (c, refl))
      (λ e. (close_segment-Counted room b.seg b refl c, close_segment-words b.seg b))

add_entry-Counted :
    (room i e : ℕ) (b : Update.Building)
    → 0 < room
    → b.words * 2 < room
    → Counted room b
    → Counted room (Update.add_entry room i e b) × ((Update.add_entry room i e b).words * 2 < room)
unfolding Update.add_entry
add_entry-Counted room i e b p l c =
    let g = Update.at_gap i b in
    let h = at_gap-Counted room i b c in
    let w = h.1 in
    let a = push_entry-Counted room i e g.seg g refl (omega arith) h.0 in
    let added = Update.push_entry i e g.seg g in
    if-cases {A = Update.Building} (λ d. Counted room d × (d.words * 2 < room))
      (leb room (added.words * 2))
      (λ z. let f = flush_message-Counted room added a.1 a.0 in let y = f.1 in (f.0, omega arith))
      (λ z. (a.0, ground (arith, z)))

build_loop-Counted :
    (wanted : ℕ → Bool) (entry : ℕ → ℕ) (room i n : ℕ) (b : Update.Building)
    → 0 < room
    → b.words * 2 < room
    → Counted room b
    → Counted room (Update.build_loop wanted entry room i n b)
      × ((Update.build_loop wanted entry room i n b).words * 2 < room)
unfolding Update.build_loop
build_loop-Counted wanted entry room i zero b p l c = (c, l)
build_loop-Counted wanted entry room i (suc n) b p l c =
    let next = if wanted i then Update.add_entry room i (entry i) b else b in
    let k =
      if-cases {A = Update.Building} (λ d. Counted room d × (d.words * 2 < room)) (wanted i)
        (λ e. add_entry-Counted room i (entry i) b p l c) (λ e. (c, l)) in
    build_loop-Counted wanted entry room (suc i) n next p k.1 k.0

length-of_words : (ws : List ℕ) → length (of_words ws) ≡ 2 * length ws
unfolding of_words
length-of_words [] = refl
length-of_words (w ∷ ws) = let e = length-of_words ws in omega arith

length-segment_words : (segs : List RouteSegment) → length (segment_words segs) ≡ size segs
unfolding segment_words
length-segment_words [] = refl
length-segment_words (s ∷ segs) =
    let e = length-segment_words segs in
    let k = length-append s.entries (segment_words segs) in omega arith

length-encode_ph4 :
    (h : Header) (segs : List RouteSegment) → length (encode_ph4 h segs) ≡ 2 * size segs + 6
unfolding encode_ph4 encode_header append_body
length-encode_ph4 h segs =
    let a =
      length-append (of_words (segment_words segs))
        (of_words (ones_complement_sum (segment_words segs) 1 ∷ [])) in
    let b = length-of_words (segment_words segs) in
    let c = length-segment_words segs in
    let d = length-of_words (ones_complement_sum (segment_words segs) 1 ∷ []) in omega arith

-- The frames that are no longer than the block.
abbrev pub AllFit : ℕ → List (List ℕ) → Type 0
AllFit mtu [] = Unit {0}
AllFit mtu (f ∷ fs) = (length f ≤ mtu) × AllFit mtu fs

fits :
    (mtu : ℕ) (h : Header) (ms : List (List RouteSegment))
    → 16 < mtu
    → AllBelow (mtu - 16 + 6) ms
    → AllFit mtu (map (encode_ph4 h) ms)
fits mtu h [] l a = tt
fits mtu h (m ∷ ms) l (a, as') =
    ((let e = length-encode_ph4 h m in omega arith), fits mtu h ms l as')

-- No routing message that build makes is longer than the circuit's block, where that has more than
-- 16 bytes.
pub build-AllFit :
    (r : Router) (c : Update.Circuit) (complete : Bool) (u : Update.Update)
    → 16 < c.update_blksize
    → AllFit c.update_blksize (Update.build r c complete u)
unfolding Update.build Update.build_segments
build-AllFit r c complete u l =
    let room = Update.room_of c.update_blksize in
    let e : room ≡ c.update_blksize - 16 = unfold Update.room_of in ground (arith, l) in
    let wanted : ℕ → Bool = λ i. complete || u.srm i in
    let entry = Update.entry_for r u.level in
    let low = Update.low_id u.level in
    let b = Update.build_loop wanted entry room low (Update.id_count r u) Update.new_building in
    let k =
      build_loop-Counted wanted entry room low (Update.id_count r u) Update.new_building
        (omega arith) (omega arith) (record { words = omega arith; done = tt }) in
    let z = k.1 in
    let f = flush_message-Counted room b (omega arith) k.0 in
    fits c.update_blksize (Update.header_of r u.level) _ l
      (subst (λ n. AllBelow (n + 6) (Update.flush_message b).done) e (f.0).done)
