-- ===== src/Routing/Update/Covers.antt =====
-- What the messages of the update process tell.
use cppdecnet.Prelude.{
  ℕ, zero, suc, ◌+◌, ◌*◌, ◌%◌, ◌^◌, ◌<◌, ◌≤◌, ◌≡◌, refl, sym, ap, ap₂, subst, ◌∙◌, Bool, true,
  false, Option, none, some, List, [], ◌∷◌, ◌++◌, leb, ◌==◌, if◌then◌else◌, if-cases, arith, length,
  length-append,
}
use cppdecnet.Routing.Message.{RouteSegment}
use cppdecnet.Routing.Update

-- The destinations of a segment with their entries, and of the segments of messages.
abbrev pub numbered : ℕ → List ℕ → List (ℕ × ℕ)
numbered i [] = []
numbered i (e ∷ es) = (i, e) ∷ numbered (suc i) es

abbrev pub told : List RouteSegment → List (ℕ × ℕ)
told [] = []
told (s ∷ segs) = numbered s.startid s.entries ++ told segs

abbrev pub told_all : List (List RouteSegment) → List (ℕ × ℕ)
told_all [] = []
told_all (m ∷ ms) = told m ++ told_all ms

-- The n destinations from i on that are wanted, with their entries.
abbrev pub selected : (ℕ → Bool) → (ℕ → ℕ) → ℕ → ℕ → List (ℕ × ℕ)
selected wanted entry i zero = []
selected wanted entry i (suc n) =
    let rest = selected wanted entry (suc i) n in if wanted i then (i, entry i) ∷ rest else rest

append_assoc {ℓ} : {A : Type ℓ} (xs ys zs : List A) → (xs ++ ys) ++ zs ≡ xs ++ (ys ++ zs)
append_assoc [] ys zs = refl
append_assoc (x ∷ xs) ys zs = ap (λ l. x ∷ l) (append_assoc xs ys zs)

append_nil {ℓ} : {A : Type ℓ} (xs : List A) → xs ++ [] ≡ xs
append_nil [] = refl
append_nil (x ∷ xs) = ap (λ l. x ∷ l) (append_nil xs)

numbered-snoc :
    (i e : ℕ) (es : List ℕ) → numbered i (es ++ e ∷ []) ≡ numbered i es ++ (i + length es, e) ∷ []
numbered-snoc i e [] = ap (λ n. (n, e) ∷ []) (omega arith)
numbered-snoc i e (x ∷ es) =
    ap (λ l. (i, x) ∷ l)
      (numbered-snoc (suc i) e es ∙ ap (λ n. numbered (suc i) es ++ (n, e) ∷ []) (omega arith))

told-snoc :
    (s : RouteSegment) (segs : List RouteSegment)
    → told (segs ++ s ∷ []) ≡ told segs ++ numbered s.startid s.entries
told-snoc s [] = append_nil (numbered s.startid s.entries)
told-snoc s (x ∷ segs) =
    ap (λ l. numbered x.startid x.entries ++ l) (told-snoc s segs)
    ∙ sym (append_assoc (numbered x.startid x.entries) (told segs) (numbered s.startid s.entries))

told_all-snoc :
    (m : List RouteSegment) (ms : List (List RouteSegment))
    → told_all (ms ++ m ∷ []) ≡ told_all ms ++ told m
told_all-snoc m [] = append_nil (told m)
told_all-snoc m (x ∷ ms) =
    ap (λ l. told x ++ l) (told_all-snoc m ms) ∙ sym (append_assoc (told x) (told_all ms) (told m))

abbrev of_open : Option RouteSegment → List (ℕ × ℕ)
of_open none = []
of_open (some s) = numbered s.startid s.entries

-- All that has been taken so far.
abbrev taken : Update.Building → List (ℕ × ℕ)
taken b = told_all b.done ++ (told b.segments ++ of_open b.seg)

length_zero {ℓ} : {A : Type ℓ} (xs : List A) → length xs ≡ 0 → xs ≡ []
length_zero [] e = refl
length_zero (x ∷ xs) e = absurd (omega arith)

close_segment-taken :
    (o : Option RouteSegment) (b : Update.Building)
    → b.seg ≡ o
    → taken (Update.close_segment o b) ≡ taken b
unfolding Update.close_segment
close_segment-taken none b e = ap (λ o. told_all b.done ++ (told b.segments ++ of_open o)) refl
close_segment-taken (some s) b e =
    ap (λ l. told_all b.done ++ l)
      (if-cases (λ segs. told segs ++ [] ≡ told b.segments ++ of_open b.seg) (length s.entries == 0)
        (λ h.
          let z : s.entries ≡ [] = length_zero s.entries (ground (arith, h)) in
          ap (λ l. told b.segments ++ l) (sym (ap of_open e ∙ ap (numbered s.startid) z)))
        (λ h.
          append_nil (told (b.segments ++ s ∷ []))
          ∙ told-snoc s b.segments
          ∙ ap (λ l. told b.segments ++ l) (sym (ap of_open e))))

close_message-taken :
    (m : List RouteSegment) (b : Update.Building)
    → b.segments ≡ m
    → taken (Update.close_message m b) ≡ taken b
unfolding Update.close_message
close_message-taken [] b e = refl
close_message-taken (s ∷ segs) b e =
    ap (λ l. l ++ of_open b.seg) (told_all-snoc (s ∷ segs) b.done)
    ∙ append_assoc (told_all b.done) (told (s ∷ segs)) (of_open b.seg)
    ∙ ap (λ m. told_all b.done ++ (told m ++ of_open b.seg)) (sym e)

flush_message-taken : (b : Update.Building) → taken (Update.flush_message b) ≡ taken b
unfolding Update.flush_message Update.flush_segment
flush_message-taken b =
    let f = Update.close_segment b.seg b in
    close_message-taken f.segments f refl ∙ close_segment-taken b.seg b refl

-- The open segment ends in front of i.
abbrev Reaches : ℕ → Option RouteSegment → Type 0
Reaches i none = Unit {0}
Reaches i (some s) = s.startid + length s.entries ≡ i

pub flush_segment-none : (b : Update.Building) → (Update.flush_segment b).seg ≡ none
unfolding Update.flush_segment
flush_segment-none b = by_seg b.seg refl
  where
    by_seg : (o : Option RouteSegment) → b.seg ≡ o → (Update.close_segment o b).seg ≡ none
    by_seg none e = unfold Update.close_segment in e
    by_seg (some s) e = unfold Update.close_segment in refl

flush_message-none : (b : Update.Building) → (Update.flush_message b).seg ≡ none
unfolding Update.flush_message
flush_message-none b = by_segments (Update.flush_segment b).segments
  where
    by_segments :
        (m : List RouteSegment) → (Update.close_message m (Update.flush_segment b)).seg ≡ none
    by_segments [] = unfold Update.close_message in flush_segment-none b
    by_segments (s ∷ segs) = unfold Update.close_message in flush_segment-none b

at_gap-lem :
    (i : ℕ) (b : Update.Building)
    → Reaches (suc b.previd) b.seg
    → Reaches i (Update.at_gap i b).seg × (taken (Update.at_gap i b) ≡ taken b)
unfolding Update.at_gap
at_gap-lem i b r =
    if-cases {A = Update.Building} (λ c. Reaches i c.seg × (taken c ≡ taken b)) (i == b.previd + 1)
      (λ e.
        (let k : suc b.previd ≡ i = ground (arith, e) in subst (λ j. Reaches j b.seg) k r, refl))
      (λ e. (
        subst (λ o. Reaches i o) (sym (flush_segment-none b)) tt,
        unfold Update.flush_segment in close_segment-taken b.seg b refl,
      ))

append_inner {ℓ} :
    {A : Type ℓ} (xs ys zs us : List A) → xs ++ (ys ++ (zs ++ us)) ≡ (xs ++ (ys ++ zs)) ++ us
append_inner xs ys zs us =
    ap (λ l. xs ++ l) (sym (append_assoc ys zs us)) ∙ sym (append_assoc xs (ys ++ zs) us)

push_entry-lem :
    (i e : ℕ) (o : Option RouteSegment) (b : Update.Building)
    → i < 2 ^ 16
    → b.seg ≡ o
    → Reaches i o
    → Reaches (suc i) (Update.push_entry i e o b).seg
      × ((Update.push_entry i e o b).previd ≡ i)
      × (taken (Update.push_entry i e o b) ≡ taken b ++ (i, e) ∷ [])
unfolding Update.push_entry
push_entry-lem i e none b l h r =
    let m : i % 2 ^ 16 ≡ i = omega arith in
    (
      omega arith,
      refl,
      ap (λ n. told_all b.done ++ (told b.segments ++ (n, e) ∷ [])) m
          ∙ append_inner (told_all b.done) (told b.segments) [] ((i, e) ∷ [])
          ∙ ap (λ o. (told_all b.done ++ (told b.segments ++ of_open o)) ++ (i, e) ∷ []) (sym h),
    )
push_entry-lem i e (some s) b l h r =
    let k = length-append s.entries (e ∷ []) in
    (
      omega arith,
      refl,
      ap (λ l. told_all b.done ++ (told b.segments ++ l)) (numbered-snoc s.startid e s.entries)
          ∙ ap
              (λ n.
                told_all b.done
                ++ (told b.segments ++ (numbered s.startid s.entries ++ (n, e) ∷ [])))
              r
          ∙ append_inner (told_all b.done) (told b.segments) (numbered s.startid s.entries)
              ((i, e) ∷ [])
          ∙ ap (λ o. (told_all b.done ++ (told b.segments ++ of_open o)) ++ (i, e) ∷ []) (sym h),
    )

add_entry-lem :
    (room i e : ℕ) (b : Update.Building)
    → i < 2 ^ 16
    → Reaches (suc b.previd) b.seg
    → Reaches (suc (Update.add_entry room i e b).previd) (Update.add_entry room i e b).seg
      × (taken (Update.add_entry room i e b) ≡ taken b ++ (i, e) ∷ [])
unfolding Update.add_entry
add_entry-lem room i e b l r =
    let g = Update.at_gap i b in
    let h = at_gap-lem i b r in
    let added = Update.push_entry i e g.seg g in
    let p = push_entry-lem i e g.seg g l refl h.0 in
    let same = p.2 ∙ ap (λ l. l ++ (i, e) ∷ []) h.1 in
    if-cases {A = Update.Building}
      (λ c. Reaches (suc c.previd) c.seg × (taken c ≡ taken b ++ (i, e) ∷ []))
      (leb room (added.words * 2))
      (λ z. (
        subst (λ o. Reaches (suc (Update.flush_message added).previd) o)
            (sym (flush_message-none added)) tt,
        flush_message-taken added ∙ same,
      ))
      (λ z. (subst (λ n. Reaches (suc n) added.seg) (sym p.1) p.0, same))

build_loop-taken :
    (wanted : ℕ → Bool) (entry : ℕ → ℕ) (room i n : ℕ) (b : Update.Building)
    → i + n ≤ 2 ^ 16
    → Reaches (suc b.previd) b.seg
    → taken (Update.build_loop wanted entry room i n b) ≡ taken b ++ selected wanted entry i n
unfolding Update.build_loop
build_loop-taken wanted entry room i zero b l r = sym (append_nil (taken b))
build_loop-taken wanted entry room i (suc n) b l r =
    by_test (λ c h. build_loop-taken wanted entry room (suc i) n c (omega arith) h) (wanted i)
  where
    by_test :
        ((c : Update.Building)
          → Reaches (suc c.previd) c.seg
          → taken (Update.build_loop wanted entry room (suc i) n c)
            ≡ taken c ++ selected wanted entry (suc i) n)
        → (t : Bool)
        → taken (
            Update.build_loop wanted entry room
              (suc i)
              n
              (if t then Update.add_entry room i (entry i) b else b))
          ≡ taken b
            ++ (if t
                then (i, entry i) ∷ selected wanted entry (suc i) n
                else selected wanted entry (suc i) n)
    by_test later true =
        let a = add_entry-lem room i (entry i) b (omega arith) r in
        later (Update.add_entry room i (entry i) b) a.0
        ∙ ap (λ l. l ++ selected wanted entry (suc i) n) a.1
        ∙ append_assoc (taken b) ((i, entry i) ∷ []) (selected wanted entry (suc i) n)
    by_test later false = later b r

flush_message-empty : (b : Update.Building) → (Update.flush_message b).segments ≡ []
unfolding Update.flush_message
flush_message-empty b = by_segments (Update.flush_segment b).segments refl
  where
    by_segments :
        (m : List RouteSegment)
        → (Update.flush_segment b).segments ≡ m
        → (Update.close_message m (Update.flush_segment b)).segments ≡ []
    by_segments [] e = unfold Update.close_message in e
    by_segments (s ∷ segs) e = unfold Update.close_message in refl

-- The segments of the messages that build makes, one behind the other, name exactly the
-- destinations that are wanted, in order and each with its entry, however they are cut at gaps and
-- at the block size, for destinations of 16 bits.
pub build_segments-selected :
    (wanted : ℕ → Bool) (entry : ℕ → ℕ) (mtu low n : ℕ)
    → low + n ≤ 2 ^ 16
    → told_all (Update.build_segments wanted entry mtu low n) ≡ selected wanted entry low n
unfolding Update.build_segments
build_segments-selected wanted entry mtu low n l =
    let b = Update.build_loop wanted entry (Update.room_of mtu) low n Update.new_building in
    sym (rest b)
    ∙ flush_message-taken b
    ∙ build_loop-taken wanted entry (Update.room_of mtu) low n Update.new_building l tt
  where
    rest :
        (b : Update.Building)
        → taken (Update.flush_message b) ≡ told_all (Update.flush_message b).done
    rest b =
        ap₂ (λ m o. told_all (Update.flush_message b).done ++ (told m ++ of_open o))
          (flush_message-empty b) (flush_message-none b)
        ∙ append_nil (told_all (Update.flush_message b).done)
