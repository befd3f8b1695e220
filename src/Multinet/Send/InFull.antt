-- ===== src/Multinet/Send/InFull.antt =====
-- What a Multinet connection has taken, and what waits for it.
use cppdecnet.Prelude.{
  ℕ, zero, suc, ◌+◌, ◌-◌, ◌≤◌, ◌≡◌, refl, sym, ap, subst, ◌∙◌, min, Bool, true, false, not, ◌&&◌,
  List, [], ◌∷◌, ◌++◌, ltb, leb, if◌then◌else◌, if-cases, arith, length, length-append, take, drop,
  take-append-drop, length-drop,
}
use cppdecnet.Multinet
use cppdecnet.Multinet.Cuts.{wire, AllFit, joined, append_assoc, append_nil, receive_loop-wire}
use cppdecnet.Multinet.Send

-- The bytes of the connection, those to come included.
abbrev pub stream : Send.Tx → List ℕ
stream t = t.written ++ drop t.txoff t.txbuf

record Kept (s : List ℕ) (t : Send.Tx) : Type 0 where
  all : stream t ≡ s
  within : t.txoff ≤ length t.txbuf

drop_nil : (n : ℕ) → drop {A = ℕ} n [] ≡ []
drop_nil zero = refl
drop_nil (suc n) = refl

drop-min : (n : ℕ) (xs : List ℕ) → drop (min n (length xs)) xs ≡ drop n xs
drop-min zero xs = let e : min 0 (length xs) ≡ 0 = omega arith in ap (λ k. drop k xs) e
drop-min (suc n) [] = drop_nil (min (suc n) 0)
drop-min (suc n) (x ∷ xs) =
    let e : min (suc n) (suc (length xs)) ≡ suc (min n (length xs)) = omega arith in
    ap (λ k. drop k (x ∷ xs)) e ∙ drop-min n xs

drop_add : (n k : ℕ) (xs : List ℕ) → drop (n + k) xs ≡ drop k (drop n xs)
drop_add zero k xs = let e : 0 + k ≡ k = omega arith in ap (λ m. drop m xs) e
drop_add (suc n) k [] = drop_nil (suc n + k) ∙ sym (drop_nil k)
drop_add (suc n) k (x ∷ xs) =
    let e : suc n + k ≡ suc (n + k) = omega arith in ap (λ m. drop m (x ∷ xs)) e ∙ drop_add n k xs

drop_all : (n : ℕ) (xs : List ℕ) → length xs ≤ n → drop n xs ≡ []
drop_all zero [] h = refl
drop_all zero (x ∷ xs) h = absurd (omega arith)
drop_all (suc n) [] h = refl
drop_all (suc n) (x ∷ xs) h = drop_all n xs (omega arith)

drop-append : (n : ℕ) (xs ys : List ℕ) → n ≤ length xs → drop n (xs ++ ys) ≡ drop n xs ++ ys
drop-append zero xs ys h = refl
drop-append (suc n) [] ys h = absurd (omega arith)
drop-append (suc n) (x ∷ xs) ys h = drop-append n xs ys (omega arith)

wrote-Kept : (n : ℕ) (s : List ℕ) (t : Send.Tx) → Kept s t → Kept s (Send.wrote n t)
unfolding Send.wrote Send.waiting
wrote-Kept n s t k =
    let w = drop t.txoff t.txbuf in
    let rest = drop_add t.txoff (min n (length w)) t.txbuf ∙ drop-min n w in
    record {
      all =
          ap (λ l. (t.written ++ take n w) ++ l) rest
          ∙ append_assoc t.written (take n w) (drop n w)
          ∙ ap (λ l. t.written ++ l) (take-append-drop n w)
          ∙ k.all;
      within = let l = k.within in omega (arith, length-drop t.txoff t.txbuf);
    }

full-Kept : (s : List ℕ) (t : Send.Tx) → Kept s t → Kept s (Send.full t)
unfolding Send.full
full-Kept s t k = record { all = k.all; within = omega arith }

emptied-Kept :
    (s : List ℕ) (t : Send.Tx)
    → ltb t.txoff (length t.txbuf) ≡ false
    → Kept s t
    → Kept s (Send.emptied t)
unfolding Send.emptied
emptied-Kept s t e k = record {
  all = ap (λ l. t.written ++ l) (sym (drop_all t.txoff t.txbuf (ground arith))) ∙ k.all;
  within = omega arith;
}

after_write-Kept :
    (again : Send.Tx → Send.Tx × Bool) (a : Send.Answer) (s : List ℕ) (t : Send.Tx)
    → ((u : Send.Tx) → Kept s u → Kept s (again u).0)
    → Kept s t
    → Kept s (Send.after_write again a t).0
unfolding Send.after_write
after_write-Kept again (Send.took zero) s t ih k = full-Kept s t k
after_write-Kept again (Send.took (suc n)) s t ih k =
    ih (Send.wrote (suc n) t) (wrote-Kept (suc n) s t k)
after_write-Kept again Send.interrupted s t ih k = ih t k
after_write-Kept again Send.would_block s t ih k = full-Kept s t k
after_write-Kept again Send.failed s t ih k = k

flush-Kept :
    (answers : List Send.Answer) (s : List ℕ) (t : Send.Tx)
    → Kept s t
    → Kept s (Send.flush answers t).0
unfolding Send.flush
flush-Kept [] s t k =
    if-cases {A = Send.Tx × Bool} (λ r. Kept s r.0) (ltb t.txoff (length t.txbuf))
      (λ e. full-Kept s t k) (λ e. emptied-Kept s t e k)
flush-Kept (a ∷ answers) s t k =
    if-cases {A = Send.Tx × Bool} (λ r. Kept s r.0) (ltb t.txoff (length t.txbuf))
      (λ e. after_write-Kept (Send.flush answers) a s t (λ u j. flush-Kept answers s u j) k)
      (λ e. emptied-Kept s t e k)

wake_if-Kept : (b : Bool) (s : List ℕ) (t : Send.Tx) → Kept s t → Kept s (Send.wake_if b t)
unfolding Send.wake_if
wake_if-Kept true s t k = record { all = k.all; within = k.within }
wake_if-Kept false s t k = k

flushed-Kept : (s : List ℕ) (r : Send.Tx × Bool) → Kept s r.0 → Kept s (Send.flushed r).0
unfolding Send.flushed
flushed-Kept s (t, true) k = wake_if-Kept t.blocked s t k
flushed-Kept s (t, false) k = k

flush_posted-Kept :
    (answers : List Send.Answer) (s : List ℕ) (t : Send.Tx)
    → Kept s t
    → Kept s (Send.flush_posted answers t).0
unfolding Send.flush_posted
flush_posted-Kept answers s t k =
    let u = record t { posted = false } in
    let j : Kept s u = record { all = k.all; within = k.within } in
    flushed-Kept s _ (
      if-cases {A = Send.Tx × Bool} (λ r. Kept s r.0)
        (not u.blocked && ltb u.txoff (length u.txbuf)) (λ e. flush-Kept answers s u j) (λ e. j))

append_frame-Kept :
    (msg s : List ℕ) (t : Send.Tx)
    → Kept s t
    → Kept (s ++ Multinet.frame msg) (Send.append_frame msg t)
unfolding Send.append_frame
append_frame-Kept msg s t k = record {
  all =
      ap (λ l. t.written ++ l) (drop-append t.txoff t.txbuf (Multinet.frame msg) k.within)
      ∙ sym (append_assoc t.written (drop t.txoff t.txbuf) (Multinet.frame msg))
      ∙ ap (λ l. l ++ Multinet.frame msg) k.all;
  within = let l = k.within in omega (arith, length-append t.txbuf (Multinet.frame msg));
}

sent-Kept :
    (n : ℕ) (b : Bool) (s : List ℕ) (r : Send.Tx × Bool) → Kept s r.0 → Kept s (Send.sent n b r).0
unfolding Send.sent
sent-Kept n b s (t, true) k = wake_if-Kept b s _ (record { all = k.all; within = k.within })
sent-Kept n b s (t, false) k = k

dispatch_frame-Kept :
    (answers : List Send.Answer) (before n : ℕ) (s : List ℕ) (t : Send.Tx)
    → Kept s t
    → Kept s (Send.dispatch_frame answers before n t).0
unfolding Send.dispatch_frame
dispatch_frame-Kept answers before n s t k =
    if-cases {A = Send.Tx × Bool} (λ r. Kept s r.0) t.blocked (λ e. sent-Kept n false s (t, true) k)
      (λ e.
        if-cases {A = Send.Tx × Bool} (λ r. Kept s r.0)
          (leb Send.cork_limit (before + Send.hdrlen + n))
          (λ l.
            let r = Send.flush answers t in
            sent-Kept n (r.0).blocked s r (flush-Kept answers s t k))
          (λ l.
            sent-Kept n false s (record t { posted = true }, true)
              (record { all = k.all; within = k.within })))

-- The message that an event puts behind the others.
abbrev pub message_of : Send.Event → Send.Tx → List (List ℕ)
message_of (Send.send_message msg answers) t = if Send.accepted msg t then msg ∷ [] else []
message_of (Send.posted_flush answers) t = []
message_of (Send.writable answers) t = []

wire-append : (ms ns : List (List ℕ)) → wire (ms ++ ns) ≡ wire ms ++ wire ns
wire-append [] ns = refl
wire-append (m ∷ ms) ns =
    ap (λ l. Multinet.frame m ++ l) (wire-append ms ns)
    ∙ sym (append_assoc (Multinet.frame m) (wire ms) (wire ns))

send-Kept :
    (answers : List Send.Answer) (msg s : List ℕ) (t : Send.Tx)
    → Kept s t
    → Kept (s ++ wire (message_of (Send.send_message msg answers) t)) (Send.send answers msg t).0
unfolding Send.send
send-Kept answers msg s t k = go (Send.accepted msg t)
  where
    go :
        (b : Bool)
        → Kept
            (s ++ wire (if b then msg ∷ [] else []))
            (if b
              then Send.dispatch_frame answers
                  (length t.txbuf - t.txoff)
                  (length msg)
                  (Send.append_frame msg t)
              else (t, true)).0
    go true =
        dispatch_frame-Kept answers (length t.txbuf - t.txoff) (length msg) _
          (Send.append_frame msg t)
          (subst (λ l. Kept (s ++ l) (Send.append_frame msg t))
            (sym (append_nil (Multinet.frame msg))) (append_frame-Kept msg s t k))
    go false = subst (λ l. Kept l t) (sym (append_nil s)) k

step-Kept :
    (e : Send.Event) (s : List ℕ) (t : Send.Tx)
    → Kept s t
    → Kept (s ++ wire (message_of e t)) (Send.step e t).0
unfolding Send.step
step-Kept (Send.send_message msg answers) s t k = send-Kept answers msg s t k
step-Kept (Send.posted_flush answers) s t k =
    subst (λ l. Kept l (Send.flush_posted answers t).0) (sym (append_nil s))
      (flush_posted-Kept answers s t k)
step-Kept (Send.writable answers) s t k =
    subst (λ l. Kept l (Send.flush answers t).0) (sym (append_nil s)) (flush-Kept answers s t k)

-- The events until the connection fails, and the messages that they put behind the others.
abbrev pub after_step :
    (Send.Tx → List (List ℕ) × Send.Tx) → List (List ℕ) → Send.Tx × Bool → List (List ℕ) × Send.Tx
after_step more ms (t, false) = (ms, t)
after_step more ms (t, true) = let r = more t in (ms ++ r.0, r.1)

abbrev pub run : List Send.Event → Send.Tx → List (List ℕ) × Send.Tx
run [] t = ([], t)
run (e ∷ es) t = after_step (run es) (message_of e t) (Send.step e t)

message_of-AllFit : (e : Send.Event) (t : Send.Tx) → AllFit (message_of e t)
unfolding Send.accepted
message_of-AllFit (Send.send_message msg answers) t =
    if-cases AllFit (Send.accepted msg t) (λ e. (ground arith, tt)) (λ e. tt)
message_of-AllFit (Send.posted_flush answers) t = tt
message_of-AllFit (Send.writable answers) t = tt

append-AllFit : (ms ns : List (List ℕ)) → AllFit ms → AllFit ns → AllFit (ms ++ ns)
append-AllFit [] ns f g = g
append-AllFit (m ∷ ms) ns f g = (f.0, append-AllFit ms ns f.1 g)

abbrev InFull : List ℕ → List (List ℕ) × Send.Tx → Type 0
InFull s r = Kept (s ++ wire r.0) r.1 × AllFit r.0

after_step-InFull :
    (more : Send.Tx → List (List ℕ) × Send.Tx) (ms : List (List ℕ)) (s : List ℕ)
    (r : Send.Tx × Bool)
    → ((s : List ℕ) (t : Send.Tx) → Kept s t → InFull s (more t))
    → AllFit ms
    → Kept (s ++ wire ms) r.0
    → InFull s (after_step more ms r)
after_step-InFull more ms s (t, false) ih f k = (k, f)
after_step-InFull more ms s (t, true) ih f k =
    let r = more t in
    let i = ih (s ++ wire ms) t k in
    (
      subst (λ l. Kept l r.1)
          (append_assoc s (wire ms) (wire r.0) ∙ ap (λ l. s ++ l) (sym (wire-append ms r.0))) i.0,
      append-AllFit ms r.0 f i.1,
    )

run-InFull : (es : List Send.Event) (s : List ℕ) (t : Send.Tx) → Kept s t → InFull s (run es t)
run-InFull [] s t k = (subst (λ l. Kept l t) (sym (append_nil s)) k, tt)
run-InFull (e ∷ es) s t k =
    after_step-InFull (run es) (message_of e t) s (Send.step e t) (λ s u j. run-InFull es s u j)
      (message_of-AllFit e t) (step-Kept e s t k)

-- Whatever messages are sent and whatever the socket answers, until the connection fails: what it
-- has taken, with what waits for it behind, is the frames of the messages accepted, whole and in
-- order.
pub run-stream :
    (es : List Send.Event)
    → (run es Send.new_tx).1.written ++ Send.waiting (run es Send.new_tx).1
      ≡ wire (run es Send.new_tx).0
unfolding Send.waiting Send.new_tx
run-stream es = (run-InFull es [] Send.new_tx (record { all = refl; within = omega arith })).0.all

-- Where nothing waits, a far end that reads what the connection has taken, in pieces of any sizes,
-- passes up exactly the messages that were accepted, in order, and has nothing left over.
pub receive_loop-run :
    (es : List Send.Event) (reads : List (List ℕ))
    → Send.waiting (run es Send.new_tx).1 ≡ []
    → joined reads ≡ (run es Send.new_tx).1.written
    → Multinet.receive_loop [] reads ≡ ((run es Send.new_tx).0, [])
unfolding Send.new_tx
receive_loop-run es reads e j =
    let r = run es Send.new_tx in
    receive_loop-wire r.0 reads
      (run-InFull es [] Send.new_tx (record { all = refl; within = omega arith })).1
      (j ∙ sym (append_nil (r.1.written)) ∙ ap (λ l. r.1.written ++ l) (sym e) ∙ run-stream es)
