-- ===== src/Timers/Silent.antt =====
-- What a stop does to Timeout items that wait already.
use cppdecnet.Prelude.{
  ℕ, zero, suc, ◌+◌, ◌%◌, ◌^◌, ◌<◌, ◌≤◌, ◌≡◌, refl, sym, subst, ◌∙◌, inl, inr, Bool-cases, true,
  List, [], ◌∷◌, ◌++◌, leb, ◌==◌, if◌then◌else◌, if-cases, arith, length,
}
use native.Mathlib.Nat.{mod-eq_of_lt}
use cppdecnet.Timers
use cppdecnet.Timers.Punctual.{linked}

-- The items that wait carry no count beyond the one that their timer has.
abbrev Past : (ℕ → ℕ) → List (ℕ × ℕ) → Type 0
Past rev [] = Unit {0}
Past rev ((t, r) ∷ is) = (r ≤ rev t) × Past rev is

-- And no timer was linked or unlinked more than n times.
record Young (n : ℕ) (w : Timers.Wheel) : Type 0 where
  count : (t : ℕ) → w.revcount t ≤ n
  past : Past w.revcount w.work

Young-at : {m n : ℕ} {w : Timers.Wheel} → m ≡ n → Young m w → Young n w
Young-at {w = w} e y = subst (λ k. Young k w) e y

Past-mono : (f g : ℕ → ℕ) (is : List (ℕ × ℕ)) → ((t : ℕ) → f t ≤ g t) → Past f is → Past g is
Past-mono f g [] h p = tt
Past-mono f g ((t, r) ∷ is) h (p, ps) = ((let k = h t in omega arith), Past-mono f g is h ps)

Past-append :
    (f : ℕ → ℕ) (is : List (ℕ × ℕ)) (t r : ℕ) → Past f is → r ≤ f t → Past f (is ++ (t, r) ∷ [])
Past-append f [] t r p l = (l, tt)
Past-append f ((u, s) ∷ is) t r (p, ps) l = (p, Past-append f is t r ps l)

-- The counts after an unlink, which does not wrap.
unlink-count :
    (n t u : ℕ) (w : Timers.Wheel)
    → n + 1 < 2 ^ 32
    → Young n w
    → (Timers.unlink t w).revcount u ≡ (if u == t then w.revcount u + 1 else w.revcount u)
unfolding Timers.unlink
unlink-count n t u w l y =
    let k = y.count u in
    let e : (w.revcount u + 1) % 2 ^ 32 ≡ w.revcount u + 1 = mod-eq_of_lt (omega arith) in
    ground arith

unlink-Young :
    (n t : ℕ) (w : Timers.Wheel) → n + 1 < 2 ^ 32 → Young n w → Young (suc n) (Timers.unlink t w)
unlink-Young n t w l y = record {
  count = λ u. let e = unlink-count n t u w l y in let k = y.count u in ground arith;
  past =
      unfold Timers.unlink in
      Past-mono w.revcount (Timers.unlink t w).revcount w.work
        (λ u. let e = unlink-count n t u w l y in ground arith) y.past;
}

start-Young :
    (n t ms : ℕ) (w : Timers.Wheel)
    → n + 1 < 2 ^ 32
    → Young n w
    → Young (suc n) (Timers.start_or_keep (Timers.start t ms w) w)
unfolding Timers.start Timers.start_or_keep
start-Young n t ms w l y =
    let k = unlink-Young n t w l y in
    if-cases (λ o. Young (suc n) (Timers.start_or_keep o w)) (leb w.size (Timers.ticks_of ms w))
      (λ e. record { count = λ u. (let a = y.count u in omega arith); past = y.past })
      (λ e. unfold Timers.add_before in record { count = k.count; past = k.past })

expire-Young :
    (n : ℕ) (us : List ℕ) (w : Timers.Wheel)
    → n + length us < 2 ^ 32
    → Young n w
    → Young (n + length us) (Timers.expire us w)
unfolding Timers.expire
expire-Young n [] w l y = subst (λ k. Young k w) (omega arith) y
expire-Young n (u ∷ us) w l y =
    let k = unlink-Young n u w (omega arith) y in
    let v = record (Timers.unlink u w) {
      work = (Timers.unlink u w).work ++ (u, (Timers.unlink u w).revcount u) ∷ [];
    } in
    subst (λ m. Young m (Timers.expire us v)) (omega arith)
      (expire-Young (suc n) us v (omega arith) (record {
        count = k.count;
        past =
            Past-append (Timers.unlink u w).revcount (Timers.unlink u w).work u _ k.past
              (omega arith);
      }))

dispatch-Young :
    (n : ℕ) (is : List (ℕ × ℕ)) (w : Timers.Wheel)
    → w.work ≡ is
    → Young n w
    → Young n (Timers.dispatch_next is w)
unfolding Timers.dispatch_next
dispatch-Young n [] w e y = y
dispatch-Young n ((t, r) ∷ is) w e y =
    let p : Past w.revcount ((t, r) ∷ is) = subst (λ x. Past w.revcount x) e y.past in
    if-cases (λ d. Young n d) (w.revcount t == r) (λ h. record { count = y.count; past = p.1 })
      (λ h. record { count = y.count; past = p.1 })

-- How often an event unlinks a timer at most, and how often a sequence of them does.
abbrev pub cost : Timers.Event → Timers.Wheel → ℕ
cost (Timers.started t ms) w = 1
cost (Timers.stopped t) w = 1
cost Timers.ticked w = length (w.slots ((w.pos + 1) % w.size))
cost Timers.dispatched w = 0

abbrev pub total : List Timers.Event → Timers.Wheel → ℕ
total [] w = 0
total (e ∷ es) w = cost e w + total es (Timers.step e w)

step-Young :
    (n : ℕ) (e : Timers.Event) (w : Timers.Wheel)
    → n + cost e w + 1 < 2 ^ 32
    → Young n w
    → Young (n + cost e w) (Timers.step e w)
unfolding Timers.step Timers.stop Timers.tick Timers.dispatch
step-Young n (Timers.started t ms) w l y =
    Young-at (omega arith) (start-Young n t ms w (omega arith) y)
step-Young n (Timers.stopped t) w l y = Young-at (omega arith) (unlink-Young n t w (omega arith) y)
step-Young n Timers.ticked w l y =
    expire-Young n _ (record w { pos = (w.pos + 1) % w.size }) (omega arith)
      (record { count = y.count; past = y.past })
step-Young n Timers.dispatched w l y = Young-at (omega arith) (dispatch-Young n w.work w refl y)

run-Young :
    (n : ℕ) (es : List Timers.Event) (w : Timers.Wheel)
    → n + total es w + 1 < 2 ^ 32
    → Young n w
    → Young (n + total es w) (Timers.run es w)
unfolding Timers.run
run-Young n [] w l y = subst (λ k. Young k w) (omega arith) y
run-Young n (e ∷ es) w l y =
    let k =
      run-Young (n + cost e w) es (Timers.step e w) (omega arith)
        (step-Young n e w (omega arith) y) in
    subst (λ m. Young m (Timers.run es (Timers.step e w))) (omega arith) k

-- No item of the timer that waits carries its count.
abbrev Silenced : ℕ → ℕ → List (ℕ × ℕ) → Type 0
Silenced t rev [] = Unit {0}
Silenced t rev ((u, r) ∷ is) = ((u == t) ≡ true → r < rev) × Silenced t rev is

Past-Silenced :
    (t rev : ℕ) (f : ℕ → ℕ) (is : List (ℕ × ℕ)) → f t < rev → Past f is → Silenced t rev is
Past-Silenced t rev f [] l p = tt
Past-Silenced t rev f ((u, r) ∷ is) l (p, ps) =
    ((λ e. below u r p e), Past-Silenced t rev f is l ps)
  where
    below : (u r : ℕ) → r ≤ f u → (u == t) ≡ true → r < rev
    below u r p e =
        let s : u ≡ t = ground (arith, e) in
        let q : r ≤ f t = subst (λ x. r ≤ f x) s p in omega arith

next-Silenced :
    (t : ℕ) (is : List (ℕ × ℕ)) (w : Timers.Wheel)
    → w.work ≡ is
    → Silenced t (w.revcount t) is
    → (linked t (Timers.dispatch_next is w).fired ≡ linked t w.fired)
      × Silenced t ((Timers.dispatch_next is w).revcount t) (Timers.dispatch_next is w).work
unfolding Timers.dispatch_next
next-Silenced t [] w e s = (refl, subst (λ x. Silenced t (w.revcount t) x) (sym e) tt)
next-Silenced t ((u, r) ∷ is) w e (s, ss) =
    if-cases {A = Timers.Wheel}
      (λ d. (linked t d.fired ≡ linked t w.fired) × Silenced t (d.revcount t) d.work)
      (w.revcount u == r) (λ h. (other h, ss)) (λ h. (refl, ss))
  where
    other : (w.revcount u == r) ≡ true → linked t (u ∷ w.fired) ≡ linked t w.fired
    other h = elim (Bool-cases (u == t)) [
      | inl k ↦
          let l = s k in
          let v : u ≡ t = ground (arith, k) in
          let m : w.revcount t ≡ r = subst (λ x. w.revcount x ≡ r) v (ground (arith, h)) in
          absurd (omega arith)
      | inr k ↦ ground (arith, k)
    ]

dispatches-Silenced :
    (t n : ℕ) (w : Timers.Wheel)
    → Silenced t (w.revcount t) w.work
    → linked t (Timers.dispatches n w).fired ≡ linked t w.fired
unfolding Timers.dispatches Timers.dispatch
dispatches-Silenced t zero w s = refl
dispatches-Silenced t (suc n) w s =
    let k = next-Silenced t w.work w refl s in dispatches-Silenced t n _ k.1 ∙ k.0

-- After a timer is stopped, the Timeout items that wait do not call it, however many are
-- dispatched, on a wheel that was used so little that no count came to wrap.
pub stop-silences :
    (tick maxtime : ℕ) (es : List Timers.Event) (t n : ℕ)
    → total es (Timers.new_wheel tick maxtime) + 1 < 2 ^ 32
    → linked t
        (Timers.dispatches n (Timers.stop t (Timers.run es (Timers.new_wheel tick maxtime)))).fired
      ≡ linked t (Timers.run es (Timers.new_wheel tick maxtime)).fired
unfolding Timers.stop Timers.unlink
stop-silences tick maxtime es t n l =
    let w = Timers.run es (Timers.new_wheel tick maxtime) in
    let y =
      run-Young 0 es (Timers.new_wheel tick maxtime) (omega arith)
        (unfold Timers.new_wheel in record { count = λ u. omega arith; past = tt }) in
    let e = unlink-count (0 + total es (Timers.new_wheel tick maxtime)) t t w (omega arith) y in
    let b : w.revcount t < (Timers.unlink t w).revcount t = ground arith in
    dispatches-Silenced t n (Timers.stop t w)
      (unfold Timers.stop Timers.unlink in Past-Silenced t _ w.revcount w.work b y.past)
