-- ===== src/Timers/Punctual/Due.antt =====
-- When a timer expires: the ticks up to the one that it is due at.
use cppdecnet.Prelude.{
  ℕ, zero, suc, ◌+◌, ◌-◌, ◌%◌, ◌<◌, ◌≤◌, ◌≡◌, refl, sym, ap, ap₂, subst, inl, inr, Bool-cases, ◌∙◌,
  true, false, some, [], ◌∷◌, leb, ◌==◌, if◌then◌else◌, if-cases, arith,
}
use native.Mathlib.Nat.{mod-eq_of_lt, mod-eq-sub-mod}
use mathlib.Core.Option.{some-injective}
use cppdecnet.Timers
use cppdecnet.Timers.Punctual.{
  linked-without, linked-append, expire-Kept, expire-once, expire-pos, none-some, linked, posted,
  due,
}

-- The timer is linked into one slot.
abbrev Armed : ℕ → ℕ → Timers.Wheel → Type 0
Armed t s w = (i : ℕ) → linked t (w.slots i) ≡ (if i == s then 1 else 0)

mod_wrap : (a n : ℕ) → n ≤ a → a < n + n → a % n ≡ a - n
mod_wrap a n l h = mod-eq-sub-mod l ∙ mod-eq_of_lt (omega arith)

-- The slot that is m ticks ahead.
ahead :
    (pos m n : ℕ)
    → pos < n
    → m < n
    → (pos + m) % n ≡ (if leb n (pos + m) then pos + m - n else pos + m)
ahead pos m n p l =
    if-cases (λ x. (pos + m) % n ≡ x) (leb n (pos + m))
      (λ e. mod_wrap (pos + m) n (ground (arith, e)) (omega arith))
      (λ e. mod-eq_of_lt (ground (arith, e)))

-- One tick before the last: the timer stays where it is, and is nearer.
record Ahead (t s m c : ℕ) (w : Timers.Wheel) : Type 0 where
  bound : w.pos < w.size
  near : m < w.size
  slot : (w.pos + m) % w.size ≡ s
  armed : Armed t s w
  count : posted t w.work ≡ c

tick-Ahead :
    (t s m c : ℕ) (w : Timers.Wheel)
    → Ahead t s (suc (suc m)) c w
    → Ahead t s (suc m) c (Timers.tick w)
unfolding Timers.tick
tick-Ahead t s m c w h =
    let b = h.bound in
    let n = h.near in
    let one = ahead w.pos 1 w.size b (omega arith) in
    let all = ahead w.pos (suc (suc m)) w.size b n in
    let e = h.slot in
    let at = (w.pos + 1) % w.size in
    let other : (at == s) ≡ false = ground arith in
    let moved = record w { pos = at } in
    let empty : linked t (w.slots at) ≡ 0 = h.armed at ∙ ap (λ x. if x then 1 else 0) other in
    let k = expire-Kept t (w.slots at) moved empty in
    let p = expire-pos (w.slots at) moved in
    let small : at < w.size = ground arith in
    let next = ahead at (suc m) w.size small (omega arith) in
    let slot : (at + suc m) % w.size ≡ s = ground arith in
    record {
      bound =
          subst (λ x. x < (Timers.expire (w.slots at) moved).size) (sym p.0)
            (subst (λ x. at < x) (sym p.1) small);
      near = subst (λ x. suc m < x) (sym p.1) (omega arith);
      slot = ap₂ (λ x y. (x + suc m) % y) p.0 p.1 ∙ slot;
      armed = λ i. k.same i ∙ h.armed i;
      count = k.count ∙ h.count;
    }

tick-last :
    (t s c : ℕ) (w : Timers.Wheel)
    → Ahead t s 1 c w
    → (posted t (Timers.tick w).work ≡ suc c)
      × (due t ((Timers.tick w).revcount t) (Timers.tick w).work ≡ true)
unfolding Timers.tick
tick-last t s c w h =
    let at = (w.pos + 1) % w.size in
    let here : (at == s) ≡ true = let e = h.slot in ground arith in
    let one : linked t (w.slots at) ≡ 1 = h.armed at ∙ ap (λ x. if x then 1 else 0) here in
    let k = expire-once t (w.slots at) (record w { pos = at }) one in (k.0 ∙ ap suc h.count, k.1)

ticks-Ahead :
    (t s c k m : ℕ) (w : Timers.Wheel)
    → Ahead t s (k + suc m) c w
    → Ahead t s (suc m) c (Timers.ticks k w)
unfolding Timers.ticks
ticks-Ahead t s c zero m w h = subst (λ n. Ahead t s n c w) (omega arith) h
ticks-Ahead t s c (suc k) m w h =
    tick-Ahead t s m c _
      (ticks-Ahead t s c k (suc m) w (subst (λ n. Ahead t s n c w) (omega arith) h))

start-Ahead :
    (t ms : ℕ) (w w1 : Timers.Wheel)
    → w.pos < w.size
    → Timers.start t ms w ≡ some w1
    → Ahead t ((w.pos + Timers.ticks_of ms w) % w.size) (Timers.ticks_of ms w) (posted t w.work) w1
unfolding Timers.start
start-Ahead t ms w w1 p e = elim (Bool-cases (leb w.size d)) [
  | inl h ↦ absurd (none-some w1 (rw h at e))
  | inr h ↦
      subst (λ x. Ahead t s d (posted t w.work) x) (some-injective _ _ (rw h at e))
        (fresh (ground (arith, h)))
]
  where
    d : ℕ
    d = Timers.ticks_of ms w

    s : ℕ
    s = (w.pos + d) % w.size

    fresh : d < w.size → Ahead t s d (posted t w.work) (Timers.add_before s t (Timers.unlink t w))
    fresh l =
        unfold Timers.add_before Timers.unlink in
        record {
          bound = p;
          near = l;
          slot = refl;
          armed = λ i.
              let a = linked-append t (Timers.without t (w.slots i)) (t ∷ []) in
              let b = linked-without t t (w.slots i) in ground arith;
          count = refl;
        }

one_tick : (ms : ℕ) (w : Timers.Wheel) → 1 ≤ Timers.ticks_of ms w
unfolding Timers.ticks_of
one_tick ms w = omega arith

-- A timer that is started posts no Timeout item before as many ticks as its interval takes, and at
-- that tick it posts one, which carries the count that the timer has then.
pub start-punctual :
    (t ms : ℕ) (w w1 : Timers.Wheel)
    → w.pos < w.size
    → Timers.start t ms w ≡ some w1
    → ((k : ℕ) → k < Timers.ticks_of ms w → posted t (Timers.ticks k w1).work ≡ posted t w.work)
      × (posted t (Timers.ticks (Timers.ticks_of ms w) w1).work ≡ suc (posted t w.work))
      × (due t
            ((Timers.ticks (Timers.ticks_of ms w) w1).revcount t)
            (Timers.ticks (Timers.ticks_of ms w) w1).work
          ≡ true)
start-punctual t ms w w1 p e =
    let a = start-Ahead t ms w w1 p e in
    let one = one_tick ms w in
    let d = Timers.ticks_of ms w in
    let s = (w.pos + d) % w.size in
    let c = posted t w.work in
    let last =
      tick-last t s c _
        (ticks-Ahead t s c (d - 1) 0 w1 (subst (λ n. Ahead t s n c w1) (omega arith) a)) in
    let same : suc (d - 1) ≡ d = omega arith in
    let due_then =
      subst
        (λ n.
          (posted t (Timers.ticks n w1).work ≡ suc c)
          × (due t ((Timers.ticks n w1).revcount t) (Timers.ticks n w1).work ≡ true))
        same (unfold Timers.ticks in last) in
    (
      λ k l.
          (ticks-Ahead t s c k (d - k - 1) w1
            (subst (λ n. Ahead t s n c w1) (omega arith) a)).count,
      due_then.0,
      due_then.1,
    )
