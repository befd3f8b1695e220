-- ===== src/Timers/Punctual.antt =====
-- When a timer expires.
pub mod Due
use cppdecnet.Prelude.{
  ℕ, zero, suc, ◌+◌, ◌-◌, ◌%◌, ◌<◌, ◌≤◌, ◌≡◌, ◌≢◌, refl, sym, ap, ap₂, subst, inl, inr, Bool-cases,
  ◌∙◌, Bool, true, false, ◌||◌, ◌&&◌, none, some, List, [], ◌∷◌, ◌++◌, leb, ◌==◌, if◌then◌else◌,
  if-cases, arith,
}
use native.Mathlib.Nat.{mod-eq_of_lt, mod-eq-sub-mod}
use mathlib.Core.Option.{some-injective}
use cppdecnet.Timers

-- How often a timer stands in a queue, and how many of its Timeout items wait.
abbrev pub linked : ℕ → List ℕ → ℕ
linked t [] = 0
linked t (u ∷ us) = (if u == t then 1 else 0) + linked t us

abbrev pub posted : ℕ → List (ℕ × ℕ) → ℕ
posted t [] = 0
posted t ((u, r) ∷ us) = (if u == t then 1 else 0) + posted t us

-- An item of the timer waits that was posted since the timer was last started or stopped.
abbrev pub due : ℕ → ℕ → List (ℕ × ℕ) → Bool
due t rev [] = false
due t rev ((u, r) ∷ us) = ((u == t) && (r == rev)) || due t rev us

pub linked-without :
    (t u : ℕ) (us : List ℕ) → linked t (Timers.without u us) ≡ (if u == t then 0 else linked t us)
unfolding Timers.without
linked-without t u [] = ground arith
linked-without t u (v ∷ us) = let e = linked-without t u us in ground arith

pub linked-append : (t : ℕ) (xs ys : List ℕ) → linked t (xs ++ ys) ≡ linked t xs + linked t ys
linked-append t [] ys = omega arith
linked-append t (x ∷ xs) ys = let e = linked-append t xs ys in omega arith

pub posted-append : (t : ℕ) (xs ys : List (ℕ × ℕ)) → posted t (xs ++ ys) ≡ posted t xs + posted t ys
posted-append t [] ys = omega arith
posted-append t ((u, r) ∷ xs) ys = let e = posted-append t xs ys in omega arith

pub due-append :
    (t rev : ℕ) (xs ys : List (ℕ × ℕ)) → due t rev (xs ++ ys) ≡ (due t rev xs || due t rev ys)
due-append t rev [] ys = refl
due-append t rev ((u, r) ∷ xs) ys = let e = due-append t rev xs ys in ground arith

-- What other timers do not touch.
pub record Kept (t : ℕ) (v w : Timers.Wheel) : Type 0 where
  pub count : posted t w.work ≡ posted t v.work
  pub same : (i : ℕ) → linked t (w.slots i) ≡ linked t (v.slots i)
  pub waits : due t (v.revcount t) v.work ≡ true → due t (w.revcount t) w.work ≡ true

pub Kept-trans : {t : ℕ} {v w x : Timers.Wheel} → Kept t v w → Kept t w x → Kept t v x
Kept-trans h k = record {
  count = k.count ∙ h.count;
  same = λ i. k.same i ∙ h.same i;
  waits = λ d. k.waits (h.waits d);
}

-- One round of the loop.
abbrev pub post : ℕ → Timers.Wheel → Timers.Wheel
post u w = record (Timers.unlink u w) { work = w.work ++ (u, (Timers.unlink u w).revcount u) ∷ [] }

pub post-Kept : (t u : ℕ) (w : Timers.Wheel) → (u == t) ≡ false → Kept t w (post u w)
unfolding Timers.unlink
post-Kept t u w e = record {
  count = let k = posted-append t w.work ((u, (Timers.unlink u w).revcount u) ∷ []) in ground arith;
  same = λ i. linked-without t u (w.slots i) ∙ ground arith;
  waits = λ d.
      let r = (Timers.unlink u w).revcount u in
      let f : (t == u) ≡ false = ground (arith, e) in
      rw f (due-append t (w.revcount t) w.work ((u, r) ∷ []) ∙ ground (arith, d));
}

pub post_self :
    (t : ℕ) (w : Timers.Wheel)
    → (posted t (post t w).work ≡ suc (posted t w.work))
      × (due t ((post t w).revcount t) (post t w).work ≡ true)
unfolding Timers.unlink
post_self t w =
    let r = (Timers.unlink t w).revcount t in
    (
      let k = posted-append t w.work ((t, r) ∷ []) in ground arith,
      due-append t r w.work ((t, r) ∷ []) ∙ ground arith,
    )

pub expire-Kept :
    (t : ℕ) (us : List ℕ) (w : Timers.Wheel) → linked t us ≡ 0 → Kept t w (Timers.expire us w)
unfolding Timers.expire Timers.unlink
expire-Kept t [] w e = record { count = refl; same = λ i. refl; waits = λ d. d }
expire-Kept t (u ∷ us) w e =
    Kept-trans (post-Kept t u w (ground (arith, e)))
      (expire-Kept t us (post u w) (ground (arith, e)))

pub expire-once :
    (t : ℕ) (us : List ℕ) (w : Timers.Wheel)
    → linked t us ≡ 1
    → (posted t (Timers.expire us w).work ≡ suc (posted t w.work))
      × (due t ((Timers.expire us w).revcount t) (Timers.expire us w).work ≡ true)
unfolding Timers.expire Timers.unlink
expire-once t [] w e = absurd (omega arith)
expire-once t (u ∷ us) w e = elim (Bool-cases (u == t)) [
  | inl h ↦ first (ground (arith, h)) (expire-Kept t us (post u w) (ground (arith, h, e)))
  | inr h ↦
      let k = post-Kept t u w h in
      let later = expire-once t us (post u w) (ground (arith, h, e)) in
      (later.0 ∙ ap suc k.count, later.1)
]
  where
    first :
        u ≡ t
        → Kept t (post u w) (Timers.expire us (post u w))
        → (posted t (Timers.expire us (post u w)).work ≡ suc (posted t w.work))
          × (due t ((Timers.expire us (post u w)).revcount t) (Timers.expire us (post u w)).work
              ≡ true)
    first s k =
        let self =
          subst
            (λ v.
              (posted t (post v w).work ≡ suc (posted t w.work))
              × (due t ((post v w).revcount t) (post v w).work ≡ true))
            (sym s) (post_self t w) in
        (k.count ∙ self.0, k.waits self.1)

pub expire-pos :
    (us : List ℕ) (w : Timers.Wheel)
    → ((Timers.expire us w).pos ≡ w.pos) × ((Timers.expire us w).size ≡ w.size)
unfolding Timers.expire Timers.unlink
expire-pos [] w = (refl, refl)
expire-pos (u ∷ us) w = expire-pos us (post u w)

pub none-some : (w : Timers.Wheel) → none ≢ some w
none-some w e = cc
