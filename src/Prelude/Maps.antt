-- ===== src/Prelude/Maps.antt =====
-- std::map from numbers: a list in the order of its keys.
use Prim.Native.Nat.{ℕ}
use mathlib.Core.Path.{◌≡◌, refl}
use mathlib.Core.List.{List, [], ◌∷◌}
use mathlib.Core.Option.{Option, none, some}
use native.Mathlib.Omega.{arith}
use cppdecnet.Prelude.Tests.{ltb, ◌==◌, if◌then◌else◌}

module _ {ℓ} {A : Type ℓ} where
  unfoldable pub lookup : ℕ → List (ℕ × A) → Option A
  lookup k [] = none
  lookup k ((j, v) ∷ m) = if j == k then some v else lookup k m

  -- Assignment: the value of a key that is there is replaced.
  unfoldable pub assign : ℕ → A → List (ℕ × A) → List (ℕ × A)
  assign k v [] = (k, v) ∷ []
  assign k v ((j, w) ∷ m) =
      let later = (j, w) ∷ assign k v m in
      if j == k then (k, v) ∷ m else if ltb k j then (k, v) ∷ (j, w) ∷ m else later

  -- The value that is stored under a key changes where it is.
  unfoldable pub replace : ℕ → A → List (ℕ × A) → List (ℕ × A)
  replace k v [] = []
  replace k v ((j, w) ∷ m) = (if j == k then (j, v) else (j, w)) ∷ replace k v m

  unfoldable pub keys : List (ℕ × A) → List ℕ
  keys [] = []
  keys ((j, v) ∷ m) = j ∷ keys m

  unfoldable pub remove : ℕ → List (ℕ × A) → List (ℕ × A)
  remove k [] = []
  remove k ((j, v) ∷ m) = let rest = remove k m in if j == k then rest else (j, v) ∷ rest

  pub lookup-assign :
      (i k : ℕ) (v : A) (m : List (ℕ × A))
      → lookup i (assign k v m) ≡ (if k == i then some v else lookup i m)
  unfolding lookup assign
  lookup-assign i k v [] = refl
  lookup-assign i k v ((j, w) ∷ m) = ground (arith, lookup-assign i k v m)

  pub lookup-remove :
      (i k : ℕ) (m : List (ℕ × A)) → lookup i (remove k m) ≡ (if k == i then none else lookup i m)
  unfolding lookup remove
  lookup-remove i k [] = ground arith
  lookup-remove i k ((j, w) ∷ m) = ground (arith, lookup-remove i k m)

  pub keys-replace : (k : ℕ) (v : A) (m : List (ℕ × A)) → keys (replace k v m) ≡ keys m
  unfolding keys replace
  keys-replace k v [] = refl
  keys-replace k v ((j, w) ∷ m) = ground (arith, keys-replace k v m)

  pub lookup-replace :
      (k : ℕ) (v w : A) (m : List (ℕ × A)) → lookup k m ≡ some v → lookup k (replace k w m) ≡ some w
  unfolding lookup replace
  lookup-replace k v w [] e = absurd (ground (arith, e))
  lookup-replace k v w ((j, x) ∷ m) e = ground (arith, lookup-replace k v w m, e)
