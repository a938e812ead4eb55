-- ===== src/Base/Results.antt =====
-- Fallible steps: `none` is a fault, such as an access outside an array.
use Prim.Native.Nat.{ℕ, zero, suc, ◌<◌}
use mathlib.Core.Path.{◌≡◌, refl, ap, sym, ◌∙◌}
use mathlib.Core.Option.{Option, none, some}
use mathlib.Core.List.{List, [], ◌∷◌, ◌++◌, map, map-append, append_assoc}
use native.Mathlib.Omega.{arith}
use cs537_operating_system_u.Base.Lists.{length, set, length-map}

infixl 5 ◌>>=◌ ◌>>◌
abbrev pub ◌>>=◌ {ℓ κ} : {A : Type ℓ} {B : Type κ} → Option A → (A → Option B) → Option B
none >>= f = none
some a >>= f = f a

abbrev pub ◌>>◌ {ℓ} : {B : Type ℓ} → Option (Unit {0}) → Option B → Option B
m >> k = m >>= λ _. k

module _ {ℓ} {A : Type ℓ} where
  -- `xs[i] = v`, a fault outside the array.
  abbrev pub store : List A → ℕ → A → Option (List A)
  store [] i v = none
  store (x ∷ xs) zero v = some (v ∷ xs)
  store (x ∷ xs) (suc i) v = store xs i v >>= λ ys. some (x ∷ ys)

  pub store-append :
      (xs : List A) (y v : A) (ys : List A)
      → store (xs ++ y ∷ ys) (length xs) v ≡ some (xs ++ v ∷ ys)
  store-append [] y v ys = refl
  store-append (x ∷ xs) y v ys = ap (λ m. m >>= λ zs. some (x ∷ zs)) (store-append xs y v ys)

  pub store-set : (xs : List A) (i : ℕ) (v : A) → i < length xs → store xs i v ≡ some (set xs i v)
  store-set [] i v h = elim h [ ]
  store-set (x ∷ xs) zero v h = refl
  store-set (x ∷ xs) (suc i) v h =
      ap (λ m. m >>= λ ys. some (x ∷ ys)) (store-set xs i v (omega arith))

module _ {ℓ} {A : Type ℓ} where
  -- An array that the elements `done` fill from the front.
  pub store-map-some :
      (done : List A) (y v : Option A) (ys : List (Option A))
      → store {A = Option A} (map some done ++ y ∷ ys) (length done) v
        ≡ some (map some done ++ v ∷ ys)
  store-map-some done y v ys =
      ap (λ n. store {A = Option A} (map some done ++ y ∷ ys) n v) (sym (length-map some done))
      ∙ store-append (map some done) y v ys

  pub map-some-append :
      (done : List A) (a : A) (ys : List (Option A))
      → map some done ++ some a ∷ ys ≡ map some (done ++ a ∷ []) ++ ys
  map-some-append done a ys =
      sym (append_assoc (map some done) (some a ∷ []) ys)
      ∙ ap (λ l. l ++ ys) (sym (map-append some done (a ∷ [])))
