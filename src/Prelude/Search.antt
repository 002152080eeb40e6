-- ===== src/Prelude/Search.antt =====
-- Boolean searches of lists, `Array.prototype.some` and `every`, and of the values of a map.
use Prim.Native.String.{String}
use mathlib.Core.Path.{◌≡◌, refl, ap}
use mathlib.Core.Bool.{Bool, true, false, ◌&&◌, ◌||◌}
use mathlib.Core.Option.{some}
use mathlib.Core.List.{List, [], ◌∷◌, ◌++◌, map}
use native.Mathlib.Omega.{arith}
use text.Mathlib.Text.{◌==◌}
use text.Mathlib.TextEquality.{eq_iff}
use verixa.Prelude.Lists.{filter}
use verixa.Prelude.Dict.{Dict, get, set, delete, values}

unfoldable pub any {ℓ} : {A : Type ℓ} → (A → Bool) → List A → Bool
any p [] = false
any p (x ∷ xs) = p x || any p xs

unfoldable pub every {ℓ} : {A : Type ℓ} → (A → Bool) → List A → Bool
every p [] = true
every p (x ∷ xs) = p x && every p xs

module _ {ℓ} {A : Type ℓ} where
  pub any-append : (f : A → Bool) (xs ys : List A) → any f (xs ++ ys) ≡ (any f xs || any f ys)
  unfolding any
  any-append f [] ys = refl
  any-append f (x ∷ xs) ys = rw (any-append f xs ys) (ground arith)

  pub any-map :
      {B : Type 0} (f : A → Bool) (g : B → A) (xs : List B)
      → any f (map g xs) ≡ any (λ b. f (g b)) xs
  unfolding any
  any-map f g [] = refl
  any-map f g (x ∷ xs) = rw (any-map f g xs)

  pub any-filter : (f p : A → Bool) (xs : List A) → any f (filter p xs) ≡ any (λ x. p x && f x) xs
  unfolding any
  any-filter f p [] = refl
  any-filter f p (x ∷ xs) = ground (arith, any-filter f p xs)

  pub any-or : (f g : A → Bool) (xs : List A) → (any f xs || any g xs) ≡ any (λ x. f x || g x) xs
  unfolding any
  any-or f g [] = refl
  any-or f g (x ∷ xs) = ground (arith, any-or f g xs)

  pub any_congr : (f g : A → Bool) → ((x : A) → f x ≡ g x) → (xs : List A) → any f xs ≡ any g xs
  unfolding any
  any_congr f g h [] = refl
  any_congr f g h (x ∷ xs) = rw (h x) (rw (any_congr f g h xs))

  pub every-nil : (p : A → Bool) → every p [] ≡ true
  unfolding every
  every-nil p = refl

  pub every-append :
      (p : A → Bool) (xs ys : List A) → every p (xs ++ ys) ≡ (every p xs && every p ys)
  unfolding every
  every-append p [] ys = refl
  every-append p (x ∷ xs) ys = rw (every-append p xs ys) (ground arith)

module _ {ℓ} {V : Type ℓ} (p : V → Bool) where
  pub every-get :
      (key : String) (d : Dict V) (v : V)
      → every p (values d) ≡ true
      → get key d ≡ some v
      → p v ≡ true
  unfolding every get
  every-get key [] v h e = ground arith
  every-get key ((k, x) ∷ d) v h e = ground (arith, every-get key d v, λ (q : x ≡ v). ap p q)

  pub any-set :
      (key : String) (v : V) (d : Dict V) → p v ≡ true → any p (values (set key v d)) ≡ true
  unfolding any set
  any-set key v [] h = ground arith
  any-set key v ((k, x) ∷ d) h = ground (arith, any-set key v d)

  pub every-set :
      (key : String) (v : V) (d : Dict V)
      → every p (values d) ≡ true
      → p v ≡ true
      → every p (values (set key v d)) ≡ true
  unfolding every set
  every-set key v [] h e = ground arith
  every-set key v ((k, x) ∷ d) h e = ground (arith, every-set key v d)

  pub every-delete :
      (key : String) (d : Dict V)
      → every p (values d) ≡ true
      → every p (values (delete key d)) ≡ true
  unfolding every delete
  every-delete key [] h = h
  every-delete key ((k, x) ∷ d) h = ground (arith, every-delete key d)

pub any_seen :
    (f : String → Bool) (id : String) (seen : List String)
    → any (λ s. s == id) seen ≡ true
    → f id ≡ true
    → any f seen ≡ true
unfolding any
any_seen f id [] h k = ground arith
any_seen f id (s ∷ seen) h k =
    ground (arith, any_seen f id seen, eq_iff s id, λ (e : s ≡ id). ap f e)

pub cong2-or : {a b c d : Bool} → a ≡ b → c ≡ d → (a || c) ≡ (b || d)
cong2-or e f = rw e (rw f refl)
