-- ===== src/Common/Lists.antt =====
-- Predicates and tests on lists, by recursion.
use Prim.Native.Nat.{ℕ, zero, suc}
use mathlib.Core.Path.{◌≡◌, refl, subst}
use mathlib.Core.Logic.{◌⊎◌, inl, inr}
use mathlib.Core.Bool.{Bool, true, false, ◌||◌, false≢true}
use mathlib.Core.List.{List, [], ◌∷◌, ◌++◌}
use native.Mathlib.Omega.{arith}
use flowify_workflows_server.Common.Tests.{Eq, ◌==◌, Bool-cases}

module _ {ℓ} {A : Type ℓ} where
  abbrev pub length : List A → ℕ
  length [] = 0
  length (x ∷ xs) = suc (length xs)

  abbrev pub take : ℕ → List A → List A
  take zero xs = []
  take (suc n) [] = []
  take (suc n) (x ∷ xs) = x ∷ take n xs

  abbrev pub drop : ℕ → List A → List A
  drop zero xs = xs
  drop (suc n) [] = []
  drop (suc n) (x ∷ xs) = drop n xs

-- Every item satisfies the predicate.
abbrev pub All {ℓ κ} : {A : Type ℓ} → (A → Type κ) → List A → Type κ
All P [] = Unit
All P (x ∷ xs) = P x × All P xs

-- Some item does, with the item.
abbrev pub Any {ℓ} : {A : Type ℓ} → (A → Type 0) → List A → Type 0
Any P [] = ⊥
Any P (x ∷ xs) = P x ⊎ Any P xs

-- The item stands in the list.
abbrev pub In : {A : Type 0} → A → List A → Type 0
In a xs = Any (λ x. x ≡ a) xs

module _ {ℓ κ} {A : Type ℓ} (P : A → Type κ) where
  pub All-append : (xs ys : List A) → All P xs → All P ys → All P (xs ++ ys)
  All-append [] ys hx hy = hy
  All-append (x ∷ xs) ys hx hy = (hx.0, All-append xs ys hx.1 hy)

  pub All-left : (xs ys : List A) → All P (xs ++ ys) → All P xs
  All-left [] ys h = tt
  All-left (x ∷ xs) ys h = (h.0, All-left xs ys h.1)

  pub All-right : (xs ys : List A) → All P (xs ++ ys) → All P ys
  All-right [] ys h = h
  All-right (x ∷ xs) ys h = All-right xs ys h.1

pub All-map {ℓ κ μ} :
    {A : Type ℓ} {P : A → Type κ} {Q : A → Type μ}
    → ((x : A) → P x → Q x)
    → (xs : List A) → All P xs
    → All Q xs
All-map f [] h = tt
All-map f (x ∷ xs) h = (f x h.0, All-map f xs h.1)

pub Any-map {ℓ} :
    {A : Type ℓ} {P Q : A → Type 0} → ((x : A) → P x → Q x) → (xs : List A) → Any P xs → Any Q xs
Any-map f [] h = h
Any-map f (x ∷ xs) (inl p) = inl (f x p)
Any-map f (x ∷ xs) (inr h) = inr (Any-map f xs h)

pub All-In {κ} : {A : Type 0} (P : A → Type κ) (xs : List A) {a : A} → All P xs → In a xs → P a
All-In P [] h m = elim m [ ]
All-In P (x ∷ xs) h (inl e) = subst P e h.0
All-In P (x ∷ xs) h (inr m) = All-In P xs h.1 m

pub All-of-In {κ} :
    {A : Type 0} (P : A → Type κ) (xs : List A) → ((x : A) → Any (λ y. y ≡ x) xs → P x) → All P xs
All-of-In P [] f = tt
All-of-In P (x ∷ xs) f = (f x (inl refl), All-of-In P xs λ y m. f y (inr m))

pub Any-left {ℓ} : {A : Type ℓ} (P : A → Type 0) (xs ys : List A) → Any P xs → Any P (xs ++ ys)
Any-left P [] ys h = elim h [ ]
Any-left P (x ∷ xs) ys (inl p) = inl p
Any-left P (x ∷ xs) ys (inr h) = inr (Any-left P xs ys h)

pub Any-right {ℓ} : {A : Type ℓ} (P : A → Type 0) (xs ys : List A) → Any P ys → Any P (xs ++ ys)
Any-right P [] ys h = h
Any-right P (x ∷ xs) ys h = inr (Any-right P xs ys h)

-- An item of which the predicate holds.
pub Any-witness :
    {A : Type 0} {P : A → Type 0} (xs : List A) → Any P xs → (x : A) × Any (λ y. y ≡ x) xs × P x
Any-witness [] h = elim h [ ]
Any-witness (x ∷ xs) (inl p) = (x, inl refl, p)
Any-witness (x ∷ xs) (inr h) = let (y, m, p) = Any-witness xs h in (y, inr m, p)

module _ {A : Type 0} where
  pub In-last : (xs : List A) (x : A) → In x (xs ++ x ∷ [])
  In-last [] x = inl refl
  In-last (y ∷ xs) x = inr (In-last xs x)

  pub In-left : (xs ys : List A) (x : A) → In x xs → In x (xs ++ ys)
  In-left [] ys x m = elim m [ ]
  In-left (y ∷ xs) ys x (inl p) = inl p
  In-left (y ∷ xs) ys x (inr m) = inr (In-left xs ys x m)

  pub In-right : (xs ys : List A) (y : A) → In y ys → In y (xs ++ ys)
  In-right [] ys y m = m
  In-right (x ∷ xs) ys y m = inr (In-right xs ys y m)

  pub In-middle : (xs ys : List A) (x : A) → In x (xs ++ x ∷ ys)
  In-middle [] ys x = inl refl
  In-middle (y ∷ xs) ys x = inr (In-middle xs ys x)

  pub In-append : (xs ys : List A) (x : A) → In x (xs ++ ys) → In x xs ⊎ In x ys
  In-append [] ys x m = inr m
  In-append (y ∷ xs) ys x (inl p) = inl (inl p)
  In-append (y ∷ xs) ys x (inr m) = elim (In-append xs ys x m) [
    | inl left ↦ inl (inr left)
    | inr right ↦ inr right
  ]

pub List-cases {ℓ} :
    {A : Type ℓ} (xs : List A) → (xs ≡ []) ⊎ ((x : A) × (rest : List A) × (xs ≡ x ∷ rest))
List-cases [] = inl refl
List-cases (x ∷ xs) = inr (x, xs, refl)

-- `for _, a := range slice { if a == value { return true } }; return false`
module _ {A : Type 0} ⦃e : Eq A⦄ where
  unfoldable pub contains : List A → A → Bool
  contains [] value = false
  contains (a ∷ slice) value = a == value || contains slice value

  pub In-of_contains : (slice : List A) (value : A) → contains slice value ≡ true → In value slice
  unfolding contains
  In-of_contains [] value h = absurd (false≢true h)
  In-of_contains (a ∷ slice) value h = elim (Bool-cases (a == value)) [
    | inl same ↦ inl ((e.beq_iff a value).0 same)
    | inr other ↦ inr (In-of_contains slice value (rw other at h))
  ]

  pub contains_of_In : (slice : List A) (value : A) → In value slice → contains slice value ≡ true
  unfolding contains
  contains_of_In [] value m = elim m [ ]
  contains_of_In (a ∷ slice) value (inl same) = rw ((e.beq_iff a value).1 same)
  contains_of_In (a ∷ slice) value (inr m) = ground (arith, contains_of_In slice value m)
