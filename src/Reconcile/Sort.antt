-- ===== src/Reconcile/Sort.antt =====
-- `slice::sort_by`, the stable sort of the standard library, as insertion from the right.
use treesync.Prelude.{List, [], ◌∷◌, ◌++◌, ◌≡◌, ◌≢◌, refl, Ordering, All}
use mathlib.Core.List.{Perm}
use mathlib.Core.List.Perm

module _ {A : Type 0} (order : A → A → Ordering) where
  unfoldable pub insert_by : A → List A → List A
  insert_by x [] = x ∷ []
  insert_by x (y ∷ ys) = elim (order x y) [ Ordering.gt ↦ y ∷ insert_by x ys | _ ↦ x ∷ y ∷ ys ]

  unfoldable pub sort_by : List A → List A
  unfolding insert_by
  sort_by [] = []
  sort_by (x ∷ xs) = insert_by x (sort_by xs)

  insert_by-perm : (x : A) (ys : List A) → Perm (insert_by x ys) (x ∷ ys)
  unfolding insert_by
  insert_by-perm x [] = Perm.rfl
  insert_by-perm x (y ∷ ys) = go (order x y) (insert_by-perm x ys)
    where
      go :
          (o : Ordering)
          → Perm (insert_by x ys) (x ∷ ys)
          → Perm (elim o [ Ordering.gt ↦ y ∷ insert_by x ys | _ ↦ x ∷ y ∷ ys ]) (x ∷ y ∷ ys)
      go Ordering.gt p = Perm.trans (Perm.cons y p) (Perm.swap x y ys)
      go Ordering.lt p = Perm.rfl
      go Ordering.eq p = Perm.rfl

  pub sort_by-perm : (xs : List A) → Perm (sort_by xs) xs
  unfolding sort_by
  sort_by-perm [] = Perm.rfl
  sort_by-perm (x ∷ xs) = Perm.trans (insert_by-perm x (sort_by xs)) (Perm.cons x (sort_by-perm xs))

  insert_by-All : (P : A → Type 0) (x : A) (ys : List A) → P x → All P ys → All P (insert_by x ys)
  unfolding insert_by
  insert_by-All P x [] h k = (h, tt)
  insert_by-All P x (y ∷ ys) h (k, ks) = go (order x y) (insert_by-All P x ys h ks)
    where
      go :
          (o : Ordering)
          → All P (insert_by x ys)
          → All P (elim o [ Ordering.gt ↦ y ∷ insert_by x ys | _ ↦ x ∷ y ∷ ys ])
      go Ordering.gt r = (k, r)
      go Ordering.lt r = (h, (k, ks))
      go Ordering.eq r = (h, (k, ks))

  pub sort_by-All : (P : A → Type 0) (xs : List A) → All P xs → All P (sort_by xs)
  unfolding sort_by
  sort_by-All P [] h = tt
  sort_by-All P (x ∷ xs) (h, hs) = insert_by-All P x (sort_by xs) h (sort_by-All P xs hs)

-- Every element stands in the relation to every later one.
abbrev pub InOrder : {A : Type 0} → (A → A → Type 0) → List A → Type 0
InOrder R [] = Unit
InOrder R (x ∷ xs) = All (R x) xs × InOrder R xs

pub All-map :
    {A : Type 0} {P Q : A → Type 0} → ((a : A) → P a → Q a) → (xs : List A) → All P xs → All Q xs
All-map f [] h = tt
All-map f (x ∷ xs) (h, hs) = (f x h, All-map f xs hs)

pub All-append :
    {A : Type 0} (P : A → Type 0) (xs ys : List A) → All P xs → All P ys → All P (xs ++ ys)
All-append P [] ys h k = k
All-append P (x ∷ xs) ys (h, hs) k = (h, All-append P xs ys hs k)

-- A comparison that decides a transitive relation sorts by it.
module _ {A : Type 0} (order : A → A → Ordering) (R : A → A → Type 0)
    (above : (a b : A) → order a b ≡ Ordering.gt → R b a)
    (below : (a b : A) → order a b ≢ Ordering.gt → R a b)
    (trans : (a b c : A) → R a b → R b c → R a c) where
  insert_by-InOrder : (x : A) (ys : List A) → InOrder R ys → InOrder R (insert_by order x ys)
  unfolding insert_by
  insert_by-InOrder x [] h = (tt, tt)
  insert_by-InOrder x (y ∷ ys) (h, hs) = go (order x y) refl (insert_by-InOrder x ys hs)
    where
      before : R x y → InOrder R (x ∷ y ∷ ys)
      before r = ((r, All-map (λ z k. trans x y z r k) ys h), (h, hs))

      go :
          (o : Ordering)
          → order x y ≡ o
          → InOrder R (insert_by order x ys)
          → InOrder R (elim o [ Ordering.gt ↦ y ∷ insert_by order x ys | _ ↦ x ∷ y ∷ ys ])
      go Ordering.gt e r = (insert_by-All order (R y) x ys (above x y e) h, r)
      go Ordering.lt e r = before (below x y (λ g. cc))
      go Ordering.eq e r = before (below x y (λ g. cc))

  pub sort_by-InOrder : (xs : List A) → InOrder R (sort_by order xs)
  unfolding sort_by
  sort_by-InOrder [] = tt
  sort_by-InOrder (x ∷ xs) = insert_by-InOrder x (sort_by order xs) (sort_by-InOrder xs)

module _ {A : Type 0} (R : A → A → Type 0) where
  pub InOrder-append :
      (xs ys : List A)
      → InOrder R xs
      → InOrder R ys
      → All (λ x. All (R x) ys) xs
      → InOrder R (xs ++ ys)
  InOrder-append [] ys h k c = k
  InOrder-append (x ∷ xs) ys (h, hs) k (c, cs) =
      (All-append (R x) xs ys h c, InOrder-append xs ys hs k cs)

pub InOrder-map :
    {A : Type 0} {P : A → Type 0} {R S : A → A → Type 0}
    → ((a b : A) → P a → P b → R a b → S a b)
    → (xs : List A) → All P xs
    → InOrder R xs
    → InOrder S xs
InOrder-map f [] h k = tt
InOrder-map {A} {P} {R} {S} f (x ∷ xs) (h, hs) (k, ks) = (go xs hs k, InOrder-map f xs hs ks)
  where
    go : (ys : List A) → All P ys → All (R x) ys → All (S x) ys
    go [] u v = tt
    go (y ∷ ys) (u, us) (v, vs) = (f x y h u v, go ys us vs)
