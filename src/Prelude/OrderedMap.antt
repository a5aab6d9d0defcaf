-- ===== src/Prelude/OrderedMap.antt =====
-- `std::map` with an unsigned integer key: an association list in the order of the keys.
use Prim.Native.Nat.{ℕ}
use mathlib.Core.Path.{◌≡◌, refl, sym, ap, ◌∙◌, subst}
use mathlib.Core.Logic.{◌≢◌, inl, inr}
use mathlib.Core.Bool.{Bool, true, false, ◌||◌}
use mathlib.Core.Option.{Option, none, some}
use mathlib.Core.List.{List, [], ◌∷◌}
use native.Mathlib.Omega.{arith}
use mpitofino.Prelude.Tests.{ltb, ◌==◌, if◌then◌else◌, Bool-cases}

pub some-inj {ℓ} : {A : Type ℓ} {a b : A} → some a ≡ some b → a ≡ b
some-inj h = cc

abbrev pub Map {ℓ} : Type ℓ → Type ℓ
Map V = List (ℕ × V)

module _ {ℓ} {V : Type ℓ} where
  unfoldable pub find : ℕ → Map V → Option V
  find k [] = none
  find k ((j, v) ∷ m) = if j == k then some v else find k m

  unfoldable pub contains : ℕ → Map V → Bool
  contains k [] = false
  contains k ((j, v) ∷ m) = j == k || contains k m

  -- A new key goes to its place in the order.
  unfoldable pub place : ℕ → V → Map V → Map V
  place k v [] = (k, v) ∷ []
  place k v ((j, w) ∷ m) =
      let rest = place k v m in if ltb k j then (k, v) ∷ (j, w) ∷ m else (j, w) ∷ rest

  -- `insert`: a key that is there already keeps its value.
  unfoldable pub insert : ℕ → V → Map V → Map V
  insert k v m = if contains k m then m else place k v m

  unfoldable pub erase : ℕ → Map V → Map V
  erase k [] = []
  erase k ((j, v) ∷ m) = let rest = erase k m in if j == k then rest else (j, v) ∷ rest

  -- Assignment through the iterator of a key.
  unfoldable pub assign : ℕ → V → Map V → Map V
  assign k v [] = []
  assign k v ((j, w) ∷ m) = if j == k then (j, v) ∷ m else (j, w) ∷ assign k v m

  unfoldable pub values : Map V → List V
  values [] = []
  values ((k, v) ∷ m) = v ∷ values m

  pub contains-find : (k : ℕ) (m : Map V) → contains k m ≡ false → find k m ≡ none
  unfolding find contains
  contains-find k [] h = refl
  contains-find k ((j, v) ∷ m) h = ground (arith, contains-find k m)

  pub find-contains : (k : ℕ) (m : Map V) → find k m ≡ none → contains k m ≡ false
  unfolding find contains
  find-contains k [] h = refl
  find-contains k ((j, v) ∷ m) h = ground (arith, find-contains k m)

  pub find-place :
      (j k : ℕ) (v : V) (m : Map V)
      → find k m ≡ none
      → find j (place k v m) ≡ (if k == j then some v else find j m)
  unfolding find place
  find-place j k v [] h = refl
  find-place j k v ((i, w) ∷ m) h = ground (arith, find-place j k v m)

  pub find-insert_new :
      (j k : ℕ) (v : V) (m : Map V)
      → find k m ≡ none
      → find j (insert k v m) ≡ (if k == j then some v else find j m)
  unfolding insert
  find-insert_new j k v m h = ground (arith, find-contains k m h, find-place j k v m h)

  pub find-erase : (j k : ℕ) (m : Map V) → find j (erase k m) ≡ (if k == j then none else find j m)
  unfolding find erase
  find-erase j k [] = ground arith
  find-erase j k ((i, w) ∷ m) = ground (arith, find-erase j k m)

  pub find-assign :
      (j k : ℕ) (v w : V) (m : Map V)
      → find k m ≡ some w
      → find j (assign k v m) ≡ (if k == j then some v else find j m)
  unfolding find assign
  find-assign j k v w [] h = cc
  find-assign j k v w ((i, u) ∷ m) h = ground (arith, find-assign j k v w m)

-- Writing the value that is there changes nothing.
pub assign_self {ℓ} :
    {V : Type ℓ} (k : ℕ) (v : V) (m : Map V) → find k m ≡ some v → assign k v m ≡ m
unfolding find assign
assign_self k v [] h = cc
assign_self k v ((j, w) ∷ m) h = ground (arith, assign_self k v m)

module _ {ℓ} {V : Type ℓ} where
  pub contains-place :
      (j k : ℕ) (v : V) (m : Map V) → contains j (place k v m) ≡ (k == j || contains j m)
  unfolding contains place
  contains-place j k v [] = refl
  contains-place j k v ((i, w) ∷ m) = ground (arith, contains-place j k v m)

  pub contains-insert :
      (j k : ℕ) (v : V) (m : Map V) → contains j (insert k v m) ≡ (k == j || contains j m)
  unfolding insert
  contains-insert j k v m = ground (arith, contains-place j k v m, ap (λ i. contains i m))

  pub contains-erase :
      (j k : ℕ) (m : Map V) → contains j (erase k m) ≡ (if k == j then false else contains j m)
  unfolding contains erase
  contains-erase j k [] = ground arith
  contains-erase j k ((i, w) ∷ m) = ground (arith, contains-erase j k m)

  pub contains-assign : (j k : ℕ) (v : V) (m : Map V) → contains j (assign k v m) ≡ contains j m
  unfolding contains assign
  contains-assign j k v [] = refl
  contains-assign j k v ((i, w) ∷ m) = ground (arith, contains-assign j k v m)

  pub find-contains-true : (k : ℕ) (v : V) (m : Map V) → find k m ≡ some v → contains k m ≡ true
  unfolding find contains
  find-contains-true k v [] h = cc
  find-contains-true k v ((j, w) ∷ m) h = ground (arith, find-contains-true k v m)

  -- No key stands twice.
  abbrev pub UniqueKeys : Map V → Type 0
  UniqueKeys [] = Unit
  UniqueKeys ((k, v) ∷ m) = (contains k m ≡ false) × UniqueKeys m

  UniqueKeys-place :
      (k : ℕ) (v : V) (m : Map V) → contains k m ≡ false → UniqueKeys m → UniqueKeys (place k v m)
  unfolding place contains
  UniqueKeys-place k v [] h u = (refl, tt)
  UniqueKeys-place k v ((j, w) ∷ m) h u =
      ground (arith, UniqueKeys-place k v m, contains-place j k v m)

  pub UniqueKeys-insert : (k : ℕ) (v : V) (m : Map V) → UniqueKeys m → UniqueKeys (insert k v m)
  unfolding insert
  UniqueKeys-insert k v m u = elim (Bool-cases (contains k m)) [
    | inl e ↦ rw e u
    | inr e ↦ rw e (UniqueKeys-place k v m e u)
  ]

  pub UniqueKeys-erase : (k : ℕ) (m : Map V) → UniqueKeys m → UniqueKeys (erase k m)
  unfolding erase
  UniqueKeys-erase k [] u = tt
  UniqueKeys-erase k ((j, w) ∷ m) u = ground (arith, UniqueKeys-erase k m, contains-erase j k m)

-- `P` holds of every value.
module _ {ℓ κ} {V : Type ℓ} (P : V → Type κ) where
  abbrev pub AllValues : Map V → Type κ
  AllValues [] = Unit
  AllValues ((k, v) ∷ m) = P v × AllValues m

  pub AllValues-place : (k : ℕ) (v : V) (m : Map V) → P v → AllValues m → AllValues (place k v m)
  unfolding place
  AllValues-place k v [] p h = (p, tt)
  AllValues-place k v ((j, w) ∷ m) p h = elim (Bool-cases (ltb k j)) [
    | inl e ↦ rw e (p, (h.0, h.1))
    | inr e ↦ rw e (h.0, AllValues-place k v m p h.1)
  ]

  pub AllValues-erase : (k : ℕ) (m : Map V) → AllValues m → AllValues (erase k m)
  unfolding erase
  AllValues-erase k [] h = tt
  AllValues-erase k ((j, w) ∷ m) h = elim (Bool-cases (j == k)) [
    | inl e ↦ rw e (AllValues-erase k m h.1)
    | inr e ↦ rw e (h.0, AllValues-erase k m h.1)
  ]

  pub AllValues-assign : (k : ℕ) (v : V) (m : Map V) → P v → AllValues m → AllValues (assign k v m)
  unfolding assign
  AllValues-assign k v [] p h = tt
  AllValues-assign k v ((j, w) ∷ m) p h = elim (Bool-cases (j == k)) [
    | inl e ↦ rw e (p, h.1)
    | inr e ↦ rw e (h.0, AllValues-assign k v m p h.1)
  ]

  pub AllValues-find : (k : ℕ) (m : Map V) (v : V) → AllValues m → find k m ≡ some v → P v
  unfolding find
  AllValues-find k [] v h e = cc
  AllValues-find k ((j, w) ∷ m) v h e = elim (Bool-cases (j == k)) [
    | inl t ↦ subst P (some-inj (rw t at e)) h.0
    | inr t ↦ AllValues-find k m v h.1 (rw t at e)
  ]

-- The number `f` of a value tells the entries of the map apart.
module _ {ℓ} {V : Type ℓ} (f : V → ℕ) where
  abbrev pub Avoids : ℕ → Map V → Type 0
  Avoids n = AllValues (λ v. f v ≢ n)

  abbrev pub Distinct : Map V → Type 0
  Distinct [] = Unit
  Distinct ((k, v) ∷ m) = Avoids (f v) m × Distinct m

  pub Distinct-place :
      (k : ℕ) (v : V) (m : Map V) → Avoids (f v) m → Distinct m → Distinct (place k v m)
  unfolding place
  Distinct-place k v [] a d = (tt, tt)
  Distinct-place k v ((j, w) ∷ m) a d = elim (Bool-cases (ltb k j)) [
    | inl e ↦ rw e ((a.0, a.1), (d.0, d.1))
    | inr e ↦ rw e (
      AllValues-place (λ u. f u ≢ f w) k v m (λ p. a.0 (sym p)) d.0,
      Distinct-place k v m a.1 d.1,
    )
  ]

  pub Distinct-erase : (k : ℕ) (m : Map V) → Distinct m → Distinct (erase k m)
  unfolding erase
  Distinct-erase k [] d = tt
  Distinct-erase k ((j, w) ∷ m) d = elim (Bool-cases (j == k)) [
    | inl e ↦ rw e (Distinct-erase k m d.1)
    | inr e ↦ rw e (AllValues-erase (λ u. f u ≢ f w) k m d.0, Distinct-erase k m d.1)
  ]

  Avoids-assign :
      (k n : ℕ) (v w : V) (m : Map V)
      → find k m ≡ some w
      → f v ≡ f w
      → Avoids n m
      → Avoids n (assign k v m)
  Avoids-assign k n v w m e p a =
      AllValues-assign (λ u. f u ≢ n) k v m
        (λ q. AllValues-find (λ u. f u ≢ n) k m w a e (sym p ∙ q)) a

  -- Writing to an entry keeps the numbers apart, if the entry keeps its number.
  pub Distinct-assign :
      (k : ℕ) (v w : V) (m : Map V)
      → find k m ≡ some w
      → f v ≡ f w
      → Distinct m
      → Distinct (assign k v m)
  unfolding assign find
  Distinct-assign k v w [] e p d = tt
  Distinct-assign k v w ((j, u) ∷ m) e p d = elim (Bool-cases (j == k)) [
    | inl t ↦ rw t (subst (λ n. Avoids n m) (ap f (some-inj (rw t at e)) ∙ sym p) d.0, d.1)
    | inr t ↦
        rw t
          (Avoids-assign k (f u) v w m (rw t at e) p d.0, Distinct-assign k v w m (rw t at e) p d.1)
  ]

  -- So an entry is known by its number.
  pub Distinct-find :
      (j k : ℕ) (v w : V) (m : Map V)
      → Distinct m
      → find j m ≡ some v
      → find k m ≡ some w
      → f v ≡ f w
      → j ≡ k
  unfolding find
  Distinct-find j k v w [] d a b p = cc
  Distinct-find j k v w ((i, u) ∷ m) d a b p = elim (Bool-cases (i == j)) [
    | inl t ↦ elim (Bool-cases (i == k)) [
      | inl s ↦ ground arith
      | inr s ↦ absurd (
          AllValues-find (λ x. f x ≢ f u) k m w d.0 (rw s at b)
            (sym p ∙ ap f (sym (some-inj (rw t at a)))))
    ]
    | inr t ↦ elim (Bool-cases (i == k)) [
      | inl s ↦ absurd (
          AllValues-find (λ x. f x ≢ f u) j m v d.0 (rw t at a)
            (p ∙ ap f (sym (some-inj (rw s at b)))))
      | inr s ↦ Distinct-find j k v w m d.1 (rw t at a) (rw s at b) p
    ]
  ]
