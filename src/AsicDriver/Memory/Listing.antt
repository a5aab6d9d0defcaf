-- ===== src/AsicDriver/Memory/Listing.antt =====
-- The store of the chip in memory: a list of entries, of which the first at a place counts.
use native.Mathlib.Decide.{ℕ_discrete}
use mpitofino.Prelude.{
  ℕ, ◌≡◌, ◌≢◌, refl, sym, ap, ◌∙◌, Bool, true, false, ◌⊎◌, inl, inr, Option, none, some, List, [],
  ◌∷◌, if◌then◌else◌, All,
}
use mpitofino.Prelude.OrderedMap.{some-inj}
use mpitofino.AsicDriver.Tables.{Key, Key-discrete, Data, Table, table_of, NodupKeys, Listed}

-- The place of an entry, and its value.
abbrev pub Entry : Type 0
Entry = (ℕ × Key) × Data

pub Table-discrete : Discrete Table
Table-discrete = hlevel ℕ_discrete

pub Place-discrete : Discrete (ℕ × Key)
Place-discrete = hlevel (ℕ_discrete, Key-discrete)

abbrev pub holds : {P : Type 0} → Dec P → Bool
holds (yes p) = true
holds (no n) = false

pub holds-yes : {P : Type 0} (d : Dec P) → P → holds d ≡ true
holds-yes (yes _) p = refl
holds-yes (no n) p = absurd (n p)

pub holds-no : {P : Type 0} (d : Dec P) → (P → ⊥) → holds d ≡ false
holds-no (yes p) n = absurd (n p)
holds-no (no _) n = refl

unfoldable pub look : List Entry → ℕ × Key → Option Data
look [] j = none
look ((k, d) ∷ es) j = if holds (Place-discrete k j) then some d else look es j

unfoldable pub without : List Entry → ℕ × Key → List Entry
without [] j = []
without ((k, d) ∷ es) j =
    let rest = without es j in if holds (Place-discrete k j) then rest else (k, d) ∷ rest

module _ (k j : ℕ × Key) (d : Data) (es : List Entry) where
  pub look-yes : k ≡ j → look ((k, d) ∷ es) j ≡ some d
  unfolding look
  look-yes e = rw (holds-yes (Place-discrete k j) e) refl

  pub look-no : k ≢ j → look ((k, d) ∷ es) j ≡ look es j
  unfolding look
  look-no n = rw (holds-no (Place-discrete k j) n) refl

pub look-without_self : (j : ℕ × Key) (es : List Entry) → look (without es j) j ≡ none
unfolding look without
look-without_self j [] = refl
look-without_self j ((k, d) ∷ es) = elim (Place-discrete k j) [
  | yes e ↦ rw (holds-yes (Place-discrete k j) e) (look-without_self j es)
  | no n ↦
      rw (holds-no (Place-discrete k j) n)
        (rw (holds-no (Place-discrete k j) n) (look-without_self j es))
]

pub look-without_ne : (i j : ℕ × Key) (es : List Entry) → i ≢ j → look (without es j) i ≡ look es i
unfolding without
look-without_ne i j [] n = refl
look-without_ne i j ((k, d) ∷ es) n = elim (Place-discrete k j) [
  | yes e ↦
      rw (holds-yes (Place-discrete k j) e)
        (look-without_ne i j es n ∙ sym (look-no k i d es (λ p. n (sym p ∙ e))))
  | no m ↦ rw (holds-no (Place-discrete k j) m) (elim (Place-discrete k i) [
    | yes e ↦ look-yes k i d (without es j) e ∙ sym (look-yes k i d es e)
    | no o ↦ look-no k i d (without es j) o ∙ (look-without_ne i j es n ∙ sym (look-no k i d es o))
  ])
]

-- The entries under other keys.
unfoldable pub less_key : Key → List (Key × Data) → List (Key × Data)
less_key k [] = []
less_key k ((j, d) ∷ es) =
    let rest = less_key k es in if holds (Key-discrete j k) then rest else (j, d) ∷ rest

-- An iterator over a table: the entries that count.
unfoldable pub listing : ℕ → Table → List Entry → List (Key × Data)
listing pipe t [] = []
listing pipe t (((q, k), d) ∷ es) =
    let rest = listing pipe t es in
    if holds (ℕ_discrete q pipe)
    then (if holds (Table-discrete (table_of k) t) then (k, d) ∷ less_key k rest else rest)
    else rest

All-less_key :
    (k : Key) (es : List (Key × Data)) → All (λ (e : Key × Data). e.0 ≢ k) (less_key k es)
unfolding less_key
All-less_key k [] = tt
All-less_key k ((j, d) ∷ es) = elim (Key-discrete j k) [
  | yes e ↦ rw (holds-yes (Key-discrete j k) e) (All-less_key k es)
  | no n ↦ rw (holds-no (Key-discrete j k) n) (n, All-less_key k es)
]

-- What holds of all entries holds of those.
All-less_key_sub :
    (P : Key × Data → Type 0) (k : Key) (es : List (Key × Data)) → All P es → All P (less_key k es)
unfolding less_key
All-less_key_sub P k [] h = tt
All-less_key_sub P k ((i, d) ∷ es) h = elim (Key-discrete i k) [
  | yes e ↦ rw (holds-yes (Key-discrete i k) e) (All-less_key_sub P k es h.1)
  | no n ↦ rw (holds-no (Key-discrete i k) n) (h.0, All-less_key_sub P k es h.1)
]

NodupKeys-less_key : (k : Key) (es : List (Key × Data)) → NodupKeys es → NodupKeys (less_key k es)
unfolding less_key
NodupKeys-less_key k [] h = tt
NodupKeys-less_key k ((i, d) ∷ es) h = elim (Key-discrete i k) [
  | yes e ↦ rw (holds-yes (Key-discrete i k) e) (NodupKeys-less_key k es h.1)
  | no n ↦
      rw (holds-no (Key-discrete i k) n)
        (All-less_key_sub (λ (e : Key × Data). e.0 ≢ i) k es h.0, NodupKeys-less_key k es h.1)
]

Listed-less_key :
    (k j : Key) (d : Data) (l : List (Key × Data))
    → k ≢ j
    → Listed j d l
    → Listed j d (less_key k l)
unfolding less_key
Listed-less_key k j d [] n h = h
Listed-less_key k j d ((i, x) ∷ l) n h = elim (Key-discrete i k) [
  | yes e ↦
      rw (holds-yes (Key-discrete i k) e)
        (elim h [ inl g ↦ absurd (n (sym e ∙ g.0)) | inr g ↦ Listed-less_key k j d l n g ])
  | no m ↦
      rw (holds-no (Key-discrete i k) m)
        (elim h [ inl g ↦ inl g | inr g ↦ inr (Listed-less_key k j d l n g) ])
]

-- To split on whether an entry is of the listing.
module _ (P : List (Key × Data) → Type 0) (pipe : ℕ) (t : Table) (q : ℕ) (k : Key) (d : Data)
    (es : List Entry) where
  listing-cases :
      (q ≡ pipe → table_of k ≡ t → P ((k, d) ∷ less_key k (listing pipe t es)))
      → ((q ≢ pipe) ⊎ (table_of k ≢ t) → P (listing pipe t es))
      → P (listing pipe t (((q, k), d) ∷ es))
  unfolding listing
  listing-cases f g = elim (ℕ_discrete q pipe) [
    | no n ↦ rw (holds-no (ℕ_discrete q pipe) n) (g (inl n))
    | yes e ↦ rw (holds-yes (ℕ_discrete q pipe) e) (elim (Table-discrete (table_of k) t) [
      | no n ↦ rw (holds-no (Table-discrete (table_of k) t) n) (g (inr n))
      | yes m ↦ rw (holds-yes (Table-discrete (table_of k) t) m) (f e m)
    ])
  ]

pub NodupKeys-listing : (pipe : ℕ) (t : Table) (es : List Entry) → NodupKeys (listing pipe t es)
unfolding listing
NodupKeys-listing pipe t [] = tt
NodupKeys-listing pipe t (((q, k), d) ∷ es) =
    listing-cases NodupKeys pipe t q k d es
      (λ e m. (
        All-less_key k (listing pipe t es),
        NodupKeys-less_key k (listing pipe t es) (NodupKeys-listing pipe t es),
      ))
      (λ n. NodupKeys-listing pipe t es)

-- The values of a listing, as `look` finds them, and the table they stand in.
abbrev pub Found : List Entry → ℕ → Table → Key × Data → Type 0
Found es pipe t e = (look es (pipe, e.0) ≡ some e.1) × (table_of e.0 ≡ t)

Found-skip :
    (es : List Entry) (pipe : ℕ) (t : Table) (i : ℕ × Key) (d : Data) (l : List (Key × Data))
    → All (λ (e : Key × Data). table_of e.0 ≡ t → i ≢ (pipe, e.0)) l
    → All (Found es pipe t) l
    → All (Found ((i, d) ∷ es) pipe t) l
Found-skip es pipe t i d [] a h = tt
Found-skip es pipe t i d ((j, x) ∷ l) a h =
    ((look-no i (pipe, j) d es (a.0 h.0.1) ∙ h.0.0, h.0.1), Found-skip es pipe t i d l a.1 h.1)

All-imp :
    (P Q : Key × Data → Type 0) (l : List (Key × Data))
    → ((e : Key × Data) → P e → Q e)
    → All P l
    → All Q l
All-imp P Q [] f h = tt
All-imp P Q (e ∷ l) f h = (f e h.0, All-imp P Q l f h.1)

All-any : (P : Key × Data → Type 0) (l : List (Key × Data)) → ((e : Key × Data) → P e) → All P l
All-any P [] f = tt
All-any P (e ∷ l) f = (f e, All-any P l f)

pub Found-listing :
    (pipe : ℕ) (t : Table) (es : List Entry) → All (Found es pipe t) (listing pipe t es)
unfolding listing
Found-listing pipe t [] = tt
Found-listing pipe t (((q, k), d) ∷ es) =
    listing-cases (All (Found (((q, k), d) ∷ es) pipe t)) pipe t q k d es
      (λ e m. (
        (look-yes (q, k) (pipe, k) d es (rw e refl), m),
        Found-skip es pipe t (q, k) d (less_key k (listing pipe t es))
            (All-imp (λ (e : Key × Data). e.0 ≢ k)
              (λ (e : Key × Data). table_of e.0 ≡ t → ◌≢◌ {A = ℕ × Key} (q, k) (pipe, e.0)) _
              (λ x n o p. n (sym (ap (λ (p : ℕ × Key). p.1) p)))
              (All-less_key k (listing pipe t es)))
            (All-less_key_sub (Found es pipe t) k (listing pipe t es) (Found-listing pipe t es)),
      ))
      (λ n.
        Found-skip es pipe t (q, k) d (listing pipe t es)
          (All-any _ (listing pipe t es) (λ e o p. elsewhere e o p n)) (Found-listing pipe t es))
  where
    elsewhere :
        (e : Key × Data)
        → table_of e.0 ≡ t
        → ◌≡◌ {A = ℕ × Key} (q, k) (pipe, e.0)
        → (q ≢ pipe) ⊎ (table_of k ≢ t)
        → ⊥
    elsewhere e o p (inl n) = n (ap (λ (p : ℕ × Key). p.0) p)
    elsewhere e o p (inr n) = n (ap (λ (p : ℕ × Key). table_of p.1) p ∙ o)

-- Every entry of the table is in the listing.
pub Listed-listing :
    (pipe : ℕ) (j : Key) (x : Data) (es : List Entry)
    → look es (pipe, j) ≡ some x
    → Listed j x (listing pipe (table_of j) es)
unfolding look
Listed-listing pipe j x [] h = cc
Listed-listing pipe j x (((q, k), d) ∷ es) h = elim (Place-discrete (q, k) (pipe, j)) [
  | yes e ↦
      listing-cases (Listed j x) pipe (table_of j) q k d es
        (λ a b.
          inl (ap (λ (p : ℕ × Key). p.1) e, some-inj (sym (look-yes (q, k) (pipe, j) d es e) ∙ h)))
        (λ n. absurd (not_here e n))
  | no n ↦
      let later : look es (pipe, j) ≡ some x = sym (look-no (q, k) (pipe, j) d es n) ∙ h in
      listing-cases (Listed j x) pipe (table_of j) q k d es
        (λ a b. inr (
          Listed-less_key k j x (listing pipe (table_of j) es) (λ e. n (rw (a, e) refl))
            (Listed-listing pipe j x es later)))
        (λ m. Listed-listing pipe j x es later)
]
  where
    not_here : ◌≡◌ {A = ℕ × Key} (q, k) (pipe, j) → (q ≢ pipe) ⊎ (table_of k ≢ table_of j) → ⊥
    not_here e (inl n) = n (ap (λ (p : ℕ × Key). p.0) e)
    not_here e (inr n) = n (ap (λ (p : ℕ × Key). table_of p.1) e)
