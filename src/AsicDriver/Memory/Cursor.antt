-- ===== src/AsicDriver/Memory/Cursor.antt =====
-- An iterator over the chip in memory. Behind the key of a deleted entry it finds nothing.
use native.Mathlib.Decide.{ℕ_discrete}
use mpitofino.Prelude.{
  ℕ, ◌≡◌, ◌≢◌, refl, sym, ap, ◌∙◌, subst, inr, Option, none, some, List, [], ◌∷◌, ◌++◌,
  if◌then◌else◌, length,
}
use mpitofino.AsicDriver.Tables.{
  Key, Key-discrete, Data, Table, table_of, Status, success, object_not_found, NodupKeys,
}
use mpitofino.AsicDriver.Iterator.{Cursor, IsOrdered, NoKey, Nodup-less, All-split}
use mpitofino.AsicDriver.Memory.{memory_switch, removed}
use mpitofino.AsicDriver.Memory.Listing.{
  Entry, Table-discrete, Place-discrete, holds, holds-yes, holds-no, look, without, less_key,
  listing, NodupKeys-listing,
}

unfoldable pub next_in : Key → List (Key × Data) → Status × List (Key × Data)
next_in k [] = (object_not_found, [])
next_in k (e ∷ []) = (object_not_found, [])
next_in k (e ∷ f ∷ es) =
    let rest = next_in k (f ∷ es) in if holds (Key-discrete e.0 k) then (success, f ∷ []) else rest

abbrev front : List (Key × Data) → Status × (Key × Data) → Status × (Key × Data)
front [] unset = unset
front (e ∷ es) unset = (success, e)

abbrev pub memory_cursor : (Key × Data) → Cursor memory_switch
memory_cursor unset = record {
  usage = λ s pipe t. (success, length (listing pipe t s));
  first = λ s pipe t. front (listing pipe t s) (object_not_found, unset);
  next = λ s pipe t key. next_in key (listing pipe t s);
}

less_key_twice : (k : Key) (l : List (Key × Data)) → less_key k (less_key k l) ≡ less_key k l
unfolding less_key
less_key_twice k [] = refl
less_key_twice k ((j, d) ∷ l) = elim (Key-discrete j k) [
  | yes e ↦ rw (holds-yes (Key-discrete j k) e) (less_key_twice k l)
  | no n ↦
      rw (holds-no (Key-discrete j k) n)
        (rw (holds-no (Key-discrete j k) n) (ap (λ m. (j, d) ∷ m) (less_key_twice k l)))
]

less_key_comm :
    (i k : Key) (l : List (Key × Data)) → less_key i (less_key k l) ≡ less_key k (less_key i l)
unfolding less_key
less_key_comm i k [] = refl
less_key_comm i k ((j, d) ∷ l) = elim (Key-discrete j k) [
  | yes e ↦ elim (Key-discrete j i) [
    | yes f ↦
        rw (holds-yes (Key-discrete j k) e, holds-yes (Key-discrete j i) f) (less_key_comm i k l)
    | no n ↦
        rw (holds-yes (Key-discrete j k) e, holds-no (Key-discrete j i) n)
          (rw (holds-yes (Key-discrete j k) e) (less_key_comm i k l))
  ]
  | no m ↦ elim (Key-discrete j i) [
    | yes f ↦
        rw (holds-no (Key-discrete j k) m, holds-yes (Key-discrete j i) f) (less_key_comm i k l)
    | no n ↦
        rw (holds-no (Key-discrete j k) m, holds-no (Key-discrete j i) n)
          (rw (holds-no (Key-discrete j k) m) (ap (λ l'. (j, d) ∷ l') (less_key_comm i k l)))
  ]
]

less_key_absent : (k : Key) (l : List (Key × Data)) → NoKey k l → less_key k l ≡ l
unfolding less_key
less_key_absent k [] h = refl
less_key_absent k ((j, d) ∷ l) h =
    rw (holds-no (Key-discrete j k) h.0) (ap (λ m. (j, d) ∷ m) (less_key_absent k l h.1))

less_key-append :
    (before : List (Key × Data)) (e : Key × Data) (es : List (Key × Data))
    → NodupKeys (before ++ e ∷ es)
    → less_key e.0 (before ++ e ∷ es) ≡ before ++ es
unfolding less_key
less_key-append [] e es h = rw (holds-yes (Key-discrete e.0 e.0) refl) (less_key_absent e.0 es h.0)
less_key-append ((j, d) ∷ before) e es h =
    let split = All-split (λ (x : Key × Data). x.0 ≢ j) before e es h.0 in
    rw (holds-no (Key-discrete j e.0) (λ q. split.0 (sym q)))
      (ap (λ m. (j, d) ∷ m) (less_key-append before e es h.1))

listing-without :
    (pipe : ℕ) (t : Table) (k : Key) (es : List Entry)
    → listing pipe t (without es (pipe, k)) ≡ less_key k (listing pipe t es)
unfolding listing without less_key
listing-without pipe t k [] = refl
listing-without pipe t k (((q, j), d) ∷ es) = elim (ℕ_discrete q pipe) [
  | no n ↦
      rw
        (
          holds-no (Place-discrete (q, j) (pipe, k)) (λ e. n (ap (λ (p : ℕ × Key). p.0) e)),
          holds-no (ℕ_discrete q pipe) n,
        )
        (listing-without pipe t k es)
  | yes a ↦ elim (Key-discrete j k) [
    | yes b ↦
        rw
          (
            holds-yes (Place-discrete (q, j) (pipe, k)) (rw (a, b) refl),
            holds-yes (ℕ_discrete q pipe) a,
          )
          (listing-without pipe t k es ∙ same_key b)
    | no m ↦
        rw
          (
            holds-no (Place-discrete (q, j) (pipe, k)) (λ e. m (ap (λ (p : ℕ × Key). p.1) e)),
            holds-yes (ℕ_discrete q pipe) a,
          )
          (other_key m (listing-without pipe t k es))
  ]
]
  where
    same_key :
        j ≡ k
        → less_key k (listing pipe t es)
          ≡ less_key k (
              if holds (Table-discrete (table_of j) t)
              then (j, d) ∷ less_key j (listing pipe t es)
              else listing pipe t es)
    same_key b = elim (Table-discrete (table_of j) t) [
      | no n ↦ rw (holds-no (Table-discrete (table_of j) t) n) refl
      | yes y ↦
          rw (holds-yes (Table-discrete (table_of j) t) y, holds-yes (Key-discrete j k) b)
            (sym (less_key_twice k (listing pipe t es))
              ∙ ap (λ x. less_key k (less_key x (listing pipe t es))) (sym b))
    ]

    other_key :
        j ≢ k
        → listing pipe t (without es (pipe, k)) ≡ less_key k (listing pipe t es)
        → (if holds (Table-discrete (table_of j) t)
            then (j, d) ∷ less_key j (listing pipe t (without es (pipe, k)))
            else listing pipe t (without es (pipe, k)))
          ≡ less_key k (
              if holds (Table-discrete (table_of j) t)
              then (j, d) ∷ less_key j (listing pipe t es)
              else listing pipe t es)
    other_key m h = elim (Table-discrete (table_of j) t) [
      | no n ↦ rw (holds-no (Table-discrete (table_of j) t) n) h
      | yes y ↦
          rw (holds-yes (Table-discrete (table_of j) t) y, holds-no (Key-discrete j k) m)
            (ap (λ l. (j, d) ∷ l) (ap (less_key j) h ∙ less_key_comm j k (listing pipe t es)))
    ]

removed-without :
    (s s' : List Entry) (pipe : ℕ) (k : Key) (o : Option Data)
    → removed s pipe k o ≡ (success, s')
    → without s (pipe, k) ≡ s'
removed-without s s' pipe k none h = cc
removed-without s s' pipe k (some d) h = ap (λ (r : Status × List Entry). r.1) h

entries_less :
    (s s' : List Entry) (pipe : ℕ) (t : Table) (before : List (Key × Data)) (e : Key × Data)
    (es : List (Key × Data))
    → listing pipe t s ≡ before ++ e ∷ es
    → removed s pipe e.0 (look s (pipe, e.0)) ≡ (success, s')
    → listing pipe t s' ≡ before ++ es
entries_less s s' pipe t before e es here h =
    ap (listing pipe t) (sym (removed-without s s' pipe e.0 (look s (pipe, e.0)) h))
    ∙ listing-without pipe t e.0 s
    ∙ ap (less_key e.0) here
    ∙ less_key-append before e es (subst NodupKeys here (NodupKeys-listing pipe t s))

next_in-absent :
    (k : Key) (l : List (Key × Data)) → NoKey k l → next_in k l ≡ (object_not_found, [])
unfolding next_in
next_in-absent k [] h = refl
next_in-absent k (e ∷ []) h = refl
next_in-absent k (e ∷ f ∷ es) h =
    rw (holds-no (Key-discrete e.0 k) h.0) (next_in-absent k (f ∷ es) h.1)

next_in-split :
    (before : List (Key × Data)) (e f : Key × Data) (es : List (Key × Data))
    → NodupKeys (before ++ e ∷ f ∷ es)
    → next_in e.0 (before ++ e ∷ f ∷ es) ≡ (success, f ∷ [])
unfolding next_in
next_in-split [] e f es h = rw (holds-yes (Key-discrete e.0 e.0) refl) refl
next_in-split (b ∷ []) e f es h =
    rw (holds-no (Key-discrete b.0 e.0) (λ q. h.0.0 (sym q))) (next_in-split [] e f es h.1)
next_in-split (b ∷ c ∷ before) e f es h =
    let split = All-split (λ (x : Key × Data). x.0 ≢ b.0) (c ∷ before) e (f ∷ es) h.0 in
    rw (holds-no (Key-discrete b.0 e.0) (λ q. split.0 (sym q)))
      (next_in-split (c ∷ before) e f es h.1)

pub memory_cursor-IsOrdered : (unset : Key × Data) → IsOrdered memory_switch (memory_cursor unset)
memory_cursor-IsOrdered unset = record {
  usage_entries = λ s pipe t. refl;
  first_entry = λ s pipe t e es here. rw here refl;
  next_entry = λ s pipe t before e f es nodup here.
      ap (next_in e.0) here ∙ next_in-split before e f es (subst NodupKeys here nodup);
  next_deleted = λ s s' pipe t before e f es nodup here h.
      let left = entries_less s s' pipe t before e (f ∷ es) here h in
      let gone = Nodup-less before e (f ∷ es) (subst NodupKeys here nodup) in
      inr (rw (next_in-absent e.0 (listing pipe t s') (subst (NoKey e.0) (sym left) gone.0)) refl);
  entries_deleted =
      λ s s' pipe t before e es nodup here h. entries_less s s' pipe t before e es here h;
}
