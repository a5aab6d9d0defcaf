-- ===== src/AsicDriver/Iterator.antt =====
-- `table_iterator` of sd/bfrt_tools.h, and the loops of the driver that delete entries while they
-- iterate. The run-time library's ways to find the entries one by one are parameters.
use mpitofino.Prelude.{
  ℕ, zero, suc, ◌+◌, ◌≡◌, ◌≢◌, ◌<◌, refl, All, sym, ap, ◌∙◌, subst, ◌⊎◌, Option, none, some, List,
  [], ◌∷◌, ◌++◌, ltb, lt→ltb, ge→ltb, if◌then◌else◌, length, Result, ok, err, ◌>>=◌, runtime_error,
  undefined_behaviour, Bool-cases, ok-inj, inl, inr, arith,
}
use mpitofino.StateRepository.{CollectiveChannel}
use mpitofino.AsicDriver.Tables.{
  Key, Data, Table, Switch, Status, success, object_not_found, failed, check_bf_status, NodupKeys,
}
use mpitofino.AsicDriver.Sync.{is_stale, delete_stale, follow_channels}

-- `tableUsageGet`, `tableEntryGetFirst` and `tableEntryGetNext_n`, the last with all entries that it
-- returns.
pub record Cursor (S : Switch) : Type 0 where
  pub usage : S.State → ℕ → Table → Status × ℕ
  pub first : S.State → ℕ → Table → Status × (Key × Data)
  pub next : S.State → ℕ → Table → Key → Status × List (Key × Data)

abbrev pub one_entry : List (Key × Data) → Result (Key × Data)
one_entry [] = err runtime_error
one_entry (e ∷ []) = ok e
one_entry (e ∷ f ∷ es) = err runtime_error

-- The entries of a table are in an order that a deletion keeps. Behind the key of an entry that was
-- just deleted the library finds the next entry, or it answers with an error or not with one entry.
pub record IsOrdered (S : Switch) (C : Cursor S) : Type 0 where
  pub usage_entries :
      (s : S.State) (pipe : ℕ) (t : Table)
      → C.usage s pipe t ≡ (success, length (S.entries s pipe t))
  pub first_entry :
      (s : S.State) (pipe : ℕ) (t : Table) (e : Key × Data) (es : List (Key × Data))
      → S.entries s pipe t ≡ e ∷ es
      → C.first s pipe t ≡ (success, e)
  pub next_entry :
      (s : S.State) (pipe : ℕ) (t : Table) (before : List (Key × Data)) (e f : Key × Data)
      (es : List (Key × Data))
      → NodupKeys (S.entries s pipe t)
      → S.entries s pipe t ≡ before ++ e ∷ f ∷ es
      → C.next s pipe t e.0 ≡ (success, f ∷ [])
  pub next_deleted :
      (s s' : S.State) (pipe : ℕ) (t : Table) (before : List (Key × Data)) (e f : Key × Data)
      (es : List (Key × Data))
      → NodupKeys (S.entries s pipe t)
      → S.entries s pipe t ≡ before ++ e ∷ f ∷ es
      → S.entry_del s pipe e.0 ≡ (success, s')
      → (C.next s' pipe t e.0 ≡ (success, f ∷ []))
        ⊎ ((check_bf_status (C.next s' pipe t e.0) >>= one_entry) ≡ err runtime_error)
  pub entries_deleted :
      (s s' : S.State) (pipe : ℕ) (t : Table) (before : List (Key × Data)) (e : Key × Data)
      (es : List (Key × Data))
      → NodupKeys (S.entries s pipe t)
      → S.entries s pipe t ≡ before ++ e ∷ es
      → S.entry_del s pipe e.0 ≡ (success, s')
      → S.entries s' pipe t ≡ before ++ es

pub record Iterator : Type 0 where
  pub num_entries : ℕ
  pub pos : ℕ
  pub cur : Option (Key × Data)

checked_success :
    {A : Type 0} (r : Status × A) (a : A) → check_bf_status r ≡ ok a → r ≡ (success, a)
checked_success (success, b) a h = ap (λ c. (success, c)) (ok-inj h)
checked_success (object_not_found, b) a h = cc
checked_success (failed, b) a h = cc

List-cases : {A : Type 0} (l : List A) → (l ≡ []) ⊎ ((e : A) × ((es : List A) × (l ≡ e ∷ es)))
List-cases [] = inl refl
List-cases (e ∷ es) = inr (e, (es, refl))

append_cons :
    {A : Type 0} (before : List A) (e : A) (es : List A)
    → (before ++ e ∷ []) ++ es ≡ before ++ e ∷ es
append_cons [] e es = refl
append_cons (b ∷ before) e es = ap (λ l. b ∷ l) (append_cons before e es)

-- No entry of the table has the key.
abbrev pub NoKey : Key → List (Key × Data) → Type 0
NoKey k = All (λ (e : Key × Data). e.0 ≢ k)

pub All-split :
    (P : Key × Data → Type 0) (before : List (Key × Data)) (e : Key × Data)
    (rest : List (Key × Data))
    → All P (before ++ e ∷ rest)
    → P e × All P (before ++ rest)
All-split P [] e rest h = h
All-split P (b ∷ before) e rest h =
    let later = All-split P before e rest h.1 in (later.0, (h.0, later.1))

-- A row without one of its entries.
pub Nodup-less :
    (before : List (Key × Data)) (e : Key × Data) (rest : List (Key × Data))
    → NodupKeys (before ++ e ∷ rest)
    → NoKey e.0 (before ++ rest) × NodupKeys (before ++ rest)
Nodup-less [] e rest h = h
Nodup-less ((j, d) ∷ before) e rest h =
    let later = Nodup-less before e rest h.1 in
    let split = All-split (λ (x : Key × Data). x.0 ≢ j) before e rest h.0 in
    (((λ q. split.0 (sym q)), later.0), (split.1, later.1))

-- At some state a table had no entry with a key, and the call for the entry behind that key failed or
-- did not give one entry: `r` is the exception.
abbrev pub Lost : (S : Switch) → Cursor S → {A : Type 0} → Result A → Type 0
Lost S C r =
    (s : S.State) × (pipe : ℕ) × (t : Table) × (k : Key) × NoKey k (S.entries s pipe t)
    × ((check_bf_status (C.next s pipe t k) >>= one_entry) ≡ err runtime_error)
    × (r ≡ err runtime_error)

-- The result is the other one, or it is `Lost`.
abbrev pub Agrees : (S : Switch) → Cursor S → {A : Type 0} → Result A → Result A → Type 0
Agrees S C m n = (m ≡ n) ⊎ Lost S C m

module _ (S : Switch) (C : Cursor S) {A B : Type 0} where
  Lost-bind : (m : Result A) (f : A → Result B) → Lost S C m → Lost S C (m >>= f)
  Lost-bind m f (s, pipe, t, k, n, e, r) = (s, pipe, t, k, n, e, ap (λ x. x >>= f) r)

  Agrees-after :
      (m : Result A) (f g : A → Result B)
      → ((a : A) → m ≡ ok a → Agrees S C (f a) (g a))
      → Agrees S C (m >>= f) (m >>= g)
  Agrees-after (ok a) f g h = h a refl
  Agrees-after (err e) f g h = inl refl

  pub Agrees-bind :
      (m n : Result A) (f g : A → Result B)
      → Agrees S C m n
      → ((a : A) → Agrees S C (f a) (g a))
      → Agrees S C (m >>= f) (n >>= g)
  Agrees-bind m n f g (inl e) h =
      subst (λ x. Agrees S C (m >>= f) (x >>= g)) e (Agrees-after m f g (λ a q. h a))
  Agrees-bind m n f g (inr l) h = inr (Lost-bind m f l)

module _ (S : Switch) (C : Cursor S) (pipe : ℕ) (t : Table) where
  -- The constructor.
  unfoldable pub table_iterator : S.State → Result Iterator
  table_iterator s = check_bf_status (C.usage s pipe t) >>= λ n.
      if ltb 0 n
      then (check_bf_status (C.first s pipe t) >>= λ e.
          ok (record { num_entries = n; pos = 0; cur = some e }))
      else ok (record { num_entries = n; pos = 0; cur = none })

  -- `operator++` at an entry with the key `prev_key`. `pos` stays below or at the 32-bit number of the
  -- entries and does not wrap around.
  unfoldable pub step_iterator : S.State → Key → Iterator → Result Iterator
  step_iterator s prev_key it =
      let pos = it.pos + 1 in
      if ltb pos it.num_entries
      then (check_bf_status (C.next s pipe t prev_key) >>= one_entry >>= λ e.
          ok (record { num_entries = it.num_entries; pos = pos; cur = some e }))
      else ok (record { num_entries = it.num_entries; pos = pos; cur = none })

  module _ (rcs : List CollectiveChannel) (nodes : List ℕ) where
    abbrev pub deleted_if_stale : Key × Data → S.State → Result S.State
    deleted_if_stale e s =
        if is_stale rcs nodes e.0 e.1 then check_bf_status (S.entry_del s pipe e.0) else ok s

    -- `for (; i; ++i)` at its current entry, in at most so many rounds.
    unfoldable pub iterate : ℕ → Iterator → Option (Key × Data) → S.State → Result S.State
    iterate fuel it none s = ok s
    iterate zero it (some e) s = err undefined_behaviour
    iterate (suc fuel) it (some e) s = deleted_if_stale e s >>= λ s1.
        step_iterator s1 e.0 it >>= λ it'. iterate fuel it' it'.cur s1

    -- The whole loop.
    unfoldable pub sweep : S.State → Result S.State
    sweep s = table_iterator s >>= λ it. iterate it.num_entries it it.cur s

    -- The loop stands behind an entry, before `es`.
    record Behind (e : Key × Data) (es : List (Key × Data)) (s : S.State) : Type 0 where
      kept : List (Key × Data)
      here : S.entries s pipe t ≡ kept ++ es
      nodup : NodupKeys (S.entries s pipe t)
      following :
          (f : Key × Data) (rest : List (Key × Data))
          → es ≡ f ∷ rest
          → (C.next s pipe t e.0 ≡ (success, f ∷ []))
            ⊎ (NoKey e.0 (S.entries s pipe t)
                × ((check_bf_status (C.next s pipe t e.0) >>= one_entry) ≡ err runtime_error))

    module _ (L : IsOrdered S C) where
      deleted_if_stale-Behind :
          (before : List (Key × Data)) (e : Key × Data) (es : List (Key × Data)) (s s1 : S.State)
          → S.entries s pipe t ≡ before ++ e ∷ es
          → NodupKeys (S.entries s pipe t)
          → deleted_if_stale e s ≡ ok s1
          → Behind e es s1
      deleted_if_stale-Behind before e es s s1 here nodup h =
          elim (Bool-cases (is_stale rcs nodes e.0 e.1)) [
            | inl stale ↦
                let gone = checked_success (S.entry_del s pipe e.0) s1 (rw stale at h) in
                let left = L.entries_deleted s s1 pipe t before e es nodup here gone in
                let less = Nodup-less before e es (subst NodupKeys here nodup) in
                record {
                  kept = before;
                  here = left;
                  nodup = subst NodupKeys (sym left) less.1;
                  following = λ f rest q.
                      elim (L.next_deleted s s1 pipe t before e f rest nodup
                        (here ∙ ap (λ l. before ++ e ∷ l) q) gone) [
                          | inl found ↦ inl found
                          | inr lost ↦ inr (subst (NoKey e.0) (sym left) less.0, lost)
                        ];
                }
            | inr fresh ↦
                let same : s ≡ s1 = ok-inj (rw fresh at h) in
                subst (λ x. Behind e es x) same
                  (record {
                    kept = before ++ e ∷ [];
                    here = here ∙ sym (append_cons before e es);
                    nodup = nodup;
                    following = λ f rest q. inl (
                        L.next_entry s pipe t before e f rest nodup
                          (here ∙ ap (λ l. before ++ e ∷ l) q));
                  })
          ]

      step_iterator-last :
          (s : S.State) (e : Key × Data) (num pos : ℕ)
          → pos + 1 ≡ num
          → step_iterator s e.0 (record { num_entries = num; pos = pos; cur = some e })
            ≡ ok (record { num_entries = num; pos = pos + 1; cur = none })
      unfolding step_iterator
      step_iterator-last s e num pos left = rw (ge→ltb (pos + 1) num (omega arith)) refl

      step_iterator-next :
          (s : S.State) (e f : Key × Data) (num pos : ℕ)
          → pos + 1 < num
          → C.next s pipe t e.0 ≡ (success, f ∷ [])
          → step_iterator s e.0 (record { num_entries = num; pos = pos; cur = some e })
            ≡ ok (record { num_entries = num; pos = pos + 1; cur = some f })
      unfolding step_iterator
      step_iterator-next s e f num pos left next = rw (lt→ltb (pos + 1) num left, next) refl

      now : ℕ → ℕ → Key × Data → Result Iterator
      now num pos f = ok (record { num_entries = num; pos = pos + 1; cur = some f })

      step_iterator-lost :
          (s : S.State) (e : Key × Data) (num pos : ℕ)
          → pos + 1 < num
          → (check_bf_status (C.next s pipe t e.0) >>= one_entry) ≡ err runtime_error
          → step_iterator s e.0 (record { num_entries = num; pos = pos; cur = some e })
            ≡ err runtime_error
      unfolding step_iterator now
      step_iterator-lost s e num pos left lost =
          rw (lt→ltb (pos + 1) num left)
            (ap (λ (m : Result (Key × Data)). m >>= λ f. now num pos f) lost)

      -- From the entry `e` on, behind those that were kept.
      iterate-Agrees :
          (before : List (Key × Data)) (e : Key × Data) (es : List (Key × Data)) (num pos : ℕ)
          (s : S.State)
          → pos + suc (length es) ≡ num
          → S.entries s pipe t ≡ before ++ e ∷ es
          → NodupKeys (S.entries s pipe t)
          → Agrees S C
              (iterate
                (suc (length es))
                (record { num_entries = num; pos = pos; cur = some e })
                (some e)
                s)
              (delete_stale S rcs nodes pipe (e ∷ es) s)
      unfolding iterate delete_stale
      iterate-Agrees before e [] num pos s left here nodup =
          Agrees-after S C (deleted_if_stale e s) _ _
            (λ s1 q. inl (rw (step_iterator-last s1 e num pos (omega arith)) refl))
      iterate-Agrees before e (f ∷ es) num pos s left here nodup =
          Agrees-after S C (deleted_if_stale e s) _ _ (λ s1 q.
            let b = deleted_if_stale-Behind before e (f ∷ es) s s1 here nodup q in
            elim (b.following f es refl) [
              | inl found ↦
                  rw (step_iterator-next s1 e f num pos (omega arith) found)
                    (iterate-Agrees b.kept f es num (pos + 1) s1 (omega arith) b.here b.nodup)
              | inr (absent, lost) ↦ inr (
                s1,
                pipe,
                t,
                e.0,
                absent,
                lost,
                rw (step_iterator-lost s1 e num pos (omega arith) lost) refl,
              )
            ])

      pub sweep-Agrees :
          (s : S.State)
          → NodupKeys (S.entries s pipe t)
          → Agrees S C (sweep s) (delete_stale S rcs nodes pipe (S.entries s pipe t) s)
      unfolding sweep table_iterator iterate delete_stale
      sweep-Agrees s nodup = elim (List-cases (S.entries s pipe t)) [
        | inl none_left ↦ inl (rw (L.usage_entries s pipe t, none_left) refl)
        | inr (e, (es, here)) ↦
            let count : length (S.entries s pipe t) ≡ suc (length es) =
              ap (λ (l : List (Key × Data)). length l) here in
            rw
              (
                L.usage_entries s pipe t,
                count,
                lt→ltb 0 (suc (length es)) (omega arith),
                L.first_entry s pipe t e es here,
                here,
              )
              (iterate-Agrees [] e es (suc (length es)) 0 s (omega arith) here nodup)
      ]

-- The driver, each loop over a table with table_iterator.
unfoldable pub on_st_repo_channels :
    (S : Switch) → Cursor S → List CollectiveChannel → S.State → Result S.State
on_st_repo_channels S C = follow_channels S (λ rcs nodes pipe t. sweep S C pipe t rcs nodes)
