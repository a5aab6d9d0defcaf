-- ===== src/AsicDriver/Sweeping.antt =====
-- The loops of `on_st_repo_channels` that delete the stale entries of one table.
use native.Mathlib.Decide.{ℕ_discrete}
use mpitofino.Prelude.{
  ℕ, ◌≡◌, ◌≢◌, sym, ◌∙◌, subst, true, false, ◌⊎◌, inl, inr, none, some, List, [], ◌∷◌, Returns,
  Returns-bind, Returns-imp, All, Bool-cases, Option-cases,
}
use mpitofino.Prelude.OrderedMap.{some-inj}
use mpitofino.StateRepository.{CollectiveChannel}
use mpitofino.AsicDriver.Tables.{
  Key, Key-discrete, Data, Table, register_table, table_of, Switch, IsLawful, Deleted, AllPresent,
  NodupKeys, Listed, check_bf_status, Returns-checked,
}
use mpitofino.AsicDriver.Sync.{is_stale, delete_stale, clean_table}

none-some : {A : Type 0} {a : A} → none ≡ some a → ⊥
none-some e = cc

true-false : true ≡ false → ⊥
true-false e = cc

module _ (S : Switch) where
  -- What a deletion does, read at any entry.
  Deleted-less :
      (s : S.State) (pipe : ℕ) (key : Key) (s' : S.State)
      → Deleted S s pipe key s'
      → (q : ℕ) (j : Key) (d : Data) → S.get s' q j ≡ some d
      → S.get s q j ≡ some d
  Deleted-less s pipe key s' h q j d e = elim (ℕ_discrete q pipe) [
    | no n ↦ sym (h.elsewhere q j (inl n)) ∙ e
    | yes p ↦ elim (Key-discrete j key) [
      | no n ↦ sym (h.elsewhere q j (inr n)) ∙ e
      | yes k ↦ absurd (none-some {a = d} (sym h.here ∙ rw (sym p, sym k) e))
    ]
  ]

  AllPresent-Deleted :
      (s : S.State) (pipe : ℕ) (key : Key) (s' : S.State) (es : List (Key × Data))
      → Deleted S s pipe key s'
      → All (λ (e : Key × Data). e.0 ≢ key) es
      → AllPresent S s pipe es
      → AllPresent S s' pipe es
  AllPresent-Deleted s pipe key s' [] h a p = tt
  AllPresent-Deleted s pipe key s' ((k, d) ∷ es) h a p =
      (h.elsewhere pipe k (inr a.0) ∙ p.0, AllPresent-Deleted s pipe key s' es h a.1 p.1)

  module _ (rcs : List CollectiveChannel) (nodes : List ℕ) (pipe : ℕ) where
    -- The stale ones of `es` are gone, nothing is new, and nothing else is lost.
    pub record Sweeps (es : List (Key × Data)) (s s' : S.State) : Type 0 where
      pub gone :
          (k : Key) (d : Data)
          → Listed k d es
          → is_stale rcs nodes k d ≡ true
          → S.get s' pipe k ≡ none
      pub less : (q : ℕ) (j : Key) (d : Data) → S.get s' q j ≡ some d → S.get s q j ≡ some d
      pub kept :
          (q : ℕ) (j : Key) (d : Data)
          → S.get s q j ≡ some d
          → (q ≢ pipe) ⊎ (is_stale rcs nodes j d ≡ false)
          → S.get s' q j ≡ some d

    Sweeps-keep :
        (key : Key) (value : Data) (es : List (Key × Data)) (s s' : S.State)
        → is_stale rcs nodes key value ≡ false
        → Sweeps es s s'
        → Sweeps ((key, value) ∷ es) s s'
    Sweeps-keep key value es s s' f h = record {
      gone = λ k d. gone_later k d;
      less = h.less;
      kept = h.kept;
    }
      where
        gone_later :
            (k : Key) (d : Data)
            → Listed k d ((key, value) ∷ es)
            → is_stale rcs nodes k d ≡ true
            → S.get s' pipe k ≡ none
        gone_later k d (inl e) t = absurd (true-false (sym t ∙ rw (sym e.0, sym e.1) f))
        gone_later k d (inr l) t = h.gone k d l t

    -- The entry that is deleted is present before, so no other value stood under its key.
    Sweeps-delete :
        (key : Key) (value : Data) (es : List (Key × Data)) (s s1 s' : S.State)
        → is_stale rcs nodes key value ≡ true
        → S.get s pipe key ≡ some value
        → Deleted S s pipe key s1
        → Sweeps es s1 s'
        → Sweeps ((key, value) ∷ es) s s'
    Sweeps-delete key value es s s1 s' t p del h = record {
      gone = λ k d. gone_now k d;
      less = λ q j d e. Deleted-less s pipe key s1 del q j d (h.less q j d e);
      kept = λ q j d e o. h.kept q j d (before q j d e o) o;
    }
      where
        gone_now :
            (k : Key) (d : Data)
            → Listed k d ((key, value) ∷ es)
            → is_stale rcs nodes k d ≡ true
            → S.get s' pipe k ≡ none
        gone_now k d (inr l) u = h.gone k d l u
        gone_now k d (inl e) u = elim (Option-cases (S.get s' pipe k)) [
          | inl n ↦ n
          | inr (x, y) ↦ absurd (none-some {a = x} (sym del.here ∙ rw e.0 (h.less pipe k x y)))
        ]

        before :
            (q : ℕ) (j : Key) (d : Data)
            → S.get s q j ≡ some d
            → (q ≢ pipe) ⊎ (is_stale rcs nodes j d ≡ false)
            → S.get s1 q j ≡ some d
        before q j d e (inl n) = del.elsewhere q j (inl n) ∙ e
        before q j d e (inr f) = elim (Key-discrete j key) [
          | no n ↦ del.elsewhere q j (inr n) ∙ e
          | yes k ↦ elim (ℕ_discrete q pipe) [
            | no n ↦ del.elsewhere q j (inl n) ∙ e
            | yes m ↦
                let same : d ≡ value = some-inj (sym e ∙ rw (m, k) p) in
                absurd (true-false (sym t ∙ rw (sym k, sym same) f))
          ]
        ]

    module _ (L : IsLawful S) where
      pub delete_stale-Sweeps :
          (es : List (Key × Data)) (s : S.State)
          → NodupKeys es
          → AllPresent S s pipe es
          → Returns (Sweeps es s) (delete_stale S rcs nodes pipe es s)
      unfolding delete_stale
      delete_stale-Sweeps [] s n p = record {
        gone = λ k d l t. absurd l;
        less = λ q j d e. e;
        kept = λ q j d e o. e;
      }
      delete_stale-Sweeps ((key, value) ∷ es) s n p =
          elim (Bool-cases (is_stale rcs nodes key value)) [
            | inr f ↦ rw f (
                Returns-imp (Sweeps es s) (Sweeps ((key, value) ∷ es) s)
                  (delete_stale S rcs nodes pipe es s) (delete_stale-Sweeps es s n.1 p.1)
                  (λ s' h. Sweeps-keep key value es s s' f h))
            | inl t ↦ rw t (
                Returns-bind (Deleted S s pipe key) (Sweeps ((key, value) ∷ es) s)
                  (check_bf_status (S.entry_del s pipe key)) _
                  (Returns-checked S (Deleted S s pipe key) (S.entry_del s pipe key)
                    (L.del_present s pipe key value p.0))
                  (λ s1 del.
                    Returns-imp (Sweeps es s1) (Sweeps ((key, value) ∷ es) s)
                      (delete_stale S rcs nodes pipe es s1)
                      (delete_stale-Sweeps es s1 n.1
                        (AllPresent-Deleted s pipe key s1 es del n.0 p.1))
                      (λ s' h. Sweeps-delete key value es s s1 s' t p.0 del h)))
          ]

-- No stale entry of the table is left.
abbrev pub Cleared : (S : Switch) → List CollectiveChannel → List ℕ → ℕ → Table → S.State → Type 0
Cleared S rcs nodes pipe t s =
    (k : Key) (d : Data) → table_of k ≡ t → S.get s pipe k ≡ some d → is_stale rcs nodes k d ≡ false

-- An entry that no loop deletes, whatever nodes are in use.
abbrev pub Stays : List CollectiveChannel → Key → Data → Type 0
Stays rcs k d = (nodes : List ℕ) → is_stale rcs nodes k d ≡ false

-- The tables, but for the registers, have lost entries at most, and none that stays.
pub record Trims (S : Switch) (rcs : List CollectiveChannel) (s s' : S.State) : Type 0 where
  pub less :
      (q : ℕ) (j : Key) (d : Data)
      → table_of j ≢ register_table
      → S.get s' q j ≡ some d
      → S.get s q j ≡ some d
  pub kept :
      (q : ℕ) (j : Key) (d : Data)
      → table_of j ≢ register_table
      → Stays rcs j d
      → S.get s q j ≡ some d
      → S.get s' q j ≡ some d

module _ (S : Switch) (rcs : List CollectiveChannel) where
  pub Trims-refl : (s : S.State) → Trims S rcs s s
  Trims-refl s = record { less = λ q j d n e. e; kept = λ q j d n st e. e }

  pub Trims-trans : (s s1 s' : S.State) → Trims S rcs s s1 → Trims S rcs s1 s' → Trims S rcs s s'
  Trims-trans s s1 s' a b = record {
    less = λ q j d n e. a.less q j d n (b.less q j d n e);
    kept = λ q j d n st e. b.kept q j d n st (a.kept q j d n st e);
  }

  pub Cleared-Trims :
      (nodes : List ℕ) (pipe : ℕ) (t : Table) (s s' : S.State)
      → t ≢ register_table
      → Trims S rcs s s'
      → Cleared S rcs nodes pipe t s
      → Cleared S rcs nodes pipe t s'
  Cleared-Trims nodes pipe t s s' n h c k d e g = c k d e (h.less pipe k d (λ r. n (sym e ∙ r)) g)

  module _ (L : IsLawful S) (nodes : List ℕ) (pipe : ℕ) (t : Table) (s : S.State) where
    Cleared-Sweeps :
        (s' : S.State)
        → Sweeps S rcs nodes pipe (S.entries s pipe t) s s'
        → Cleared S rcs nodes pipe t s'
    Cleared-Sweeps s' h k d e g = elim (Bool-cases (is_stale rcs nodes k d)) [
      | inr f ↦ f
      | inl u ↦
          let listed : Listed k d (S.entries s pipe t) =
            subst (λ x. Listed k d (S.entries s pipe x)) e
              (L.entries_complete s pipe k d (h.less pipe k d g)) in
          absurd (none-some (sym (h.gone k d listed u) ∙ g))
    ]

    -- A loop over a table never throws. It leaves no stale entry of its table, and takes no other.
    pub clean_table-Cleared :
        Returns
          (λ s'. Trims S rcs s s' × Cleared S rcs nodes pipe t s')
          (clean_table S rcs nodes pipe t s)
    clean_table-Cleared =
        Returns-imp (Sweeps S rcs nodes pipe (S.entries s pipe t) s)
          (λ s'. Trims S rcs s s' × Cleared S rcs nodes pipe t s')
          (clean_table S rcs nodes pipe t s)
          (delete_stale-Sweeps S rcs nodes pipe L (S.entries s pipe t) s
            (L.entries-NodupKeys s pipe t) (L.entries-AllPresent s pipe t))
          (λ s' h. (
            record {
              less = λ q j d n e. h.less q j d e;
              kept = λ q j d n st e. h.kept q j d e (inr (st nodes));
            },
            Cleared-Sweeps s' h,
          ))
