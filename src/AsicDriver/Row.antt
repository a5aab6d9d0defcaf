-- ===== src/AsicDriver/Row.antt =====
-- One table in memory as a row of entries, which remembers what stood behind the entry deleted last.
use mpitofino.Prelude.{
  ◌≡◌, ◌≢◌, inl, refl, sym, ap, ◌∙◌, subst, Bool, true, false, Option, none, some, List, [], ◌∷◌,
  ◌++◌, if◌then◌else◌, length, All,
}
use mpitofino.AsicDriver.Tables.{
  Key, Key-discrete, Data, Switch, Status, success, object_not_found, NodupKeys,
}
use mpitofino.AsicDriver.Iterator.{Cursor, IsOrdered, All-split}
use mpitofino.AsicDriver.Memory.Listing.{holds, holds-yes, holds-no}

pub record Row : Type 0 where
  pub live : List (Key × Data)
  pub behind_deleted : List (Key × Data)

unfoldable pub value_of : Key → List (Key × Data) → Option Data
value_of k [] = none
value_of k ((j, d) ∷ es) = if holds (Key-discrete j k) then some d else value_of k es

unfoldable pub has_key : Key → List (Key × Data) → Bool
has_key k [] = false
has_key k ((j, d) ∷ es) = if holds (Key-discrete j k) then true else has_key k es

unfoldable pub after_key : Key → List (Key × Data) → List (Key × Data)
after_key k [] = []
after_key k ((j, d) ∷ es) =
    let rest = after_key k es in if holds (Key-discrete j k) then es else rest

unfoldable pub less_first : Key → List (Key × Data) → List (Key × Data)
less_first k [] = []
less_first k ((j, d) ∷ es) =
    let rest = less_first k es in if holds (Key-discrete j k) then es else (j, d) ∷ rest

-- A row split at an entry.
record Parted (before : List (Key × Data)) (e : Key × Data) (rest : List (Key × Data))
    : Type 0 where
  has : has_key e.0 (before ++ e ∷ rest) ≡ true
  after : after_key e.0 (before ++ e ∷ rest) ≡ rest
  less : less_first e.0 (before ++ e ∷ rest) ≡ before ++ rest
  gone : has_key e.0 (before ++ rest) ≡ false
  nodup : NodupKeys (before ++ rest)

has_key-absent :
    (k : Key) (es : List (Key × Data)) → All (λ (e : Key × Data). e.0 ≢ k) es → has_key k es ≡ false
unfolding has_key
has_key-absent k [] h = refl
has_key-absent k ((j, d) ∷ es) h = rw (holds-no (Key-discrete j k) h.0) (has_key-absent k es h.1)

Parted-nodup :
    (before : List (Key × Data)) (e : Key × Data) (rest : List (Key × Data))
    → NodupKeys (before ++ e ∷ rest)
    → Parted before e rest
unfolding has_key after_key less_first
Parted-nodup [] e rest h =
    let same = holds-yes (Key-discrete e.0 e.0) refl in
    record {
      has = rw same refl;
      after = rw same refl;
      less = rw same refl;
      gone = has_key-absent e.0 rest h.0;
      nodup = h.1;
    }
Parted-nodup ((j, d) ∷ before) e rest h =
    let later = Parted-nodup before e rest h.1 in
    let split = All-split (λ (x : Key × Data). x.0 ≢ j) before e rest h.0 in
    let other = holds-no (Key-discrete j e.0) (λ q. split.0 (sym q)) in
    record {
      has = rw other later.has;
      after = rw other later.after;
      less = rw other (ap (λ l. (j, d) ∷ l) later.less);
      gone = rw other later.gone;
      nodup = (split.1, later.nodup);
    }

abbrev deleted_row : Row → Key → Bool → Status × Row
deleted_row s k true =
    (success, record { live = less_first k s.live; behind_deleted = after_key k s.live })
deleted_row s k false = (object_not_found, s)

abbrev pub row_switch : Switch
row_switch = record {
  State = Row;
  get = λ s pipe key. value_of key s.live;
  entry_mod = λ s pipe key value.
      if has_key key s.live
      then (success, record s { live = (key, value) ∷ less_first key s.live })
      else (object_not_found, s);
  entry_add = λ s pipe key value. (success, record s { live = (key, value) ∷ s.live });
  entry_del = λ s pipe key. deleted_row s key (has_key key s.live);
  entries = λ s pipe t. s.live;
}

abbrev one_of : List (Key × Data) → List (Key × Data)
one_of [] = []
one_of (e ∷ es) = e ∷ []

abbrev front : List (Key × Data) → Status × (Key × Data) → Status × (Key × Data)
front [] unset = unset
front (e ∷ es) unset = (success, e)

abbrev pub row_cursor : (Key × Data) → Cursor row_switch
row_cursor unset = record {
  usage = λ s pipe t. (success, length s.live);
  first = λ s pipe t. front s.live (object_not_found, unset);
  next = λ s pipe t key.
      (success, one_of (if has_key key s.live then after_key key s.live else s.behind_deleted));
}

deleted_row-live :
    (s s' : Row) (before : List (Key × Data)) (e : Key × Data) (es : List (Key × Data))
    → NodupKeys s.live
    → s.live ≡ before ++ e ∷ es
    → deleted_row s e.0 (has_key e.0 s.live) ≡ (success, s')
    → (s'.live ≡ before ++ es) × (s'.behind_deleted ≡ es)
deleted_row-live s s' before e es nodup here h =
    let parted = Parted-nodup before e es (subst NodupKeys here nodup) in
    let has : has_key e.0 s.live ≡ true = rw here parted.has in
    let q : record { live = less_first e.0 s.live; behind_deleted = after_key e.0 s.live } ≡ s' =
      ap (λ (r : Status × Row). r.1) (rw has at h) in
    (
      sym (ap (λ (r : Row). r.live) q) ∙ (ap (λ l. less_first e.0 l) here ∙ parted.less),
      sym (ap (λ (r : Row). r.behind_deleted) q) ∙ (ap (λ l. after_key e.0 l) here ∙ parted.after),
    )

pub row_cursor-IsOrdered : (unset : Key × Data) → IsOrdered row_switch (row_cursor unset)
row_cursor-IsOrdered unset = record {
  usage_entries = λ s pipe t. refl;
  first_entry = λ s pipe t e es here. rw here refl;
  next_entry = λ s pipe t before e f es nodup here.
      let parted = Parted-nodup before e (f ∷ es) (subst NodupKeys here nodup) in
      rw (here, parted.has, parted.after) refl;
  next_deleted = λ s s' pipe t before e f es nodup here h.
      let parted = Parted-nodup before e (f ∷ es) (subst NodupKeys here nodup) in
      let left = deleted_row-live s s' before e (f ∷ es) nodup here h in
      inl (rw (left.0, parted.gone, left.1) refl);
  entries_deleted =
      λ s s' pipe t before e es nodup here h. (deleted_row-live s s' before e es nodup here h).0;
}
