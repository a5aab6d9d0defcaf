-- ===== src/AsicDriver/Memory.antt =====
-- A chip in memory: the run-time library's documented behaviour with tables that never fill.
pub mod Listing
pub mod Cursor
use mpitofino.Prelude.{
  ℕ, ◌≡◌, ◌≢◌, refl, sym, ap, Bool, true, false, ◌⊎◌, inl, inr, Option, none, some, List, [], ◌∷◌,
  if◌then◌else◌, All,
}
use mpitofino.AsicDriver.Tables.{
  Key, Data, Table, register_table, table_of, Switch, IsLawful, Written, Deleted, AllPresent,
  Status, success, object_not_found, Succeeds,
}
use Listing.{
  Entry, Table-discrete, holds, holds-yes, holds-no, look, look-yes, look-no, without,
  look-without_self, look-without_ne, listing, NodupKeys-listing, Found, Found-listing,
  Listed-listing,
}

-- A register is there without an entry.
abbrev modified : List Entry → ℕ → Key → Data → Option Data → Status × List Entry
modified es pipe key value (some old) = (success, ((pipe, key), value) ∷ es)
modified es pipe key value none =
    if holds (Table-discrete (table_of key) register_table)
    then (success, ((pipe, key), value) ∷ es)
    else (object_not_found, es)

abbrev pub removed : List Entry → ℕ → Key → Option Data → Status × List Entry
removed es pipe key (some old) = (success, without es (pipe, key))
removed es pipe key none = (object_not_found, es)

abbrev pub memory_switch : Switch
memory_switch = record {
  State = List Entry;
  get = λ es pipe key. look es (pipe, key);
  entry_mod = λ es pipe key value. modified es pipe key value (look es (pipe, key));
  entry_add = λ es pipe key value. (success, ((pipe, key), value) ∷ es);
  entry_del = λ es pipe key. removed es pipe key (look es (pipe, key));
  entries = λ es pipe t. listing pipe t es;
}

AllPresent-Found :
    (es : List Entry) (pipe : ℕ) (t : Table) (l : List (Key × Data))
    → All (Found es pipe t) l
    → AllPresent memory_switch es pipe l
AllPresent-Found es pipe t [] h = tt
AllPresent-Found es pipe t ((k, d) ∷ l) h = (h.0.0, AllPresent-Found es pipe t l h.1)

apart : (q pipe : ℕ) (j key : Key) → (q ≢ pipe) ⊎ (j ≢ key) → ◌≢◌ {A = ℕ × Key} (pipe, key) (q, j)
apart q pipe j key (inl n) e = n (sym (ap (λ (p : ℕ × Key). p.0) e))
apart q pipe j key (inr n) e = n (sym (ap (λ (p : ℕ × Key). p.1) e))

module _ (es : List Entry) (pipe : ℕ) (key : Key) where
  Written-memory :
      (value : Data) → Written memory_switch es pipe key value (((pipe, key), value) ∷ es)
  Written-memory value = record {
    here = look-yes (pipe, key) (pipe, key) value es refl;
    elsewhere = λ q j n. look-no (pipe, key) (q, j) value es (apart q pipe j key n);
  }

  Deleted-memory : Deleted memory_switch es pipe key (without es (pipe, key))
  Deleted-memory = record {
    here = look-without_self (pipe, key) es;
    elsewhere = λ q j n. look-without_ne (q, j) (pipe, key) es (λ e. apart q pipe j key n (sym e));
  }

  Succeeds-register :
      (value : Data) (o : Option Data)
      → table_of key ≡ register_table
      → Succeeds memory_switch
          (Written memory_switch es pipe key value)
          (modified es pipe key value o)
  Succeeds-register value (some old) e = Written-memory value
  Succeeds-register value none e =
      rw (holds-yes (Table-discrete (table_of key) register_table) e) (Written-memory value)

-- It meets the assumptions.
pub memory_switch-IsLawful : IsLawful memory_switch
memory_switch-IsLawful = record {
  mod_present = λ s pipe key value old e. rw e (Written-memory s pipe key value);
  mod_absent = λ s pipe key value e n.
      rw e (rw (holds-no (Table-discrete (table_of key) register_table) n) refl);
  mod_register = λ s pipe key value e. Succeeds-register s pipe key value (look s (pipe, key)) e;
  add_absent = λ s pipe key value e. Written-memory s pipe key value;
  del_present = λ s pipe key old e. rw e (Deleted-memory s pipe key);
  del_absent = λ s pipe key e. rw e refl;
  entries-NodupKeys = λ s pipe t. NodupKeys-listing pipe t s;
  entries-AllPresent =
      λ s pipe t. AllPresent-Found s pipe t (listing pipe t s) (Found-listing pipe t s);
  entries_complete = λ s pipe key value e. Listed-listing pipe key value s e;
}
