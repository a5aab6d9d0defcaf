-- ===== src/AsicDriver/Tables.antt =====
-- The tables of the chip, as sd/asic_driver.cc names their keys and actions, and the helpers of
-- sd/bfrt_tools.h. The run-time library itself is a parameter.
use native.Mathlib.Decide.{ℕ_discrete}
use mpitofino.Prelude.{
  ℕ, ◌≡◌, ◌≢◌, Bool, ◌⊎◌, Option, none, some, List, [], ◌∷◌, Result, ok, err, runtime_error,
  Returns, All, Option-cases, inl, inr,
}
use mpitofino.SimpleTypes.{MacAddr, IPv4Addr}

-- A field that matches under a mask.
pub record Ternary : Type 0 where
  pub value : ℕ
  pub mask : ℕ

pub data Key : Type 0 where
  unit_selector : Ternary → ℕ → Ternary → Ternary → Key
  check_complete : ℕ → Ternary → Ternary → Bool → Key
  output_address : ℕ → ℕ → Key
  roce_ack_reflector : ℕ → ℕ → Key
  choose_action : ℕ → ℕ → Bool → Key
  pre_mgid : ℕ → Key
  pre_node : ℕ → Key
  switching_table : MacAddr → Key
  switching_table_src : MacAddr → MacAddr → Ternary → Key
  agg_values : ℕ → ℕ → Key
  state_bitmaps_low : ℕ → Key
  state_bitmaps_high : ℕ → Key

pub Ternary-discrete : Discrete Ternary
Ternary-discrete = hlevel ℕ_discrete

pub MacAddr-discrete : Discrete MacAddr
MacAddr-discrete = hlevel ℕ_discrete

pub Key-discrete : Discrete Key
Key-discrete = hlevel (ℕ_discrete, Ternary-discrete, MacAddr-discrete)

pub data Data : Type 0 where
  select_agg_unit : ℕ → ℕ → ℕ → Data
  check_complete_true : ℕ → Data
  check_complete_next_pipe : ℕ → Data
  check_complete_distribute : ℕ → Data
  output_address_set : MacAddr → MacAddr → IPv4Addr → IPv4Addr → ℕ → Data
  roce_ack_reflect : ℕ → Data
  agg_int_32_add agg_int_32_clear : Data
  multicast_group : List ℕ → Bool → List ℕ → Data
  multicast_node : ℕ → ℕ → Data
  send : ℕ → Data
  bcast collective : Data
  no_action : Option ℕ → Data
  register_value : ℕ → Data

pub data Table : Type 0 where
  unit_selector_table check_complete_table output_address_table roce_ack_reflector_table : Table
  choose_action_table : ℕ → Table
  pre_mgid_table pre_node_table switching_table_table switching_table_src_table : Table
  register_table : Table

abbrev pub table_of : Key → Table
table_of (unit_selector _ _ _ _) = unit_selector_table
table_of (check_complete _ _ _ _) = check_complete_table
table_of (output_address _ _) = output_address_table
table_of (roce_ack_reflector _ _) = roce_ack_reflector_table
table_of (choose_action i _ _) = choose_action_table i
table_of (pre_mgid _) = pre_mgid_table
table_of (pre_node _) = pre_node_table
table_of (switching_table _) = switching_table_table
table_of (switching_table_src _ _ _) = switching_table_src_table
table_of (agg_values _ _) = register_table
table_of (state_bitmaps_low _) = register_table
table_of (state_bitmaps_high _) = register_table

-- `BF_DEV_PIPE_ALL`.
abbrev pub all_pipes : ℕ
all_pipes = 65535

pub data Status : Type 0 where
  success object_not_found failed : Status

-- The run-time library: a table entry is found by its pipe, or `all_pipes`, and its key. `entries` is
-- what an iterator over a table yields.
pub record Switch : Type 1 where
  pub State : Type 0
  pub get : State → ℕ → Key → Option Data
  pub entry_mod : State → ℕ → Key → Data → Status × State
  pub entry_add : State → ℕ → Key → Data → Status × State
  pub entry_del : State → ℕ → Key → Status × State
  pub entries : State → ℕ → Table → List (Key × Data)

abbrev pub check_bf_status {ℓ} : {A : Type ℓ} → Status × A → Result A
check_bf_status (success, a) = ok a
check_bf_status (object_not_found, a) = err runtime_error
check_bf_status (failed, a) = err runtime_error

module _ (S : Switch) where
  abbrev added_if_missing : ℕ → Key → Data → Status × S.State → Status × S.State
  added_if_missing pipe key value (success, s) = (success, s)
  added_if_missing pipe key value (object_not_found, s) = S.entry_add s pipe key value
  added_if_missing pipe key value (failed, s) = (failed, s)

  unfoldable pub table_add_or_mod : S.State → ℕ → Key → Data → Status × S.State
  table_add_or_mod s pipe key value = added_if_missing pipe key value (S.entry_mod s pipe key value)

  -- The entry is there, and no other has changed.
  pub record Written (s : S.State) (pipe : ℕ) (key : Key) (value : Data) (s' : S.State)
      : Type 0 where
    pub here : S.get s' pipe key ≡ some value
    pub elsewhere : (q : ℕ) (j : Key) → (q ≢ pipe) ⊎ (j ≢ key) → S.get s' q j ≡ S.get s q j

  -- The entry is gone, and no other has changed.
  pub record Deleted (s : S.State) (pipe : ℕ) (key : Key) (s' : S.State) : Type 0 where
    pub here : S.get s' pipe key ≡ none
    pub elsewhere : (q : ℕ) (j : Key) → (q ≢ pipe) ⊎ (j ≢ key) → S.get s' q j ≡ S.get s q j

  abbrev pub AllPresent : S.State → ℕ → List (Key × Data) → Type 0
  AllPresent s pipe [] = Unit
  AllPresent s pipe ((k, d) ∷ es) = (S.get s pipe k ≡ some d) × AllPresent s pipe es

  abbrev pub Succeeds : (S.State → Type 0) → Status × S.State → Type 0
  Succeeds P (success, s) = P s
  Succeeds P (object_not_found, s) = ⊥
  Succeeds P (failed, s) = ⊥

abbrev pub Listed : Key → Data → List (Key × Data) → Type 0
Listed key value [] = ⊥
Listed key value ((k, d) ∷ es) = ((k ≡ key) × (d ≡ value)) ⊎ Listed key value es

-- No key stands twice.
abbrev pub NodupKeys : List (Key × Data) → Type 0
NodupKeys [] = Unit
NodupKeys ((k, d) ∷ es) = All (λ (e : Key × Data). e.0 ≢ k) es × NodupKeys es

-- The documented behaviour of the library, for tables that have room.
pub record IsLawful (S : Switch) : Type 0 where
  pub mod_present :
      (s : S.State) (pipe : ℕ) (key : Key) (value old : Data)
      → S.get s pipe key ≡ some old
      → Succeeds S (Written S s pipe key value) (S.entry_mod s pipe key value)
  pub mod_absent :
      (s : S.State) (pipe : ℕ) (key : Key) (value : Data)
      → S.get s pipe key ≡ none
      → table_of key ≢ register_table
      → S.entry_mod s pipe key value ≡ (object_not_found, s)
  pub mod_register :
      (s : S.State) (pipe : ℕ) (key : Key) (value : Data)
      → table_of key ≡ register_table
      → Succeeds S (Written S s pipe key value) (S.entry_mod s pipe key value)
  pub add_absent :
      (s : S.State) (pipe : ℕ) (key : Key) (value : Data)
      → S.get s pipe key ≡ none
      → Succeeds S (Written S s pipe key value) (S.entry_add s pipe key value)
  pub del_present :
      (s : S.State) (pipe : ℕ) (key : Key) (old : Data)
      → S.get s pipe key ≡ some old
      → Succeeds S (Deleted S s pipe key) (S.entry_del s pipe key)
  pub del_absent :
      (s : S.State) (pipe : ℕ) (key : Key)
      → S.get s pipe key ≡ none
      → S.entry_del s pipe key ≡ (object_not_found, s)
  pub entries-NodupKeys : (s : S.State) (pipe : ℕ) (t : Table) → NodupKeys (S.entries s pipe t)
  pub entries-AllPresent :
      (s : S.State) (pipe : ℕ) (t : Table) → AllPresent S s pipe (S.entries s pipe t)
  pub entries_complete :
      (s : S.State) (pipe : ℕ) (key : Key) (value : Data)
      → S.get s pipe key ≡ some value
      → Listed key value (S.entries s pipe (table_of key))

module _ (S : Switch) where
  Returns-added :
      (P : S.State → Type 0) (pipe : ℕ) (key : Key) (value : Data) (r : Status × S.State)
      → Succeeds S P r
      → Returns P (check_bf_status (added_if_missing S pipe key value r))
  Returns-added P pipe key value (success, s) h = h
  Returns-added P pipe key value (object_not_found, s) h = absurd h
  Returns-added P pipe key value (failed, s) h = absurd h

  pub Returns-checked :
      (P : S.State → Type 0) (r : Status × S.State) → Succeeds S P r → Returns P (check_bf_status r)
  Returns-checked P (success, s) h = h
  Returns-checked P (object_not_found, s) h = absurd h
  Returns-checked P (failed, s) h = absurd h

module _ (S : Switch) (L : IsLawful S) where
  -- Whether the entry was there before or not, it is there afterwards, and no other has changed.
  pub table_add_or_mod-Written :
      (s : S.State) (pipe : ℕ) (key : Key) (value : Data)
      → table_of key ≢ register_table
      → Returns (Written S s pipe key value) (check_bf_status (table_add_or_mod S s pipe key value))
  unfolding table_add_or_mod
  table_add_or_mod-Written s pipe key value n = elim (Option-cases (S.get s pipe key)) [
    | inr (old, e) ↦
        Returns-added S (Written S s pipe key value) pipe key value (S.entry_mod s pipe key value)
          (L.mod_present s pipe key value old e)
    | inl e ↦ rw (L.mod_absent s pipe key value e n) (
        Returns-checked S (Written S s pipe key value) (S.entry_add s pipe key value)
          (L.add_absent s pipe key value e))
  ]
