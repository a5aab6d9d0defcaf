-- ===== src/AsicDriver/Stations.antt =====
-- The stations of the Ethernet switch: learnt with their port, and forgotten when they are idle.
use native.Mathlib.Decide.{ℕ_discrete}
use mpitofino.Prelude.{
  ℕ, ◌≡◌, ◌≢◌, refl, sym, ap, ◌∙◌, inr, Option, none, some, List, [], ◌∷◌, err, ◌>>=◌,
  runtime_error, Returns, Returns-bind, Returns-imp, Returns-ok, All,
}
use mpitofino.SimpleTypes.{MacAddr}
use mpitofino.AsicDriver.Tables.{
  Key, Key-discrete, MacAddr-discrete, switching_table, Data, send, no_action, Switch, IsLawful,
  Deleted, success, check_bf_status, Returns-checked, all_pipes,
}
use mpitofino.AsicDriver.Plan.{Write}
use mpitofino.AsicDriver.Workers.{Tabular}
use mpitofino.AsicDriver.Programmed.{
  overwritten, overwritten_if, last_written, write_entries-last_written,
}
use mpitofino.AsicDriver.Sync.{write_entries}
use mpitofino.AsicDriver.Learning.{
  Digest, source_key, source_write, switching_write, learn_writes, eth_switch_learn_cb,
  eth_switch_idle_cb,
}

overwritten_if-same :
    {P Q : Type 0} (d : Dec P) (e : Dec Q) (value : Data) (old : Option Data)
    → P
    → Q
    → overwritten_if d e value old ≡ some value
overwritten_if-same (yes _) (yes _) value old p q = refl
overwritten_if-same (yes _) (no n) value old p q = absurd (n q)
overwritten_if-same (no n) e value old p q = absurd (n p)

overwritten_if-other :
    {P Q : Type 0} (d : Dec P) (e : Dec Q) (value : Data) (old : Option Data)
    → (Q → ⊥)
    → overwritten_if d e value old ≡ old
overwritten_if-other (yes _) (yes q) value old n = absurd (n q)
overwritten_if-other (yes _) (no _) value old n = refl
overwritten_if-other (no _) e value old n = refl

switching_table-inj : {a b : MacAddr} → switching_table a ≡ switching_table b → a ≡ b
switching_table-inj e = cc

source_key-inj : {a b : MacAddr} {p q : ℕ} → source_key (a, p) ≡ source_key (b, q) → p ≡ q
source_key-inj e = cc

module _ (w : Write) (q : ℕ) (j : Key) (old : Option Data) where
  overwritten-same : q ≡ w.pipe → j ≡ w.key → overwritten w q j old ≡ some w.value
  overwritten-same p k =
      overwritten_if-same (ℕ_discrete q w.pipe) (Key-discrete j w.key) w.value old p k

  overwritten-other : j ≢ w.key → overwritten w q j old ≡ old
  overwritten-other n =
      overwritten_if-other (ℕ_discrete q w.pipe) (Key-discrete j w.key) w.value old n

All-learn_writes : (ds : List Digest) → All Tabular (learn_writes ds)
unfolding learn_writes
All-learn_writes [] = tt
All-learn_writes (d ∷ ds) = ((λ e. cc), ((λ e. cc), All-learn_writes ds))

-- The port at which an address was seen last.
abbrev pub seen_if : {P : Type 0} → Dec P → ℕ → Option Data → Option Data
seen_if (yes _) port old = some (send port)
seen_if (no _) port old = old

unfoldable pub last_seen : List Digest → MacAddr → Option Data → Option Data
last_seen [] addr old = old
last_seen ((mac, port) ∷ ds) addr old =
    last_seen ds addr (seen_if (MacAddr-discrete addr mac) port old)

overwritten-seen_if :
    (addr mac : MacAddr) (port : ℕ) (old : Option Data) (d : Dec (addr ≡ mac))
    → overwritten (switching_write mac (send port)) all_pipes (switching_table addr) old
      ≡ seen_if d port old
overwritten-seen_if addr mac port old (yes e) = overwritten-same _ _ _ _ refl (ap switching_table e)
overwritten-seen_if addr mac port old (no n) =
    overwritten-other _ _ _ _ (λ e. n (switching_table-inj e))

last_written-last_seen :
    (ds : List Digest) (addr : MacAddr) (old : Option Data)
    → last_written (learn_writes ds) all_pipes (switching_table addr) old ≡ last_seen ds addr old
unfolding last_written learn_writes last_seen
last_written-last_seen [] addr old = refl
last_written-last_seen ((mac, port) ∷ ds) addr old =
    let after = last_written (learn_writes ds) all_pipes (switching_table addr) in
    let station = overwritten (switching_write mac (send port)) all_pipes (switching_table addr) in
    ap (λ o. after (station o))
      (overwritten-other (source_write (mac, port)) all_pipes (switching_table addr) old (λ e. cc))
    ∙ (ap after (overwritten-seen_if addr mac port old (MacAddr-discrete addr mac))
        ∙ last_written-last_seen ds addr (seen_if (MacAddr-discrete addr mac) port old))

last_written-nothing :
    (j : Key) (old : Option Data) → last_written (learn_writes []) all_pipes j old ≡ old
unfolding last_written learn_writes
last_written-nothing j old = refl

-- The later of two digests counts.
last_seen-moved :
    (mac : MacAddr) (from to : ℕ) (old : Option Data)
    → last_seen ((mac, from) ∷ (mac, to) ∷ []) mac old ≡ some (send to)
unfolding last_seen
last_seen-moved mac from to old = seen (MacAddr-discrete mac mac) _
  where
    seen : (d : Dec (mac ≡ mac)) (o : Option Data) → seen_if d to o ≡ some (send to)
    seen (yes _) o = refl
    seen (no n) o = absurd (n refl)

abbrev ttl_entry : Data
ttl_entry = no_action (some 5000)

-- A digest's own write to the entry of its source, after which the next one does not touch it.
source_written :
    (ds : List Digest) (d e : Digest) (old : Option Data)
    → overwritten (source_write e) all_pipes (source_key d) old ≡ some ttl_entry
    → last_written (learn_writes (e ∷ ds)) all_pipes (source_key d) old
      ≡ last_written (learn_writes ds) all_pipes (source_key d) (some ttl_entry)
unfolding last_written learn_writes
source_written ds d e old h =
    let after = last_written (learn_writes ds) all_pipes (source_key d) in
    ap after
      (overwritten-other (switching_write e.0 (send e.1)) all_pipes (source_key d) _ (λ k. cc) ∙ h)

-- What was learnt of a source stays.
source_stays :
    (ds : List Digest) (d : Digest)
    → last_written (learn_writes ds) all_pipes (source_key d) (some ttl_entry) ≡ some ttl_entry
source_stays [] d = last_written-nothing (source_key d) (some ttl_entry)
source_stays (e ∷ ds) d =
    source_written ds d e _ (again (Key-discrete (source_key d) (source_key e))) ∙ source_stays ds d
  where
    again :
        Dec (source_key d ≡ source_key e)
        → overwritten (source_write e) all_pipes (source_key d) (some ttl_entry) ≡ some ttl_entry
    again (yes k) = overwritten-same (source_write e) all_pipes (source_key d) _ refl k
    again (no n) = overwritten-other (source_write e) all_pipes (source_key d) _ n

All-source_written :
    (S : Switch) (s' : S.State) (ds : List Digest) (get : Digest → Option Data)
    → ((d : Digest)
        → S.get s' all_pipes (source_key d)
          ≡ last_written (learn_writes ds) all_pipes (source_key d) (get d))
    → All (λ (d : Digest). S.get s' all_pipes (source_key d) ≡ some ttl_entry) ds
unfolding last_written learn_writes
All-source_written S s' [] get h = tt
All-source_written S s' (e ∷ ds) get h = (
  h e
      ∙ (source_written ds e e (get e)
            (overwritten-same (source_write e) all_pipes (source_key e) (get e) refl refl)
          ∙ source_stays ds e),
  All-source_written S s' ds _ h,
)

-- Every source has its entry, and every address the port at which it was seen last.
pub record Learnt (S : Switch) (ds : List Digest) (s s' : S.State) : Type 0 where
  pub sources :
      All (λ (d : Digest). S.get s' all_pipes (source_key d) ≡ some (no_action (some 5000))) ds
  pub stations :
      (addr : MacAddr)
      → S.get s' all_pipes (switching_table addr)
        ≡ last_seen ds addr (S.get s all_pipes (switching_table addr))

-- Both entries of a station are gone, and nothing else.
pub record Forgotten (S : Switch) (d : Digest) (s s' : S.State) : Type 0 where
  pub source : S.get s' all_pipes (source_key d) ≡ none
  pub station : S.get s' all_pipes (switching_table d.0) ≡ none
  pub others :
      (q : ℕ) (j : Key) → j ≢ source_key d → j ≢ switching_table d.0 → S.get s' q j ≡ S.get s q j

module _ (S : Switch) (L : IsLawful S) where
  -- On a lawful run-time library whose acknowledgement succeeds, after a batch of digests every
  -- source has its entry with the idle time, every address among them is sent to the port at which
  -- it was seen last, and the other addresses go where they went.
  pub eth_switch_learn_cb-Learnt :
      (ds : List Digest) (s : S.State)
      → Returns (Learnt S ds s) (eth_switch_learn_cb S ds success s)
  unfolding eth_switch_learn_cb
  eth_switch_learn_cb-Learnt ds s =
      Returns-bind
        (λ s'. (q : ℕ) (j : Key) → S.get s' q j ≡ last_written (learn_writes ds) q j (S.get s q j))
        (Learnt S ds s) (write_entries S (learn_writes ds) s) _
        (write_entries-last_written S L (learn_writes ds) s (All-learn_writes ds))
        (λ s' h. record {
          sources = All-source_written S s' ds _ (λ d. h all_pipes (source_key d));
          stations = λ addr. h all_pipes (switching_table addr) ∙ last_written-last_seen ds addr _;
        })

  module _ (d : Digest) (s : S.State) where
    idle-source :
        (old : Data)
        → S.get s all_pipes (source_key d) ≡ some old
        → Returns
            (Deleted S s all_pipes (source_key d))
            (check_bf_status (S.entry_del s all_pipes (source_key d)))
    idle-source old e =
        Returns-checked S (Deleted S s all_pipes (source_key d)) _
          (L.del_present s all_pipes (source_key d) old e)

    -- On a lawful run-time library, when a learnt station with an entry in both tables is idle, the
    -- callback throws nothing, both entries are gone, and every entry under another key is as
    -- before.
    pub eth_switch_idle_cb-Forgotten :
        (old port : Data)
        → S.get s all_pipes (source_key d) ≡ some old
        → S.get s all_pipes (switching_table d.0) ≡ some port
        → Returns (Forgotten S d s) (eth_switch_idle_cb S d s)
    unfolding eth_switch_idle_cb
    eth_switch_idle_cb-Forgotten old port e f =
        Returns-bind (Deleted S s all_pipes (source_key d)) (Forgotten S d s)
          (check_bf_status (S.entry_del s all_pipes (source_key d))) _ (idle-source old e)
          (λ s1 h.
            Returns-imp (Deleted S s1 all_pipes (switching_table d.0)) (Forgotten S d s) _
              (Returns-checked S (Deleted S s1 all_pipes (switching_table d.0)) _ (
                L.del_present s1 all_pipes (switching_table d.0) port
                  (h.elsewhere all_pipes (switching_table d.0) (inr (λ k. cc)) ∙ f)))
              (λ s2 g. record {
                source = g.elsewhere all_pipes (source_key d) (inr (λ k. cc)) ∙ h.here;
                station = g.here;
                others = λ q j m n. g.elsewhere q j (inr n) ∙ h.elsewhere q j (inr m);
              }))

    -- The address has no entry any more in the switching table.
    pub eth_switch_idle_cb-runtime_error :
        (old : Data)
        → S.get s all_pipes (source_key d) ≡ some old
        → S.get s all_pipes (switching_table d.0) ≡ none
        → eth_switch_idle_cb S d s ≡ err runtime_error
    unfolding eth_switch_idle_cb
    eth_switch_idle_cb-runtime_error old e f =
        let p = Returns-ok (Deleted S s all_pipes (source_key d)) _ (idle-source old e) in
        rw
          (
            p.1.0,
            L.del_absent p.0 all_pipes (switching_table d.0)
                (p.1.1.elsewhere all_pipes (switching_table d.0) (inr (λ k. cc)) ∙ f),
          )
          refl

  -- On a lawful run-time library whose acknowledgement succeeds, a station that was learnt at one
  -- port and then at another, and is then idle at both in this order, makes the second idle callback
  -- throw a runtime error: the first has already deleted its only entry of the switching table.
  pub eth_switch_idle_cb-moved :
      (mac : MacAddr) (from to : ℕ) (s : S.State)
      → from ≢ to
      → (eth_switch_learn_cb S ((mac, from) ∷ (mac, to) ∷ []) success s
          >>= eth_switch_idle_cb S (mac, from)
          >>= eth_switch_idle_cb S (mac, to))
        ≡ err runtime_error
  eth_switch_idle_cb-moved mac from to s n =
      let p =
        Returns-ok (Learnt S ((mac, from) ∷ (mac, to) ∷ []) s) _
          (eth_switch_learn_cb-Learnt ((mac, from) ∷ (mac, to) ∷ []) s) in
      let f = Returns-ok (Forgotten S (mac, from) p.0) _ (
        eth_switch_idle_cb-Forgotten (mac, from) p.0 _ (send to) p.1.1.sources.0
          (p.1.1.stations mac ∙ last_seen-moved mac from to _)) in
      rw (p.1.0, f.1.0)
        (eth_switch_idle_cb-runtime_error (mac, to) f.0 _
          (f.1.1.others all_pipes (source_key (mac, to)) (λ e. n (sym (source_key-inj e))) (λ e. cc)
            ∙ p.1.1.sources.1.0)
          f.1.1.station)
