-- ===== src/UnixSockets/Frames.antt =====
-- Chains of calls that leave the other entries and sockets as they were.
use mpitofino.Prelude.{ℕ, ◌∙◌, Option, none, some}
use mpitofino.UnixSockets.{UnixSockets, LeavesOthers}

module _ {u : UnixSockets} {fd : ℕ} {s t v : u.State} where
  pub LeavesOthers-trans :
      {e : Option ℕ} → LeavesOthers u e fd s t → LeavesOthers u e fd t v → LeavesOthers u e fd s v
  LeavesOthers-trans p q = record {
    same_bound = λ d n. q.same_bound d n ∙ p.same_bound d n;
    same_status = λ d n. q.same_status d n ∙ p.same_status d n;
    same_may_write = λ d n. q.same_may_write d n ∙ p.same_may_write d n;
    same_listens = λ g n. q.same_listens g n ∙ p.same_listens g n;
  }

module _ {u : UnixSockets} {fd : ℕ} {s t : u.State} where
  -- A call that concerns no entry concerns at most `e`.
  pub LeavesOthers-at : (e : ℕ) → LeavesOthers u none fd s t → LeavesOthers u (some e) fd s t
  LeavesOthers-at e p = record {
    same_bound = λ d n. p.same_bound d (λ h. cc);
    same_status = λ d n. p.same_status d (λ h. cc);
    same_may_write = λ d n. p.same_may_write d (λ h. cc);
    same_listens = p.same_listens;
  }
