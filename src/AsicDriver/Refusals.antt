-- ===== src/AsicDriver/Refusals.antt =====
-- What `on_st_repo_channels` does with a channel that has more clients on a pipe than bits.
use mpitofino.Prelude.{
  ℕ, ◌≡◌, ◌<◌, refl, ◌∙◌, true, List, [], ◌∷◌, ◌++◌, if◌then◌else◌, ok, err, ◌>>=◌, runtime_error,
  Returns-ok, bind_assoc, bind_congr, All,
}
use mpitofino.StateRepository.{CollectiveChannel}
use mpitofino.AsicDriver.Tables.{Switch, IsLawful}
use mpitofino.AsicDriver.Plan.{all_nodes_known, channel_writes}
use mpitofino.AsicDriver.Workers.{Tabular, OnSwitch, workers, limit}
use mpitofino.AsicDriver.Programmed.{
  plan, AllFit, plan-Tabular, write_entries-last_written, channel_writes-runtime_error,
}
use mpitofino.AsicDriver.Sync.{write_entries, program_channels, follow_channels}
use mpitofino.AsicDriver.Iterator.{Cursor, on_st_repo_channels}
use mpitofino.AsicDriver.Follows.{program_channels-plan}

module _ (S : Switch) where
  program_channels-append :
      (before after : List CollectiveChannel) (s : S.State)
      → program_channels S (before ++ after) s
        ≡ (program_channels S before s >>= program_channels S after)
  unfolding program_channels
  program_channels-append [] after s = refl
  program_channels-append (rc ∷ rcs) after s =
      bind_congr
        (if all_nodes_known rc.participants
          then (channel_writes rc >>= λ ws. write_entries S ws s)
          else ok s)
        _ _ (λ a. program_channels-append rcs after a)
      ∙ bind_assoc _ (program_channels S rcs) (program_channels S after)

  program_channels-Returns :
      (L : IsLawful S) (rcs : List CollectiveChannel) (s : S.State)
      → AllFit rcs
      → (s1 : S.State) × (program_channels S rcs s ≡ ok s1)
  program_channels-Returns L rcs s fit =
      let p = Returns-ok (All Tabular) (plan rcs) (plan-Tabular rcs fit) in
      let w = Returns-ok _ (write_entries S p.0 s) (write_entries-last_written S L p.0 s p.1.1) in
      (w.0, program_channels-plan S rcs p.0 s p.1.0 ∙ w.1.0)

  -- On a lawful run-time library, if each channel before it whose clients are all known has ports
  -- below 512 and at most 64 clients on each of the pipes 0 to 2 and 61 on pipe 3, a channel whose
  -- clients are all known and have ports below 512, with more than 64 clients on one of the pipes 0
  -- to 2 or more than 61 on pipe 3, makes on_st_repo_channels throw a runtime error, whatever
  -- channels follow.
  pub on_st_repo_channels-runtime_error :
      (C : Cursor S) (L : IsLawful S) (before after : List CollectiveChannel)
      (rc : CollectiveChannel) (pipe : ℕ) (s : S.State)
      → AllFit before
      → all_nodes_known rc.participants ≡ true
      → OnSwitch rc.participants
      → pipe < 4
      → limit pipe < workers pipe rc.participants
      → on_st_repo_channels S C (before ++ rc ∷ after) s ≡ err runtime_error
  unfolding on_st_repo_channels follow_channels program_channels
  on_st_repo_channels-runtime_error C L before after rc pipe s fit known on lt many =
      let first = program_channels-Returns L before s fit in
      rw
        (
          program_channels-append before (rc ∷ after) s,
          first.1,
          known,
          channel_writes-runtime_error rc pipe on lt many,
        )
        refl
