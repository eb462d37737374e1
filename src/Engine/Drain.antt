-- ===== src/Engine/Drain.antt =====
-- cmd/worker/main.go: the worker over a queue of jobs that can be processed.
use amankan.Prelude.{
  ℕ, String, ◌≡◌, refl, sym, ◌∙◌, subst, ◌≢◌, ◌⊎◌, inl, inr, Bool, true, false, Option, none, some,
  List, [], ◌∷◌, eq_refl, if◌then◌else◌, String-cases, eq-false_of_ne, length, All,
}
use amankan.Float64.{Float64, FloatLaws}
use amankan.Models.{Asset, ScanJob, completed, failed}
use amankan.Scanner.{World}
use amankan.Queue.Fifo.{oldest_first}
use amankan.Store.Jobs.{IsReady, IsDone}
use amankan.Store.{Tables, find_row, find_row-key}
use amankan.Engine.{Processor, System}
use amankan.Engine.Process.{process, handle, recorded}
use amankan.Engine.Outcome.{Ended, process-Ended}
use amankan.Engine.Worker.{turns, handle_all, turns-handle_all}

module _ (fl : Float64) {G : Type 0} (world : World) (p : Processor fl world G) where
  module _ (up : (n : ℕ) → p.server.down n ≡ none) (laws : FloatLaws fl) where
    recorded-none :
        (id : String) (r : Option String × System fl.Carrier G)
        → r.0 ≡ none
        → recorded fl world p id r ≡ r.1
    recorded-none id (none, s) e = refl
    recorded-none id (some x, s) e = absurd (cc e)

    handled :
        (id : String) (job : ScanJob) (asset : Asset) (s : System fl.Carrier G)
        → id ≢ ""
        → find_row ScanJob.id id s.tables.jobs ≡ some job
        → find_row Asset.id job.asset_id s.tables.assets ≡ some asset
        → (job.id ≡ id) × Ended fl world p job asset s.tables (handle fl world p id s).tables
    unfolding handle
    handled id job asset s named found owned =
        let same = find_row-key ScanJob.id id s.tables.jobs job found in
        let (e, ended) =
          process-Ended fl world p up job asset s laws
            (subst (λ k. find_row ScanJob.id k s.tables.jobs ≡ some job) (sym same) found) owned in
        let named' : job.id ≢ "" = λ d. named (sym same ∙ d) in
        let ended' : Ended fl world p job asset s.tables (handle fl world p job.id s).tables =
          rw (eq-false_of_ne job.id "" named', recorded-none job.id (process fl world p job.id s) e)
            ended in
        (
          same,
          subst (λ k. Ended fl world p job asset s.tables (handle fl world p k s).tables) same
              ended',
        )

    choice :
        (b : Bool)
        → ((if b then failed else completed) ≡ completed)
          ⊎ ((if b then failed else completed) ≡ failed)
    choice true = inr refl
    choice false = inl refl

    Ended-IsDone :
        (id : String) (job : ScanJob) (asset : Asset) (before after : Tables fl.Carrier)
        → job.id ≡ id
        → Ended fl world p job asset before after
        → IsDone after id
    Ended-IsDone id job asset before after same end = (
      end.row,
      subst (λ k. find_row ScanJob.id k after.jobs ≡ some end.row) same end.found,
      rw end.status (choice _),
    )

    Ended-keeps_IsReady :
        (id k : String) (job : ScanJob) (asset : Asset) (before after : Tables fl.Carrier)
        → find_row Asset.id job.asset_id before.assets ≡ some asset
        → job.id ≡ id
        → Ended fl world p job asset before after
        → IsReady before k
        → IsReady after k
    Ended-keeps_IsReady id k job asset before after owned same end (named, (j, a, found, held)) =
        elim (String-cases job.id k) [
          | inl e ↦ (
            named,
            (
              end.row,
              asset,
              subst (λ l. find_row ScanJob.id l after.jobs ≡ some end.row) e end.found,
              rw (end.assets, end.same_asset) owned,
            ),
          )
          | inr e ↦ (
            named,
            (j, a, end.others k (λ d. absurd (cc (e, eq_refl k, d))) ∙ found, rw end.assets held),
          )
        ]

    Ended-keeps_IsDone :
        (k : String) (job : ScanJob) (asset : Asset) (before after : Tables fl.Carrier)
        → Ended fl world p job asset before after
        → IsDone before k
        → IsDone after k
    Ended-keeps_IsDone k job asset before after end (j, found, d) = elim (String-cases job.id k) [
      | inl e ↦ Ended-IsDone k job asset before after e end
      | inr e ↦ (j, end.others k (λ same. absurd (cc (e, eq_refl k, same))) ∙ found, d)
    ]

    all-IsReady :
        (ids : List String) (id : String) (s : System fl.Carrier G)
        → IsReady s.tables id
        → All (IsReady s.tables) ids
        → All (IsReady (handle fl world p id s).tables) ids
    all-IsReady [] id s ready h = tt
    all-IsReady (k ∷ ids) id s ready h =
        let (named, (job, asset, found, owned)) = ready in
        let (same, end) = handled id job asset s named found owned in
        (
          Ended-keeps_IsReady id k job asset s.tables _ owned same end h.0,
          all-IsReady ids id s ready h.1,
        )

    handle_all-keeps_IsDone :
        (ids : List String) (k : String) (s : System fl.Carrier G)
        → All (IsReady s.tables) ids
        → IsDone s.tables k
        → IsDone (handle_all fl world p ids s).tables k
    handle_all-keeps_IsDone [] k s h d = d
    handle_all-keeps_IsDone (id ∷ ids) k s (ready, h) d =
        let (named, (job, asset, found, owned)) = ready in
        let (same, end) = handled id job asset s named found owned in
        handle_all-keeps_IsDone ids k (handle fl world p id s) (all-IsReady ids id s ready h)
          (Ended-keeps_IsDone k job asset s.tables _ end d)

    handle_all-IsDone :
        (ids : List String) (s : System fl.Carrier G)
        → All (IsReady s.tables) ids
        → All (IsDone (handle_all fl world p ids s).tables) ids
    handle_all-IsDone [] s h = tt
    handle_all-IsDone (id ∷ ids) s (ready, h) =
        let (named, (job, asset, found, owned)) = ready in
        let (same, end) = handled id job asset s named found owned in
        let next = all-IsReady ids id s ready h in
        (
          handle_all-keeps_IsDone ids id (handle fl world p id s) next
              (Ended-IsDone id job asset s.tables _ same end),
          handle_all-IsDone ids (handle fl world p id s) next,
        )

    -- The worker drains its queue: where neither the server nor the queue fails a call and every
    -- identifier in the queue is of a job in the table whose asset is in the table, as many turns of
    -- the loop as the queue is long empty it, process the jobs in the order in which they were
    -- pushed, and leave every one of them completed or failed.
    pub turns-IsDone :
        (list : List String) (s : System fl.Carrier G)
        → All (IsReady s.tables) (oldest_first list)
        → (turns fl world p (length list) (list, s)
            ≡ ([], handle_all fl world p (oldest_first list) s))
          × All (IsDone (turns fl world p (length list) (list, s)).1.tables) (oldest_first list)
    turns-IsDone list s h =
        let all = turns-handle_all fl world p (length list) list s refl in
        (all, rw all (handle_all-IsDone (oldest_first list) s h))
