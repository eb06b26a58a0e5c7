-- ===== src/Scripts/Roundtrip/Scope/Cycle.antt =====
-- A whole run of the script, by the ids that it names to the box.
use limon_backend.Base.{
  ℕ, zero, suc, String, Option, none, some, List, [], ◌≡◌, refl, arith, truthy, ◌&&◌, All, null,
  ltb,
}
use limon_backend.Models.{Db}
use limon_backend.Runtime.Errors.{Result, ok, err}
use limon_backend.Runtime.Ends.{
  Ends, Ends-bind, Ends-if, Ends-ask, Ends-emit, Ends-pure, Ends-both, Ends-weaken,
}
use limon_backend.Runtime.Keeps.{Keeps, Keeps-Ends, keeps_rules}
use limon_backend.Runtime.World.{Env, World, Exec, sleep, modify, commit_session, ask, ◌>>=◌}
use limon_backend.Transcriber
use limon_backend.Transcriber.{TranscriptJob, DrainPage, ids_param, waiting}
use limon_backend.Transcription.Collect.{
  CollectionResult, collect_page, drain_pages, collect_transcripts, max_drain_pages, no_results,
}
use limon_backend.Transcription.Submit.{run_transcription}
use limon_backend.Transcription.Invariants.{persist_all-Keeps}
use limon_backend.Transcription.Invariants.Submission.{run_transcription-Keeps}
use limon_backend.Scripts.Roundtrip.{
  Args, Polled, poll, is_ready, report, refresh, present, seed, cycle, run_clip, main, with_clip,
  under, is_submitted, collected, timed_out, unfinished, throwaway,
}
use limon_backend.Scripts.Roundtrip.Scope.{
  only, Names, AllName, HonoursIds, Scoped, Stops, Scoped-IsInvariant, send-Keeps,
}
use limon_backend.Scripts.Roundtrip.Scope.Replies.{Own, drained, acks-Own}

module _ (id : String) where
  module _ (e : Env) (honours : HonoursIds e id) where
    with_fact :
        {A : Type 0} (F : A → World → Type 0) (m : Exec A) (w : World)
        → Keeps (Scoped id) m
        → Scoped id w
        → Ends F (λ _ _. Unit) (m e w)
        → Ends (λ a w'. Scoped id w' × F a w') (Stops id) (m e w)
    with_fact F m w k h f =
        Ends-weaken _ _ _ _ (m e w) (λ a w' x. x) (λ x w' y. y.0)
          (Ends-both (λ _. Scoped id) F (Stops id) (λ _ _. Unit) (m e w)
            (Keeps-Ends (Scoped id) m e w k h) f)

    -- A call keeps the trace scoped, and ends so.
    stays :
        {A : Type 0} (m : Exec A) (w : World)
        → Keeps (Scoped id) m
        → Scoped id w
        → Ends (λ _. Scoped id) (Stops id) (m e w)
    stays m w k h = Keeps-Ends (Scoped id) m e w k h

    page-Scoped :
        (result : CollectionResult) (w : World)
        → Scoped id w
        → Ends (λ _. Scoped id) (Stops id) (collect_page (only id) result e w)
    unfolding collect_page
    page-Scoped result w h =
        Ends-bind _ _ (λ page w'. Scoped id w' × Own id page.jobs) _ _ e w
          (with_fact _ _ w
            (Transcriber.Keeps.drain-Keeps (Scoped id) (Names id) (send-Keeps id) (only id) refl) h
            (drained id e honours w))
          λ page w' h'.
            Ends-if _ _ (null page.jobs) _ _ e w' (λ _. Ends-pure _ _ _ e w' h'.0)
              λ _.
                Ends-bind _ _ (λ p w''. Scoped id w'' × All (λ i. i ≡ id) p.0) _ _ e w'
                  (with_fact _ _ w' (persist_all-Keeps (Scoped-IsInvariant id) page.jobs _) h'.0
                    (acks-Own id page.jobs _ e w' h'.1))
                  λ p w'' h''.
                    Ends-if _ _ (null p.0) _ _ e w'' (λ _. Ends-pure _ _ _ e w'' h''.0)
                      λ _.
                        Ends-bind _ _ (λ _. Scoped id) _ _ e w''
                          (stays _ w''
                            (Transcriber.Keeps.ack-Keeps (Scoped id) (Names id) (send-Keeps id) p.0
                              h''.1)
                            h''.0)
                          (λ _ w3 h3. Ends-pure _ _ _ e w3 h3)

    drain_pages-Scoped :
        (rounds : ℕ) (result : CollectionResult) (w : World)
        → Scoped id w
        → Ends (λ _. Scoped id) (Stops id) (drain_pages rounds (only id) result e w)
    unfolding drain_pages
    drain_pages-Scoped zero result w h = Ends-pure _ _ result e w h
    drain_pages-Scoped (suc rounds) result w h =
        Ends-bind _ _ (λ _. Scoped id) _ _ e w (page-Scoped result w h)
          λ p w' h'.
            Ends-if _ _ p.0 _ _ e w' (λ _. drain_pages-Scoped rounds p.1 w' h')
              (λ _. Ends-pure _ _ p.1 e w' h')

    poll-Scoped :
        (rounds : ℕ) (args : Args) (deadline : ℕ) (w : World)
        → Scoped id w
        → Ends (λ _. Scoped id) (Stops id) (poll rounds args deadline id e w)
    unfolding poll collect_transcripts
    poll-Scoped zero args deadline w h = Ends-pure _ _ unfinished e w h
    poll-Scoped (suc rounds) args deadline w h = Ends-ask _ _ _ _ e w (
        Ends-if _ _ (ltb (e.now w.trace) deadline) _ _ e w
          (λ _.
            Ends-bind _ _ (λ _. Scoped id) _ _ e w
              (drain_pages-Scoped max_drain_pages no_results w h)
              (λ result w' h'.
                Ends-if _ _ (is_ready result) _ _ e w'
                  (λ _. Ends-pure _ _ (collected result) e w' h')
                  (λ _.
                    Ends-emit _ _ (sleep args.interval) _ e w'
                      (poll-Scoped rounds args deadline _ h'))))
          (λ _. Ends-pure _ _ timed_out e w h))

  present-Keeps : {A : Type 0} (found : Option A) → Keeps (Scoped id) (present found)
  present-Keeps none = search keeps_rules
  present-Keeps (some a) = search keeps_rules

  refresh-Keeps : {A : Type 0} (query : Db → Option A) → Keeps (Scoped id) (refresh query)
  unfolding refresh
  refresh-Keeps query = search (keeps_rules, present-Keeps)

  get_job-Keeps : (job : String) → Keeps (Scoped id) (Transcriber.get_job job)
  get_job-Keeps job = Transcriber.Keeps.get_job-Keeps (Scoped id) (Names id) (send-Keeps id) job tt

  report-Keeps : (event_id : String) (p : Polled) → Keeps (Scoped id) (report id event_id p)
  unfolding report
  report-Keeps event_id (collected result) = search (keeps_rules, refresh-Keeps, get_job-Keeps)
  report-Keeps event_id timed_out = search keeps_rules
  report-Keeps event_id unfinished = search keeps_rules

  cycle-Scoped :
      (rounds : ℕ) (args : Args) (event_id : String) (e : Env) (w : World)
      → HonoursIds e id
      → Scoped id w
      → Ends (λ _. Scoped id) (Stops id) (cycle rounds args id event_id e w)
  unfolding cycle
  cycle-Scoped rounds args event_id e w honours h =
      Ends-bind _ _ (λ _. Scoped id) (run_transcription id) _ e w
        (Keeps-Ends _ _ e w (run_transcription-Keeps (Scoped-IsInvariant id) id (λ _ _ _. refl) tt)
          h)
        λ o w' h'.
          Ends-if _ _ (is_submitted o.status) _ _ e w'
            (λ _. Ends-ask _ _ _ _ e w' (
              Ends-bind _ _ (λ _. Scoped id) _ _ e w' (poll-Scoped e honours rounds args _ w' h')
                (λ p w'' h''. Keeps-Ends _ _ e w'' (report-Keeps event_id p) h'')))
            (λ _. Ends-pure _ _ (some 1) e w' h')

  last_trace :
      {A : Type 0} (r : Result A × World)
      → Ends (λ _. Scoped id) (Stops id) r
      → AllName id r.1.trace
  last_trace (ok a, w) h = h
  last_trace (err x, w) h = h

seed-Scoped :
    (args : Args) (e : Env)
    → let id = e.new_id [] 0 in
      Ends (λ ids w. (ids.0 ≡ id) × Scoped id w) (Stops id) (seed args e throwaway)
unfolding seed modify commit_session ask ◌>>=◌
seed-Scoped args e = ground arith

module _ (rounds : ℕ) (args : Args) (e : Env) (honours : HonoursIds e (e.new_id [] 0)) where
  abbrev id : String
  id = e.new_id [] 0

  run_clip-Scoped :
      (clip : Option (List ℕ))
      → Ends (λ _. Scoped id) (Stops id) (run_clip rounds args clip e throwaway)
  unfolding run_clip under
  run_clip-Scoped none = Ends-pure _ _ (some 2) e throwaway tt
  run_clip-Scoped (some bytes) =
      Ends-bind _ _ _ (seed args) _ (with_clip bytes e) throwaway
        (seed-Scoped args (with_clip bytes e))
        (λ ids w h. rw (h.0) (
          cycle-Scoped id rounds args ids.1 (with_clip bytes e) w
            (record { filters = honours.filters }) h.1))

  main-Scoped : Ends (λ _. Scoped id) (Stops id) (main rounds args e throwaway)
  unfolding main
  main-Scoped = Ends-ask _ _ _ _ e throwaway (
      Ends-if _ _ (truthy e.settings.transcriber_base_url && truthy e.settings.transcriber_token) _
        _ e throwaway (λ _. run_clip-Scoped args.clip) (λ _. Ends-pure _ _ (some 2) e throwaway tt))

  -- The script keeps off other callers' results. Where the box answers a drain that names one id with
  -- jobs of that id alone, a run of the script over its throwaway database submits, drains and
  -- acknowledges the id of its own recording only, however it ends.
  pub main-AllName : AllName (e.new_id [] 0) (main rounds args e throwaway).1.trace
  main-AllName = last_trace id (main rounds args e throwaway) main-Scoped
