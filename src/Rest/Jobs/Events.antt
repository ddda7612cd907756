-- ===== src/Rest/Jobs/Events.antt =====
-- rest/jobs.go: the events of a job, saved by `EventSaver` and streamed by `StartEventLoop`.
use flowify_workflows_server.Storage.Driver.{uid_is}
use mathlib.Core.List.{append_assoc}
use flowify_workflows_server.Common.{
  inr, inl, ◌↔◌, map, ◌⊎◌, String, Bool, true, false, List, [], ◌∷◌, ◌++◌, ◌≡◌, refl, sym, ◌∙◌, ap,
  if◌then◌else◌, Option, none, some,
}
use flowify_workflows_server.Common.Result.{
  none≢some, some-injective, Result, ok, err, Error, message, wrapped,
}
use flowify_workflows_server.Models.{Job}
use flowify_workflows_server.Models.Versions.{ComponentReference}
use flowify_workflows_server.Storage.Documents.{Drivers, add_job_events}

-- What the channel of a watch gives: a state of the workflow, kept as its text, with whether its
-- phase is completed, or another object; or it is closed.
pub data Watched : Type 0 where
  workflow : (text : String) → (completed : Bool) → Watched
  other_object : Error → Watched
  closed : Watched

-- How `EventSaver` leaves its loop. With a nil workflow it panics, and in a goroutine of its own
-- that ends the server.
pub data Outcome : Type 0 where
  left_with : (events : List String) → Outcome
  panics waits : Outcome

-- The loop, over what its own watch gives: `events` are those before. Its context is
-- `context.TODO()`, which is never done.
unfoldable pub collect_events : List String → List Watched → Outcome
collect_events events [] = waits
collect_events events (closed ∷ rest) = panics
collect_events events (other_object e ∷ rest) = panics
collect_events events (workflow text completed ∷ rest) =
    let more = collect_events (events ++ text ∷ []) rest in
    if completed then left_with (events ++ text ∷ []) else more

-- The jobs after the goroutine: `none` while it waits or when it has panicked.
abbrev pub saved_events : Drivers → ComponentReference → List Job → List String → Result (List Job)
saved_events drivers id jobs [] = ok jobs
saved_events drivers id jobs (e ∷ events) = add_job_events drivers id (e ∷ events) jobs

unfoldable pub event_saver :
    Drivers → ComponentReference → List Watched → List Job → Option (Result (List Job))
unfolding collect_events
event_saver drivers id watched jobs = elim (collect_events [] watched) [
  | left_with events ↦ some (saved_events drivers id jobs events)
  | panics ↦ none
  | waits ↦ none
]

-- What the loop of the stream meets: its own watch, or the end of the request.
pub data Received : Type 0 where
  watched : Watched → Received
  context_done : Received

-- The events that the loop of the stream writes, and how it returns: `none` while it waits.
-- `write` is `WriteEventToSSEStream`.
module _ (write : String → Result (Unit {0})) where
  unfoldable pub start_event_loop : List Received → Option (List String × Result (Unit {0}))
  start_event_loop [] = none
  start_event_loop (context_done ∷ rest) = some ([], ok tt)
  start_event_loop (watched closed ∷ rest) =
      some ([], err (message "monitoring job channel closed"))
  start_event_loop (watched (other_object e) ∷ rest) = some ([], err e)
  start_event_loop (watched (workflow text completed) ∷ rest) =
      let more = start_event_loop rest in
      elim (write text) [
        | err e ↦ some ([], err (wrapped "cannot write workflow to SSE stream" e))
        | ok _ ↦
            if completed
            then some (text ∷ [], ok tt)
            else elim more [ none ↦ none | some outcome ↦ some (text ∷ outcome.0, outcome.1) ]
      ]

abbrev IsIdle : Outcome → Type 0
IsIdle out = (out ≡ panics) ⊎ (out ≡ waits)

Outcome-cases : (out : Outcome) → ((events : List String) × (out ≡ left_with events)) ⊎ IsIdle out
Outcome-cases (left_with events) = inl (events, refl)
Outcome-cases panics = inr (inl refl)
Outcome-cases waits = inr (inr refl)

-- A watch of a job that gives some states of the workflow that are not completed, then one that is.
abbrev pub Completes : List Watched → List String → String → List Watched → Type 0
Completes seen texts last rest =
    seen ≡ map (λ text. workflow text false) texts ++ workflow last true ∷ rest

collect_events-completed :
    (events texts : List String) (last : String) (rest : List Watched)
    → collect_events events (map (λ text. workflow text false) texts ++ workflow last true ∷ rest)
      ≡ left_with (events ++ (texts ++ last ∷ []))
unfolding collect_events
collect_events-completed events [] last rest = refl
collect_events-completed events (text ∷ texts) last rest =
    collect_events-completed (events ++ text ∷ []) texts last rest
    ∙ ap left_with (append_assoc events (text ∷ []) (texts ++ last ∷ []))

collect_events-Completes :
    (events all : List String) (seen : List Watched)
    → collect_events events seen ≡ left_with all
    → (texts : List String) × (last : String) × (rest : List Watched) × Completes seen texts last
        rest
      × (all ≡ events ++ (texts ++ last ∷ []))
unfolding collect_events
collect_events-Completes events all [] e = cc
collect_events-Completes events all (closed ∷ rest) e = cc
collect_events-Completes events all (other_object x ∷ rest) e = cc
collect_events-Completes events all (workflow text true ∷ rest) e =
    ([], text, rest, refl, left_with-injective (sym e))
  where
    left_with-injective : {a b : List String} → left_with a ≡ left_with b → a ≡ b
    left_with-injective h = cc
collect_events-Completes events all (workflow text false ∷ rest) e =
    let (texts, last, after, is, same) =
      collect_events-Completes (events ++ text ∷ []) all rest e in
    (
      text ∷ texts,
      last,
      after,
      ap (λ x. workflow text false ∷ x) is,
      same ∙ append_assoc events (text ∷ []) (texts ++ last ∷ []),
    )

-- The events of a job are saved exactly when its watch comes to a completed state of the workflow,
-- after none or more that are not, and before anything else. Then all these states are saved, the
-- completed one as the last, in the order of the watch, by an update of the job with the uid.
pub event_saver-completed :
    (drivers : Drivers) (id : ComponentReference) (seen : List Watched) (jobs : List Job)
    (r : Result (List Job))
    → (event_saver drivers id seen jobs ≡ some r) ↔ (
        (texts : List String) × (last : String) × (rest : List Watched) × Completes seen texts last
          rest
        × (r ≡ drivers.set_events (uid_is id ∷ []) (texts ++ last ∷ []) jobs))
unfolding event_saver add_job_events
event_saver-completed drivers id seen jobs r = (
  λ e. elim (Outcome-cases (collect_events [] seen)) [
    | inl (all, left) ↦
        let (texts, last, rest, is, same) = collect_events-Completes [] all seen left in
        (
          texts,
          last,
          rest,
          is,
          some-injective (sym (rw (event_saver, left, same) at e)) ∙ saved_last texts last,
        )
    | inr (inl out) ↦ absurd (none≢some (rw (event_saver, out) at e))
    | inr (inr out) ↦ absurd (none≢some (rw (event_saver, out) at e))
  ],
  λ (texts, last, rest, is, same).
      let left = ap (collect_events []) is ∙ collect_events-completed [] texts last rest in
      rw (event_saver, left) (ap some (saved_last texts last ∙ sym same)),
)
  where
    saved_last :
        (texts : List String) (last : String)
        → saved_events drivers id jobs (texts ++ last ∷ [])
          ≡ drivers.set_events (uid_is id ∷ []) (texts ++ last ∷ []) jobs
    saved_last [] last = refl
    saved_last (t ∷ texts) last = refl
