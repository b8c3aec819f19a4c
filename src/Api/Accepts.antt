-- ===== src/Api/Accepts.antt =====
-- src/async_task_worker/api.py: what the route that creates a task answers.
use async_task_worker.Base.{
  ℕ, String, ◌≡◌, refl, sym, ap, ◌∙◌, Bool, true, false, Option, none, some, [], Option-cases,
  Bool-cases, inl, inr, str_dec, if_pos,
}
use mathlib.Core.Path.{subst}
use async_task_worker.Base.Dict
use async_task_worker.Base.Dict.{Dict, IsUnique}
use async_task_worker.Base.Int.{pos}
use async_task_worker.Status.{TaskInfo, pending}
use async_task_worker.Exceptions.{task_definition_error}
use async_task_worker.Queue.Heap
use async_task_worker.Queue.Heap.{push, has_id}
use async_task_worker.Queue.Invariant
use async_task_worker.Queue.Invariant.{IsValid}
use async_task_worker.Registry.{get_task_function}
use async_task_worker.Worker.{Worker, Request, added, add_task, get_task_info}
use async_task_worker.Worker.Adding.{add_queues, IsNew, item_of}
use async_task_worker.Api.{
  Response, success, http_error, TaskResponse, response_of, map_error_to_status_code, get_task,
}
use async_task_worker.Api.Tasks.{
  TaskSubmitRequest, filled, clashes, to_request, submitted, create_task,
}

-- Why a request is refused, or the function of its task.
pub data Verdict (F : Type 0) : Type 0 where
  refused : ℕ → Verdict F
  accepted : F → Verdict F

-- The function of the task type, whether the parameters clash, and whether the worker runs.
abbrev pub judge : {F : Type 0} → Option F → Bool → Bool → Verdict F
judge none clash running = refused 400
judge (some f) true running = refused 400
judge (some f) false true = accepted f
judge (some f) false false = refused 500

abbrev pub task_id_of : {V P : Type 0} → String → TaskSubmitRequest V P → String
task_id_of fresh_id r = elim r.task_id [ none ↦ fresh_id | some i ↦ i ]

module _ {V : Type 0} where
  -- The answer for a task that waits.
  abbrev pub pending_response : String → Dict V → TaskResponse V
  pending_response t metadata = record {
    id = t;
    status = pending;
    progress = pos 0;
    metadata = metadata;
    result = none;
    error = none;
    from_cache = false;
  }

  response_of-new :
      (t : String) (created : ℕ) (metadata : Dict V) (info : TaskInfo V)
      → IsNew t created metadata info
      → response_of info ≡ pending_response t metadata
  unfolding response_of
  response_of-new t created metadata info (i, s, c, b, e, r, x, p, m, f) =
      rw (i, s, r, x, p, m, f) refl

module _ {V P : Type 0} where
  -- The metadata of the task: those of the request, with the task type.
  abbrev pub metadata_of : (String → V) → TaskSubmitRequest V P → Dict V
  metadata_of text r =
      Dict.insert "task_type" (text r.task_type) (elim r.metadata [ none ↦ [] | some m ↦ m ])

module _ {V F P : Type 0} where
  submitted-added :
      (w : Worker V F (Dict P)) (t : String) (info : TaskInfo V)
      → get_task_info t w ≡ some info
      → submitted (w, added t) ≡ (w, some (success (response_of info)))
  unfolding submitted
  submitted-added w t info h = rw (h, submitted)

  get_task-found :
      (w : Worker V F (Dict P)) (t : String) (info : TaskInfo V)
      → get_task_info t w ≡ some info
      → get_task t w ≡ success (response_of info)
  unfolding get_task
  get_task-found w t info h = rw (h, get_task)

  -- The call of `add_task` for a request.
  abbrev pub request_of : (String → V) → F → TaskSubmitRequest V P → Request V F (Dict P)
  request_of text f r = record {
    func = f;
    args = r.params;
    priority = r.priority;
    task_id = r.task_id;
    metadata = metadata_of text r;
    timeout = r.timeout;
    use_cache = r.use_cache;
    cache_ttl = r.cache_ttl;
  }

  abbrev pub verdict : Dict F → TaskSubmitRequest V P → Worker V F (Dict P) → Verdict F
  verdict registry r w =
      judge (get_task_function r.task_type registry) (clashes filled r.params) w.running

  create_task-unknown :
      (registry : Dict F) (name : F → String) (text : String → V) (fresh_id : String)
      (created entered now : ℕ) (r : TaskSubmitRequest V P) (w : Worker V F (Dict P))
      → get_task_function r.task_type registry ≡ none
      → create_task registry name text fresh_id created entered now r w ≡ (w, some (http_error 400))
  unfolding create_task map_error_to_status_code task_definition_error
  create_task-unknown registry name text fresh_id created entered now r w h = rw (h, create_task)

  create_task-clashes :
      (registry : Dict F) (name : F → String) (text : String → V) (fresh_id : String)
      (created entered now : ℕ) (r : TaskSubmitRequest V P) (w : Worker V F (Dict P)) (f : F)
      → get_task_function r.task_type registry ≡ some f
      → clashes filled r.params ≡ true
      → create_task registry name text fresh_id created entered now r w ≡ (w, some (http_error 400))
  unfolding create_task map_error_to_status_code
  create_task-clashes registry name text fresh_id created entered now r w f h c =
      rw (h, create_task, c)

  create_task-submitted :
      (registry : Dict F) (name : F → String) (text : String → V) (fresh_id : String)
      (created entered now : ℕ) (r : TaskSubmitRequest V P) (w : Worker V F (Dict P)) (f : F)
      → get_task_function r.task_type registry ≡ some f
      → clashes filled r.params ≡ false
      → create_task registry name text fresh_id created entered now r w
        ≡ submitted (add_task name fresh_id created entered now (to_request text f r) w)
  unfolding create_task
  create_task-submitted registry name text fresh_id created entered now r w f h c =
      rw (h, create_task, c)

  add_task-stopped :
      (name : F → String) (text : String → V) (fresh_id : String) (created entered now : ℕ)
      (r : TaskSubmitRequest V P) (w : Worker V F (Dict P)) (f : F)
      → w.running ≡ false
      → submitted (add_task name fresh_id created entered now (to_request text f r) w)
        ≡ (w, some (http_error 500))
  unfolding add_task submitted map_error_to_status_code
  add_task-stopped name text fresh_id created entered now r w f h = rw (h, add_task)

  -- What `create_task` must answer.
  abbrev pub Submits :
      (F → String)
      → (String → V)
      → String
      → ℕ
      → Verdict F
      → TaskSubmitRequest V P
      → Worker V F (Dict P)
      → Worker V F (Dict P) × Option (Response (TaskResponse V))
      → Type 0
  Submits name text fresh_id created (refused code) r w (w', answer) =
      (w' ≡ w) × (answer ≡ some (http_error code))
  Submits name text fresh_id created (accepted f) r w (w', answer) =
      let t = task_id_of fresh_id r in
      let shown = pending_response t (metadata_of text r) in
      (answer ≡ some (success shown))
      × (get_task t w' ≡ success shown)
      × (Invariant.pending w'.queue
          ≡ push (item_of name t (request_of text f r) w) (Invariant.pending w.queue))
      × IsValid w'.queue

  by_verdict :
      (name : F → String) (text : String → V) (fresh_id : String) (created : ℕ)
      (r : TaskSubmitRequest V P) (w : Worker V F (Dict P)) (v : Verdict F)
      (a : Worker V F (Dict P) × Option (Response (TaskResponse V))) {v' : Verdict F}
      {a' : Worker V F (Dict P) × Option (Response (TaskResponse V))}
      → v' ≡ v
      → a' ≡ a
      → Submits name text fresh_id created v r w a
      → Submits name text fresh_id created v' r w a'
  by_verdict name text fresh_id created r w v a {a' = a'} e f h =
      subst (λ x. Submits name text fresh_id created x r w a') (sym e)
        (subst (Submits name text fresh_id created v r w) (sym f) h)

  accepts :
      (registry : Dict F) (name : F → String) (text : String → V) (fresh_id : String)
      (created entered now : ℕ) (r : TaskSubmitRequest V P) (w : Worker V F (Dict P)) (f : F)
      → get_task_function r.task_type registry ≡ some f
      → clashes filled r.params ≡ false
      → w.running ≡ true
      → IsValid w.queue
      → Heap.full w.queue.queue ≡ false
      → has_id (task_id_of fresh_id r) w.queue.queue.items ≡ false
      → IsUnique w.tasks
      → Submits name text fresh_id created
          (accepted f)
          r
          w
          (create_task registry name text fresh_id created entered now r w)
  unfolding to_request
  accepts registry name text fresh_id created entered now r w f h c on v room fresh u =
      let q = to_request text f r in
      let t = task_id_of fresh_id r in
      let w' = (add_task name fresh_id created entered now q w).0 in
      let (a, infos, queued, valid, _) =
        add_queues name fresh_id created entered now q w on v room fresh u in
      let (info, new, there) = infos in
      let found = there t ∙ if_pos (str_dec t t) refl (some info) (get_task_info t w) in
      let same = response_of-new t created q.metadata info new in
      let ran =
        create_task-submitted registry name text fresh_id created entered now r w f h c
        ∙ ap (λ b. submitted (w', b)) a
        ∙ submitted-added w' t info found
        ∙ ap (λ x. (w', some (success x))) same in
      subst (Submits name text fresh_id created (accepted f) r w) (sym ran)
        (refl, get_task-found w' t info found ∙ ap success same, queued, valid)

  -- On a valid queue that has room and does not hold the task's id, and with distinct task ids: the
  -- route refuses an unknown task type and a parameter that has the name of one of `add_task` with
  -- 400, and any other request with 500 while the worker does not run, and then changes nothing.
  -- Otherwise it answers a pending task with the metadata of the request and its type among them, the
  -- route that reads the task answers the same, and the function of the type waits, with the
  -- parameters, the priority and the options of the request, at its place in the queue, which stays
  -- valid.
  pub create_task_answers :
      (registry : Dict F) (name : F → String) (text : String → V) (fresh_id : String)
      (created entered now : ℕ) (r : TaskSubmitRequest V P) (w : Worker V F (Dict P))
      → IsValid w.queue
      → Heap.full w.queue.queue ≡ false
      → has_id (task_id_of fresh_id r) w.queue.queue.items ≡ false
      → IsUnique w.tasks
      → Submits name text fresh_id created
          (verdict registry r w)
          r
          w
          (create_task registry name text fresh_id created entered now r w)
  create_task_answers registry name text fresh_id created entered now r w v room fresh u =
      elim (Option-cases (get_task_function r.task_type registry)) [
        | inl h ↦
            by_verdict name text fresh_id created r w
              (judge none (clashes filled r.params) w.running) _
              (ap (λ o. judge o (clashes filled r.params) w.running) h)
              (create_task-unknown registry name text fresh_id created entered now r w h)
              (refl, refl)
        | inr (f, h) ↦ elim (Bool-cases (clashes filled r.params)) [
          | inl c ↦
              by_verdict name text fresh_id created r w (refused 400) _ (rw (h, c) refl)
                (create_task-clashes registry name text fresh_id created entered now r w f h c)
                (refl, refl)
          | inr c ↦ elim (Bool-cases w.running) [
            | inl on ↦
                by_verdict name text fresh_id created r w (accepted f) _ (rw (h, c, on) refl) refl (
                  accepts registry name text fresh_id created entered now r w f h c on v room fresh
                    u)
            | inr off ↦
                by_verdict name text fresh_id created r w (refused 500) _ (rw (h, c, off) refl)
                  (create_task-submitted registry name text fresh_id created entered now r w f h c
                    ∙ add_task-stopped name text fresh_id created entered now r w f off)
                  (refl, refl)
          ]
        ]
      ]
