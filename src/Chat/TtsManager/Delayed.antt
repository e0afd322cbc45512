-- ===== src/Chat/TtsManager/Delayed.antt =====
-- The delayed sentences of tts_manager.rs: `insert_delayed_task` and a step of
-- `run_delayed_sentence_loop`.
use xiaozhi_esp32_server_rus.Common.{
  ℕ, ◌≤◌, ◌≡◌, refl, Bool, true, false, List, [], ◌∷◌, ◌++◌, ltb, ◌==◌, if◌then◌else◌, arith, ◌<◌,
  Bool-cases, inl, inr,
}
use xiaozhi_esp32_server_rus.Chat.TtsManager.{AudioQueueElem, TtsManager, Effect, ended}

pub record DelayedSentenceTask : Type 0 where
  pub elem : AudioQueueElem
  pub execute_at : ℕ

-- Whether a task is due no later than this one.
abbrev has_due : DelayedSentenceTask → List DelayedSentenceTask → Bool
has_due task [] = false
has_due task (t ∷ ts) =
    let rest = has_due task ts in if ltb task.execute_at t.execute_at then rest else true

-- From the end, the tasks that are due later are passed over: so the task goes behind the last one
-- that is not.
unfoldable pub insert_delayed_task :
    List DelayedSentenceTask → DelayedSentenceTask → List DelayedSentenceTask
insert_delayed_task [] task = task ∷ []
insert_delayed_task (t ∷ ts) task =
    let behind = t ∷ insert_delayed_task ts task in
    if ltb task.execute_at t.execute_at
    then (if has_due task ts then behind else task ∷ t ∷ ts)
    else behind

-- The first task is due: it is ready, unless it is stale.
unfoldable pub fire_delayed :
    TtsManager
    → List DelayedSentenceTask
    → List AudioQueueElem
    → List DelayedSentenceTask × List AudioQueueElem × List Effect
fire_delayed m [] ready = ([], ready, [])
fire_delayed m (t ∷ ts) ready =
    if t.elem.generation == m.audio_generation
    then (ts, ready ++ t.elem ∷ [], [])
    else (ts, ready, ended t.elem.on_end true)

abbrev AllFrom : ℕ → List DelayedSentenceTask → Type 0
AllFrom n [] = Unit {0}
AllFrom n (t ∷ ts) = (n ≤ t.execute_at) × AllFrom n ts

-- In the order in which they are due.
abbrev IsOrdered : List DelayedSentenceTask → Type 0
IsOrdered [] = Unit {0}
IsOrdered (t ∷ ts) = AllFrom t.execute_at ts × IsOrdered ts

-- The tasks that are due at a time, in their order.
abbrev due_at : ℕ → List DelayedSentenceTask → List DelayedSentenceTask
due_at n [] = []
due_at n (t ∷ ts) = let rest = due_at n ts in if t.execute_at == n then t ∷ rest else rest

AllFrom-le : (n k : ℕ) (ts : List DelayedSentenceTask) → n ≤ k → AllFrom k ts → AllFrom n ts
AllFrom-le n k [] l h = h
AllFrom-le n k (t ∷ ts) l (h, hs) = (omega arith, AllFrom-le n k ts l hs)

has_due-false :
    (task : DelayedSentenceTask) (k : ℕ) (ts : List DelayedSentenceTask)
    → AllFrom k ts
    → (ltb task.execute_at k ≡ true)
    → has_due task ts ≡ false
has_due-false task k [] h l = refl
has_due-false task k (t ∷ ts) (h, hs) l = ground (arith, has_due-false task k ts hs l)

-- A task that is due before the head goes to the front of tasks in order, and otherwise behind it.
insert-cons :
    (t : DelayedSentenceTask) (ts : List DelayedSentenceTask) (task : DelayedSentenceTask)
    → AllFrom t.execute_at ts
    → insert_delayed_task (t ∷ ts) task ≡ (
        if ltb task.execute_at t.execute_at then task ∷ t ∷ ts else t ∷ insert_delayed_task ts task)
unfolding insert_delayed_task
insert-cons t ts task h = ground (arith, has_due-false task t.execute_at ts h)

insert-AllFrom :
    (n : ℕ) (ts : List DelayedSentenceTask) (task : DelayedSentenceTask)
    → AllFrom n ts
    → IsOrdered ts
    → n ≤ task.execute_at
    → AllFrom n (insert_delayed_task ts task)
insert-AllFrom n [] task h o l = unfold insert_delayed_task in (l, tt)
insert-AllFrom n (t ∷ ts) task (h, hs) (o, os) l =
    elim (Bool-cases (ltb task.execute_at t.execute_at)) [
      | inl e ↦ rw (insert-cons t ts task o, e) (l, (h, hs))
      | inr e ↦ rw (insert-cons t ts task o, e) (h, insert-AllFrom n ts task hs os l)
    ]

insert-IsOrdered :
    (ts : List DelayedSentenceTask) (task : DelayedSentenceTask)
    → IsOrdered ts
    → IsOrdered (insert_delayed_task ts task)
insert-IsOrdered [] task h = unfold insert_delayed_task in (tt, tt)
insert-IsOrdered (t ∷ ts) task (h, hs) = elim (Bool-cases (ltb task.execute_at t.execute_at)) [
  | inl e ↦
      rw (insert-cons t ts task h, e)
        ((ground arith, AllFrom-le task.execute_at t.execute_at ts (ground arith) h), (h, hs))
  | inr e ↦
      rw (insert-cons t ts task h, e)
        (insert-AllFrom t.execute_at ts task h hs (ground arith), insert-IsOrdered ts task hs)
]

due_at-none : (n k : ℕ) (ts : List DelayedSentenceTask) → n < k → AllFrom k ts → due_at n ts ≡ []
due_at-none n k [] l h = refl
due_at-none n k (t ∷ ts) l (h, hs) = ground (arith, due_at-none n k ts l hs)

insert-due :
    (n : ℕ) (ts : List DelayedSentenceTask) (task : DelayedSentenceTask)
    → IsOrdered ts
    → due_at n (insert_delayed_task ts task)
      ≡ (if task.execute_at == n then due_at n ts ++ task ∷ [] else due_at n ts)
insert-due n [] task h = unfold insert_delayed_task in ground arith
insert-due n (t ∷ ts) task (h, hs) =
    rw (insert-cons t ts task h)
      (ground (arith, insert-due n ts task hs, due_at-none n t.execute_at ts))

-- Delayed sentences that are in the order of their times stay so when one is inserted, and those of
-- one time keep the order in which they came: the new one is the last of its time.
insert-stable :
    (ts : List DelayedSentenceTask) (task : DelayedSentenceTask)
    → IsOrdered ts
    → IsOrdered (insert_delayed_task ts task)
      × ((n : ℕ)
          → due_at n (insert_delayed_task ts task)
            ≡ (if task.execute_at == n then due_at n ts ++ task ∷ [] else due_at n ts))
insert-stable ts task h = (insert-IsOrdered ts task h, λ n. insert-due n ts task h)
