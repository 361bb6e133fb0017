-- ===== src/Program/Threads/Refinement.antt =====
-- The program with the workers of its pools, against the program in which a task may be run at any
-- time.
use neo_group_captcha_bot.Common.{
  ℕ, ◌≡◌, ◌≤◌, refl, ap, ◌∙◌, sym, List, [], ◌∷◌, ◌++◌, Option, none, some, Bytes,
}
use neo_group_captcha_bot.ThreadPool.{Phase, holding, idle, waiting, leaving, ThreadPool}
use neo_group_captcha_bot.ThreadPool.System.{phase_of}
use neo_group_captcha_bot.State.{Task, World, new_world}
use neo_group_captcha_bot.Requests.{outbox}
use neo_group_captcha_bot.Program.{Event, runs}
use neo_group_captcha_bot.Program
use neo_group_captcha_bot.Program.Messages.{messages}
use neo_group_captcha_bot.Program.Messages.Bound.{run-messages_bounded}
use neo_group_captcha_bot.Program.Messages.Replies.{AllReplies, sends_only_replies}
use neo_group_captcha_bot.Program.Threads.{
  Pool, executors, asyncs, Act, polls, takes, exits, works, Move, program, worker, pool_of,
  set_pool, owner, perform, after_task, work, act_on, move_worker, step, run,
}
use neo_group_captcha_bot.Program.Threads.Erasure.{erase, Alike}
use neo_group_captcha_bot.Program.Threads.Steps.{run-Alike}

-- The event that a move is: a worker's is the task that it runs, if it has one in its hand.
task_event : Option (Phase Task) → Bytes → List Event
task_event (some (holding task)) line = runs (owner task) task line ∷ []
task_event _ line = []

worker_event : Option (ThreadPool Task) → Act → List Event
unfolding task_event
worker_event (some p) (works i line) = task_event (phase_of i p.workers) line
worker_event _ a = []

event_of : World → Move → List Event
unfolding worker_event
event_of w (program e) = e ∷ []
event_of w (worker pl a) = worker_event (pool_of pl w) a

pub events_of : World → List Move → List Event
unfolding event_of
events_of w [] = []
events_of w (m ∷ ms) = event_of w m ++ events_of (step w m) ms

set_pool-Alike : (pl : Pool) (p : ThreadPool Task) (w : World) → Alike (set_pool pl p w) w
unfolding erase set_pool
set_pool-Alike executors p w = refl
set_pool-Alike asyncs p w = refl

after_task-Alike :
    (pl : Pool) (i : ℕ) (o : Option (ThreadPool Task)) (w : World) → Alike (after_task pl i o w) w
unfolding after_task
after_task-Alike pl i none w = refl
after_task-Alike pl i (some p) w = set_pool-Alike pl _ w

work-Alike :
    (o : Option (Phase Task)) (pl : Pool) (i : ℕ) (line : Bytes) (w : World)
    → Alike (work o pl i line w) (Program.run w (task_event o line))
unfolding work task_event perform Program.run Program.step
work-Alike (some (holding task)) pl i line w = after_task-Alike pl i _ (perform task line w)
work-Alike (some idle) pl i line w = refl
work-Alike (some (waiting n)) pl i line w = refl
work-Alike (some leaving) pl i line w = refl
work-Alike none pl i line w = refl

worker-Alike :
    (o : Option (ThreadPool Task)) (pl : Pool) (a : Act) (w : World)
    → Alike (move_worker o pl a w) (Program.run w (worker_event o a))
unfolding move_worker act_on worker_event Program.run
worker-Alike none pl a w = refl
worker-Alike (some p) pl (polls i) w = set_pool-Alike pl _ w
worker-Alike (some p) pl (takes i) w = set_pool-Alike pl _ w
worker-Alike (some p) pl (exits i) w = set_pool-Alike pl _ w
worker-Alike (some p) pl (works i line) w = work-Alike (phase_of i p.workers) pl i line w

step-events : (w : World) (m : Move) → Alike (step w m) (Program.run w (event_of w m))
unfolding step event_of Program.run
step-events w (program e) = refl
step-events w (worker pl a) = worker-Alike (pool_of pl w) pl a w

run-append :
    (w : World) (es more : List Event)
    → Program.run w (es ++ more) ≡ Program.run (Program.run w es) more
unfolding Program.run
run-append w [] more = refl
run-append w (e ∷ es) more = run-append (Program.step w e) es more

-- The pools' workers only do what the program allows at any time: whatever the threads do, in any
-- order, everything but the two pools is as after the program's own events with the tasks that
-- workers held put in between, each at the place where it was run and on the session that it
-- captured.
pub run-events : (ms : List Move) (w : World) → Alike (run w ms) (Program.run w (events_of w ms))
unfolding run events_of
run-events [] w = unfold Program.run in refl
run-events (m ∷ ms) w =
    run-events ms (step w m)
    ∙ run-Alike (events_of (step w m) ms) (step w m) (Program.run w (event_of w m))
        (step-events w m)
    ∙ ap erase (sym (run-append w (event_of w m) (events_of (step w m) ms)))

outbox-Alike : (w v : World) → Alike w v → outbox w.manager ≡ outbox v.manager
unfolding erase
outbox-Alike w v e = ap (λ (x : World). outbox x.manager) e

-- With the workers, too: at most eleven messages are sent, and each is a reply.
threads_send_replies :
    (ms : List Move)
    → let es = events_of new_world ms in
      let sent = outbox (run new_world ms).manager in (messages sent ≤ 11) × AllReplies es sent
threads_send_replies ms =
    let es = events_of new_world ms in
    let e = outbox-Alike (run new_world ms) (Program.run new_world es) (run-events ms new_world) in
    rw e ((run-messages_bounded es).1, sends_only_replies es)
