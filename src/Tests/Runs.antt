-- ===== src/Tests/Runs.antt =====
-- Runs of the sample playbook.
use gxo.Prelude.{
  ℕ, ◌+◌, String, true, not, ◌≡◌, ◌≢◌, refl, sym, ap, ◌∙◌, ◌⊎◌, List, [], ◌∷◌, none, some, arith,
  contains, IsNodup,
}
use gxo.Prelude.Dict.{Dict, get, put, keys}
use gxo.Prelude.Int.{pos, decrement32}
use gxo.Dag.Defs.{TaskStatus, node_ids, completed, failed, Node, update_node}
use gxo.Engine.Defs.{Engine, is_terminal, is_pending, is_failed, is_done}
use gxo.Engine.Schedule.{
  launch, launched, start_run, launch, launched, receive_ready, worker_start, worker_finish,
  remove_one, is_pending?,
}
use gxo.Engine.Steps.{take_ready, take_work, finish_work, Reach, here, next}
use gxo.Engine.Safety.Inv.{is_done?, IsInOrder}
use gxo.Engine.Safety.Idle.{IsIdle}
use gxo.Engine.Safety.Promises.{
  dispatched-IsInOrder, no_lost_wakeup, dispatched_once, terminal_status_final, idle_run_is_done,
}
use gxo.Tests.Samples.{extract, sample, sample_dag, gen_node, use_node, post_node, blank, mentions}
use gxo.Engine.Safety.Launch.{launch_succeeds}
use gxo.Tests.Graphs.{sample_builds, sample_small}

-- A task is taken from the ready channel, then from the queue, and then it completes.
abbrev taken : ℕ → String → List String → Engine → Engine
taken now id rest e = receive_ready mentions now id none (record e { ready_chan = rest })

abbrev begun : String → Engine → Engine
begun id e = worker_start mentions id (record e { work_queue = [] })

abbrev ended : ℕ → String → Engine → Engine
ended now id e = worker_finish mentions now id none e

abbrev begin : Engine
begin = start_run sample_dag (gen_node ∷ []) blank

abbrev after_gen : Engine
after_gen = ended 2 "t0" (begun "t0" (taken 1 "t0" [] begin))

abbrev use_taken : Engine
use_taken = taken 3 "t1" ("t2" ∷ []) after_gen

abbrev after_use : Engine
after_use = ended 4 "t1" (begun "t1" use_taken)

abbrev after_post : Engine
after_post = ended 6 "t2" (begun "t2" (taken 5 "t2" [] after_use))

-- The round of one task, where it is the first that waits and the queue is empty.
round :
    (s e : Engine) (now : ℕ) (id : String) (rest : List String)
    → Reach mentions s e
    → e.ready_chan ≡ id ∷ rest
    → (taken now id rest e).work_queue ≡ id ∷ []
    → contains id (begun id (taken now id rest e)).worker_tasks ≡ true
    → Reach mentions s (ended (now + 1) id (begun id (taken now id rest e)))
round s e now id rest r ready work busy =
    next (next (next r (take_ready now id rest none ready refl)) (take_work id [] work refl))
      (finish_work (now + 1) id none busy refl)

gen_run : Reach mentions begin after_gen
unfolding start_run receive_ready worker_start worker_finish get put keys contains is_pending
    decrement32 update_node is_terminal is_failed is_done remove_one
gen_run = round begin begin 1 "t0" [] here refl refl refl

use_run : Reach mentions begin use_taken
unfolding start_run receive_ready worker_start worker_finish get put keys contains is_pending
    decrement32 update_node is_terminal is_failed is_done remove_one
use_run = next gen_run (take_ready 3 "t1" ("t2" ∷ []) none refl refl)

whole_run : Reach mentions begin after_post
unfolding start_run receive_ready worker_start worker_finish get put keys contains is_pending
    decrement32 update_node is_terminal is_failed is_done remove_one
whole_run =
    round begin after_use 5 "t2" []
      (round begin after_gen 3 "t1" ("t2" ∷ []) gen_run refl refl refl) refl refl refl

dispatched-IsInOrder_example : IsInOrder use_taken "t1"
unfolding start_run receive_ready worker_start worker_finish get put keys contains is_pending
    decrement32 update_node is_terminal is_failed is_done remove_one
dispatched-IsInOrder_example =
    dispatched-IsInOrder mentions extract sample sample_dag (gen_node ∷ []) blank use_taken
      sample_builds sample_small use_run "t1" refl

-- `use` waits for `gen` alone, which has been dispatched.
abbrev waiting_use : Node
waiting_use = record use_node { stream_deps_remaining = pos 0 }

no_lost_wakeup_example :
    (contains "t1" after_gen.ready_chan ≡ true) ⊎ (contains "t1" after_gen.dispatched_tasks ≡ true)
unfolding start_run receive_ready worker_start worker_finish get put keys contains is_pending
    decrement32 update_node is_terminal is_failed is_done remove_one
no_lost_wakeup_example =
    no_lost_wakeup mentions extract sample sample_dag (gen_node ∷ []) blank after_gen sample_builds
      sample_small gen_run "t1" waiting_use refl (λ p c. ground arith) (λ p c. ground arith)

dispatched_once_example :
    IsNodup use_taken.dispatched_tasks
    × ((k : String) (s : TaskStatus)
        → get k use_taken.task_statuses ≡ some s
        → contains k use_taken.dispatched_tasks ≡ not (is_pending? (some s)))
dispatched_once_example =
    dispatched_once mentions extract sample sample_dag (gen_node ∷ []) blank use_taken sample_builds
      sample_small use_run

terminal_status_final_example : get "t0" use_taken.task_statuses ≡ some completed
unfolding start_run receive_ready worker_start worker_finish get put keys contains is_pending
    decrement32 update_node is_terminal is_failed is_done remove_one
terminal_status_final_example =
    terminal_status_final mentions extract sample sample_dag (gen_node ∷ []) blank after_gen
      sample_builds sample_small gen_run use_taken "t0" completed
      (take_ready 3 "t1" ("t2" ∷ []) none refl refl) refl refl

IsIdle-after_post : IsIdle after_post
unfolding start_run receive_ready worker_start worker_finish get put keys contains is_pending
    decrement32 update_node is_terminal is_failed is_done remove_one
IsIdle-after_post = record { no_ready = refl; no_queue = refl; no_tasks = refl }

abbrev all_completed : Dict TaskStatus
all_completed = ("t0", completed) ∷ ("t1", completed) ∷ ("t2", completed) ∷ []

final_statuses : after_post.task_statuses ≡ all_completed
unfolding start_run receive_ready worker_start worker_finish get put keys contains is_pending
    decrement32 update_node is_terminal is_failed is_done remove_one
final_statuses = refl

none_failed : (k : String) → get k all_completed ≢ some failed
unfolding get
none_failed k q = ground arith

nothing_failed : (k : String) → get k after_post.task_statuses ≢ some failed
nothing_failed k q = none_failed k (sym (ap (get k) final_statuses) ∙ q)

abbrev done_post : Node
done_post = record post_node { state_deps_remaining = pos 0 }

done_post_here : get "t2" after_post.dag.nodes ≡ some done_post
unfolding start_run receive_ready worker_start worker_finish get put keys contains is_pending
    decrement32 update_node is_terminal is_failed is_done remove_one
done_post_here = refl

idle_run_is_done_example : is_done? (get "t2" after_post.task_statuses) ≡ true
idle_run_is_done_example =
    idle_run_is_done mentions extract sample sample_dag (gen_node ∷ []) blank after_post
      sample_builds sample_small whole_run IsIdle-after_post nothing_failed "t2" done_post
      done_post_here

launch_succeeds_example :
    launch sample_dag (gen_node ∷ []) blank ≡ launched (start_run sample_dag (gen_node ∷ []) blank)
unfolding node_ids keys
launch_succeeds_example =
    launch_succeeds extract sample sample_dag (gen_node ∷ []) blank sample_builds (omega arith)
