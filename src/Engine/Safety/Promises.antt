-- ===== src/Engine/Safety/Promises.antt =====
-- What a run of a playbook promises, in every state that its loop and its workers can reach from the
-- graph of `BuildDAG`.
use gxo.Prelude.{
  String, Bool, true, ◌≡◌, ◌≢◌, not, eq_refl, refl, ◌⊎◌, inl, inr, List, [], ◌∷◌, Option, some,
  arith, Bool-cases, contains, IsNodup,
}
use gxo.Prelude.Dict.{get}
use gxo.Errors.{Error, ok}
use gxo.Config.{Playbook}
use gxo.Dag.Defs.{TaskStatus, failed, Node, Dag}
use gxo.Dag.Build.{build_dag}
use gxo.Dag.Build.Built.{is_built}
use gxo.Engine.Defs.{Engine, is_terminal, is_pending}
use gxo.Engine.Schedule.{start_run, is_pending?}
use gxo.Engine.Steps.{Step, Reach}
use gxo.Engine.Safety.Unmet.{unmet}
use gxo.Engine.Safety.Inv.{started, done, is_done?, Inv, IsInOrder, ready-IsInOrder}
use gxo.Engine.Safety.Run.{Reach-Inv}
use gxo.Engine.Safety.Start.{IsSmall, start_run-Inv, start_run-Kept}
use gxo.Engine.Safety.Kept.{Kept, Reach-Kept, Step-final}
use gxo.Engine.Safety.Idle.{IsIdle, idle_done}

unmet_zero :
    (f : String → Bool) (ks : List String)
    → ((p : String) → contains p ks ≡ true → f p ≡ true)
    → unmet f ks ≡ 0
unfolding unmet contains
unmet_zero f [] h = refl
unmet_zero f (k ∷ ks) h =
    ground (arith, h k, eq_refl k, unmet_zero f ks (λ p c. h p (ground arith)))

module _ (mentions : Error → Bool) (extract : String → Option (List String)) (playbook : Playbook)
    (dag : Dag) (initial : List Node) (e0 e : Engine)
    (built : build_dag extract playbook ≡ ok (dag, initial)) (small : IsSmall dag)
    (run : Reach mentions (start_run dag initial e0) e) where
  run-Inv : Inv e
  run-Inv =
      Reach-Inv mentions (start_run dag initial e0) e
        (start_run-Inv dag initial (is_built extract playbook dag initial built) small e0) run

  run-Kept : Kept e
  run-Kept =
      Reach-Kept mentions (start_run dag initial e0) e
        (start_run-Inv dag initial (is_built extract playbook dag initial built) small e0)
        (start_run-Kept dag initial (is_built extract playbook dag initial built) small e0) run

  -- In every reachable state of a run on the graph of a successful `BuildDAG` whose nodes have fewer
  -- than 2 ^ 31 dependencies of each kind, a task that has been dispatched is a node all of whose
  -- stream dependencies have been dispatched and all of whose state dependencies are completed or
  -- skipped.
  pub dispatched-IsInOrder : (k : String) → contains k e.dispatched_tasks ≡ true → IsInOrder e k
  dispatched-IsInOrder k d = ready-IsInOrder e k run-Inv.graph (run-Inv.begun k d)

  -- In such a state a task whose stream dependencies have all been dispatched and whose state
  -- dependencies are all completed or skipped waits in the ready channel or has been dispatched.
  pub no_lost_wakeup :
      (k : String) (node : Node)
      → get k e.dag.nodes ≡ some node
      → ((p : String)
          → contains p node.stream_depends_on ≡ true
          → contains p e.dispatched_tasks ≡ true)
      → ((p : String)
          → contains p node.state_depends_on ≡ true
          → is_done? (get p e.task_statuses) ≡ true)
      → (contains k e.ready_chan ≡ true) ⊎ (contains k e.dispatched_tasks ≡ true)
  no_lost_wakeup k node here streams states = run-Inv.woken k (
    node,
    here,
    ground (
      arith,
      run-Inv.graph.streams k node here,
      run-Inv.graph.states k node here,
      unmet_zero (started e) node.stream_depends_on streams,
      unmet_zero (done e) node.state_depends_on states,
    ),
  )

  -- In such a state no task has been dispatched twice, and a task has been dispatched exactly when
  -- it has a status other than pending.
  pub dispatched_once :
      IsNodup e.dispatched_tasks
      × ((k : String) (s : TaskStatus)
          → get k e.task_statuses ≡ some s
          → contains k e.dispatched_tasks ≡ not (is_pending? (some s)))
  unfolding is_pending
  dispatched_once = (
    run-Kept.once,
    λ k s q. elim (Bool-cases (is_pending? (some s))) [
      | inl p ↦ ground (arith, run-Kept.left_pending k)
      | inr p ↦ ground (arith, run-Inv.opened k s q)
    ],
  )

  -- No step from such a state changes the status of a task that is completed, failed or skipped.
  pub terminal_status_final :
      (e' : Engine) (k : String) (s : TaskStatus)
      → Step mentions e e'
      → get k e.task_statuses ≡ some s
      → is_terminal s ≡ true
      → get k e'.task_statuses ≡ some s
  terminal_status_final = Step-final mentions e run-Inv run-Kept

  -- When in such a state the ready channel and the work queue are empty, no worker is busy and no
  -- task has failed, every task of the graph is completed or skipped.
  pub idle_run_is_done :
      IsIdle e
      → ((k : String) → get k e.task_statuses ≢ some failed)
      → (k : String) (node : Node) → get k e.dag.nodes ≡ some node
      → is_done? (get k e.task_statuses) ≡ true
  idle_run_is_done idle no_failure = idle_done e run-Inv run-Kept idle no_failure
