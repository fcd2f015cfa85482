-- ===== src/Engine/Counts.antt =====
-- `countTerminalTasks`, `countRunnablePendingTasks` and `hasPendingTasks`.
use gxo.Prelude.{ℕ, suc, String, Bool, false, ◌&&◌, ◌||◌, [], ◌∷◌, none, some, if◌then◌else◌}
use gxo.Prelude.Dict.{Dict, get}
use gxo.Dag.Defs.{TaskStatus, Dag}
use gxo.Engine.Defs.{is_terminal, is_pending}
use gxo.Engine.Signals.{is_task_ready}

unfoldable pub count_terminal_tasks : Dict TaskStatus → ℕ
unfolding is_terminal
count_terminal_tasks [] = 0
count_terminal_tasks ((id, status) ∷ statuses) =
    let rest = count_terminal_tasks statuses in if is_terminal status then suc rest else rest

-- A status whose node is missing is not counted.
unfoldable pub is_runnable : Dag → String → Bool
is_runnable dag id = elim (get id dag.nodes) [ none ↦ false | some node ↦ is_task_ready node ]

unfoldable pub count_runnable_pending_tasks : Dag → Dict TaskStatus → ℕ
unfolding is_pending is_runnable
count_runnable_pending_tasks dag [] = 0
count_runnable_pending_tasks dag ((id, status) ∷ statuses) =
    let rest = count_runnable_pending_tasks dag statuses in
    if is_pending status && is_runnable dag id then suc rest else rest

unfoldable pub has_pending_tasks : Dict TaskStatus → Bool
unfolding is_pending
has_pending_tasks [] = false
has_pending_tasks ((id, status) ∷ statuses) = is_pending status || has_pending_tasks statuses
