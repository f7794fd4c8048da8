-- ===== src/Db/Runs.antt =====
-- packages/db/src/repositories/run-repo.ts: the runs table. Every terminal write is conditional on
-- `status = 'running'`.
use swift_agent.Common.{
  ℕ, String, Bool, true, false, ◌&&◌, List, [], ◌∷◌, ◌++◌, Option, none, some, str_eq,
}
use swift_agent.Shared.{RunStatus, running, completed, failed, cancelled, timed_out}
use swift_agent.Db.Table.{update_where}

pub record TokenUsage : Type 0 where
  pub input_tokens : ℕ
  pub output_tokens : ℕ
  pub total_tokens : ℕ

pub record RunRow : Type 0 where
  pub run_id : String
  pub session_id : String
  pub status : RunStatus
  pub model : String
  pub token_usage : Option TokenUsage

abbrev pub is_running : RunStatus → Bool
is_running running = true
is_running _ = false

-- `where(and(eq(runs.runId, runId), eq(runs.status, 'running')))`
abbrev pub is_live : String → RunRow → Bool
is_live run_id r = str_eq r.run_id run_id && is_running r.status

-- A new row is `running`, the column's default.
unfoldable pub create : String → String → String → List RunRow → List RunRow
create run_id session_id model rows =
    rows
    ++ record {
      run_id = run_id;
      session_id = session_id;
      status = running;
      model = model;
      token_usage = none;
    }
      ∷ []

-- The shared form of `complete`, `fail`, `cancel` and `timeout`.
unfoldable pub finish : String → RunStatus → List RunRow → List RunRow
finish run_id to = update_where (is_live run_id) (λ r. record r { status = to })

unfoldable pub complete : String → TokenUsage → List RunRow → List RunRow
complete run_id usage =
    update_where (is_live run_id) (λ r. record r { status = completed; token_usage = some usage })

unfoldable pub fail : String → List RunRow → List RunRow
unfolding finish
fail run_id = finish run_id failed

unfoldable pub cancel : String → List RunRow → List RunRow
unfolding finish
cancel run_id = finish run_id cancelled

unfoldable pub timeout : String → List RunRow → List RunRow
unfolding finish
timeout run_id = finish run_id timed_out

-- `updateStatus`, the one write with no guard.
unfoldable pub update_status : String → RunStatus → List RunRow → List RunRow
update_status run_id to = update_where (λ r. str_eq r.run_id run_id) (λ r. record r { status = to })
