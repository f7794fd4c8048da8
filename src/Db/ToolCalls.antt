-- ===== src/Db/ToolCalls.antt =====
-- packages/db/src/repositories/tool-call-repo.ts: the tool_calls table. `updateResult` and `fail`
-- are conditional on `status = 'started'`.
use swift_agent.Common.{
  String, Bool, true, false, ◌&&◌, List, [], ◌∷◌, ◌++◌, Option, none, some, str_eq,
}
use swift_agent.Json.{Json}
use swift_agent.Shared.{ToolCallStatus, started, failed}
use swift_agent.Db.Table.{update_where}

pub record ToolCallRow : Type 0 where
  pub call_id : String
  pub run_id : String
  pub tool_name : String
  pub input : Json
  pub output : Option Json
  pub status : ToolCallStatus

abbrev pub is_started : ToolCallStatus → Bool
is_started started = true
is_started _ = false

abbrev pub is_open : String → ToolCallRow → Bool
is_open call_id r = str_eq r.call_id call_id && is_started r.status

unfoldable pub create : String → String → String → Json → List ToolCallRow → List ToolCallRow
create call_id run_id tool_name input rows =
    rows
    ++ record {
      call_id = call_id;
      run_id = run_id;
      tool_name = tool_name;
      input = input;
      output = none;
      status = started;
    }
      ∷ []

unfoldable pub update_result : String → Json → ToolCallStatus → List ToolCallRow → List ToolCallRow
update_result call_id output to =
    update_where (is_open call_id) (λ r. record r { output = some output; status = to })

unfoldable pub fail : String → List ToolCallRow → List ToolCallRow
fail call_id = update_where (is_open call_id) (λ r. record r { status = failed })
