-- ===== src/Recovery/Owners.antt =====
-- Who owns a run (app/runtime_modules/run_owner.py). The name of the host, the process number, and
-- whether the system says that a process is alive are fields of `Process`.
use ai_agent_workflow.Prelude.{
  ℕ, String, Bool, true, false, not, ◌&&◌, ◌||◌, Option, none, some, str_eq, if◌then◌else◌, ◌==◌,
  or_else,
}

pub record Process : Type 0 where
  pub id : String
  pub host : String
  pub pid : ℕ
  pub started_at : String
  pub is_alive : ℕ → Bool

-- A missing `pid` stands also for 0 and for negative numbers.
pub record Owner : Type 0 where
  pub id : Option String
  pub host : Option String
  pub pid : Option ℕ
  pub started_at : Option String

unfoldable pub current_run_owner : Process → Owner
current_run_owner process = record {
  id = some process.id;
  host = some process.host;
  pid = some process.pid;
  started_at = some process.started_at;
}

abbrev pub is_text : Option String → String → Bool
is_text none s = false
is_text (some t) s = str_eq t s

abbrev pub is_number : Option ℕ → ℕ → Bool
is_number none n = false
is_number (some m) n = m == n

unfoldable pub owner_matches_current_process : Process → Owner → Bool
owner_matches_current_process process owner =
    is_text owner.id process.id
    || (is_text owner.host process.host && is_number owner.pid process.pid)

abbrev pub pid_is_alive : Process → Option ℕ → Bool
pid_is_alive process none = false
pid_is_alive process (some pid) = if pid == process.pid then true else process.is_alive pid

unfoldable pub owner_process_is_alive : Process → Owner → Bool
owner_process_is_alive process owner =
    if not (str_eq (or_else owner.host "") process.host)
    then true
    else pid_is_alive process owner.pid
