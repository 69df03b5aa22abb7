-- ===== src/Circuit/Keys.antt =====
-- The circuits of two providers do not touch each other.
use ai_agent_workflow.Prelude.{ℕ, String, ◌≡◌, ◌∙◌, Bool, arith, str_eq, eq_iff, if◌then◌else◌}
use ai_agent_workflow.Prelude.Dict.{put, get-put}
use ai_agent_workflow.Circuit.Breaker.{
  Circuit, Settings, Circuits, circuit_at, allow_circuit, succeed, fail, allow, record_success,
  record_failure, snapshot,
}

module _ (k j : String) (circuits : Circuits) where
  circuit_at-put :
      (c : Circuit)
      → circuit_at (put circuits k c) j ≡ (if str_eq k j then c else circuit_at circuits j)
  circuit_at-put c = rw get-put (ground arith)

  -- Each method writes the circuit of its own key and leaves that of any other key.
  pub methods_by_key :
      (cfg : Settings) (error : String) (transient : Bool) (now : ℕ)
      → let own = circuit_at circuits k in
        let other = circuit_at circuits j in
        (circuit_at (allow k now circuits).0 j
          ≡ (if str_eq k j then (allow_circuit now own).0 else other))
        × (circuit_at (record_success k now circuits).0 j
            ≡ (if str_eq k j then succeed now own else other))
        × (circuit_at (record_failure cfg k error transient now circuits).0 j
            ≡ (if str_eq k j then fail cfg error transient now own else other))
        × (circuit_at (snapshot k now circuits).0 j ≡ other)
  unfolding allow record_success record_failure snapshot
  methods_by_key cfg error transient now = (
    circuit_at-put _,
    circuit_at-put _,
    circuit_at-put _,
    circuit_at-put _ ∙ ground (arith, eq_iff k j),
  )
