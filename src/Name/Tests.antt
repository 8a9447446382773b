-- ===== src/Name/Tests.antt =====
-- Names to run the check on.
use agent_sim.Base.{◌≡◌, refl, ◌↔◌, All, arith, ok, err, codes}
use agent_sim.Name.{
  validate_runtime_name, validate_instance_name, validate_env_name, is_allowed_name_char, IsName,
  IsSegment, chars-IsSegment, validate-IsName_iff,
}

rejected : validate_env_name (codes "env.main") ≡ err (codes "env", codes "env.main")
unfolding validate_env_name validate_runtime_name is_allowed_name_char
rejected = refl

accepted_runs : All IsSegment (codes "inst_1-a")
accepted_runs = chars-IsSegment (codes "inst_1-a") (ground arith)

validate-IsName_iff_example :
    ((validate_instance_name (codes "inst_1-a") ≡ ok tt) ↔ IsName (codes "inst_1-a"))
    × ((validate_env_name (codes "inst_1-a") ≡ ok tt) ↔ IsName (codes "inst_1-a"))
validate-IsName_iff_example = validate-IsName_iff (codes "inst_1-a")
