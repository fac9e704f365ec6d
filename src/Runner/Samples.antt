-- ===== src/Runner/Samples.antt =====
-- A host, and a plan whose first step waits, fails and is rescued; for the tests.
use glidesh.Common.{
  ℕ, suc, ltb, pos, String, Bool, true, false, Option, none, some, [], ◌∷◌, str_eq, if◌then◌else◌,
  ok, err,
}
use glidesh.Detect.{OsInfo, debian, apt, systemd}
use glidesh.Plan.{Plan, Step, TaskDef, UntilGate, async, step}
use glidesh.RunAs.{inherit}
use glidesh.Runner.Interface.{Env, pending, ended}
use glidesh.Runner.Params.{NodeRunner}

abbrev pub debian_host : OsInfo
debian_host = record {
  id = "debian";
  version = "12";
  family = debian;
  pkg_manager = apt;
  init_system = systemd;
  container_runtime = none;
  nix_installed = false;
  facts = record {
    hostname = "web";
    kernel = "6.1";
    arch = "x86_64";
    cpu_count = "2";
    mem_total_mb = "2048";
    ip_default = "10.0.0.1";
  };
}

-- A world that counts what is asked of it; the gate's command exits 0 at the third attempt.
abbrev pub env : Env ℕ
env = record {
  connect = λ host n. (ok tt, n);
  detect_os = λ n. (ok debian_host, n);
  arrive = λ n. n;
  decrypt_vars = λ vars n. (ok vars, n);
  decrypt_template_data = λ data' n. (ok data', n);
  contains_secret_token = λ t. false;
  decrypt_inline = λ t n. (ok t, n);
  redact = λ n t. t;
  password = none;
  attempt = λ command run_as remaining n. (
    ended
        (ok (record {
          exit_code = if ltb n 2 then 1 else 0;
          stdout = "";
          stderr = "refused";
          stdout_cut = false;
        }))
        4,
    suc n,
  );
  has_module = λ name. str_eq name "shell";
  check = λ name ctx params n. (ok (pending "run it" none), suc n);
  apply = λ name ctx params n. (
    if str_eq params.resource_name "false"
        then err "exit 1"
        else ok (record {
          changed = true;
          output = "done";
          stderr = "";
          exit_code = pos 0;
          output_cut = false;
        }),
    suc n,
  );
  run_host_task = λ key params n. (err "no", n);
}

abbrev pub shell : String → Option String → TaskDef
shell command register = record {
  module_name = "shell";
  resource = command;
  args = [];
  register = register;
  run_as = inherit;
  when = none;
}

abbrev pub web_up : UntilGate
web_up = record { command = "curl web"; timeout = 60; interval = 10 }

abbrev pub deploy : Step
deploy = record {
  name = "deploy";
  tasks = shell "true" (some "out") ∷ shell "false" none ∷ [];
  loop_source = none;
  subscribe = [];
  run_as = inherit;
  when = none;
  tags = [];
  until = some web_up;
  rescue = shell "undo ${@error.task}" none ∷ [];
  always = [];
  source_dir = none;
}

abbrev pub report : Step
report = record deploy {
  name = "report";
  tasks = shell "report" none ∷ [];
  tags = "reports" ∷ [];
  until = none;
  rescue = [];
}

abbrev pub plan : Plan
plan = record {
  name = "site";
  mode = async;
  serial = [];
  max_fail = none;
  vars = [];
  structured_vars = [];
  vars_files = [];
  prompts = [];
  answers = [];
  run_as = inherit;
  items = step deploy ∷ step report ∷ [];
}

abbrev pub runner : Bool → NodeRunner
runner dry_run = record {
  host = record {
    name = "web";
    address = "web";
    user = "root";
    port = 22;
    vars = [];
    jump = none;
    run_as = inherit;
  };
  plan = plan;
  dry_run = dry_run;
  diff = false;
  tags = record { only = []; skip = "reports" ∷ [] };
  inventory_template_data = record { collections = []; extra_vars = [] };
  plan_base_dir = ".";
  sync = false;
}
