-- ===== src/Planner/Samples.antt =====
-- Concrete tables of letters, a configuration, module lists and a discovered project for the tests of
-- crates/lean-rs-worker-parent/src/planning.rs.
use Prim.Native.Char.{Char, code}
use lean_rs.Common.{String, ◌⊎◌, inl, ◌&&◌, ◌||◌, Bool, Option, none, List, [], ◌∷◌, leb}
use lean_rs.Planner.Names.{CharClass}
use lean_rs.Planner.Config.{new_plan_config, plan_base_imports}
use lean_rs.Planner.Work.{
  LeanWorkerImportPlanConfig, LeanWorkerModuleWork, LeanModuleSetFingerprint,
  LeanLakeProjectModules,
}
use lean_rs.Planner.Plan.{PlanEnv}

-- The ASCII part of the tables.
abbrev pub letter : Char → Bool
letter c = (leb b'a' (code c) && leb (code c) b'z') || (leb b'A' (code c) && leb (code c) b'Z')

abbrev pub ascii : CharClass
ascii = record {
  is_alphabetic = letter;
  is_alphanumeric = λ c. letter c || (leb b'0' (code c) && leb (code c) b'9');
}

abbrev pub env : PlanEnv
env = record { class = ascii; canonicalize = λ path. none; current_toolchain = "lean4" }

abbrev pub config : LeanWorkerImportPlanConfig
config = plan_base_imports ("Init" ∷ []) (new_plan_config "/project" "demo" "Demo")

abbrev pub init_only : List String
init_only = "Init" ∷ []

abbrev pub work : String → String → List String → LeanWorkerModuleWork
work name root imports = record {
  module_name = name;
  path = "/project";
  source_root = root;
  imports = imports;
}

abbrev pub source_set : LeanModuleSetFingerprint
source_set = record {
  toolchain = "lean4";
  lakefile_sha256 = "00";
  manifest_sha256 = none;
  source_count = 3;
  source_max_mtime_ns = 7;
}

abbrev pub three : List LeanWorkerModuleWork
three =
    work "Demo.B" "Demo" ("Init" ∷ [])
    ∷ work "Tools.Run" "Tools" ("Init" ∷ [])
    ∷ work "Demo.A" "Demo" ("Init" ∷ [])
    ∷ []

abbrev pub lake : LeanLakeProjectModules
lake = record {
  requested_root = "/project";
  project_root = "/project";
  lakefile = "lakefile.toml";
  declared_lean_libs = "Demo" ∷ [];
  module_roots = "Demo" ∷ [];
  selected_roots = "Demo" ∷ [];
  modules = [];
  fingerprint = source_set;
}

abbrev pub discover : String → Option (List String) → LeanLakeProjectModules ⊎ String
discover root roots = inl lake
