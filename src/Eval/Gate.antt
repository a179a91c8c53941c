-- ===== src/Eval/Gate.antt =====
-- packages/cli/src/eval/coding-gate.ts and coding-pm.ts: candidates are gated one after the other in
-- one working directory, with one install per lockfile hash. Running a command and the admission
-- gate act on a world that is a parameter; a command may fail.
pub mod Ready
use codewatch.Base.{
  string_eq, contains, opt_beq, [], true, ◌∷◌, if◌then◌else◌, false, List, String, Bool, ℕ, Option,
  none, some,
}

pub data PackageManager : Type 0 where
  pnpm : PackageManager
  npm : PackageManager

pub record RepoCommands : Type 0 where
  pub manager : PackageManager
  pub install : List String
  pub test : List String

abbrev vitest_json : List String
vitest_json = "vitest" ∷ ("run" ∷ ("--reporter=json" ∷ ("--no-color" ∷ [])))

abbrev pub install_of : PackageManager → List String
install_of PackageManager.pnpm =
    "pnpm" ∷ ("install" ∷ ("--frozen-lockfile" ∷ ("--ignore-scripts" ∷ [])))
install_of PackageManager.npm = "npm" ∷ ("ci" ∷ ("--ignore-scripts" ∷ []))

abbrev pub test_of : PackageManager → List String
test_of PackageManager.pnpm = "pnpm" ∷ ("exec" ∷ vitest_json)
test_of PackageManager.npm = "npm" ∷ ("exec" ∷ ("--no" ∷ ("--" ∷ vitest_json)))

-- `none` where the source throws.
unfoldable pub manager_for : List String → Option PackageManager
manager_for lockfiles =
    if contains lockfiles "pnpm-lock.yaml"
    then some PackageManager.pnpm
    else if contains lockfiles "package-lock.json"
    then some PackageManager.npm
    else none

abbrev pub override_or : List String → Option (List String) → List String
override_or default none = default
override_or default (some []) = default
override_or default (some (a ∷ argv)) = a ∷ argv

abbrev pub commands_of : Option (List String) → Option PackageManager → Option RepoCommands
commands_of test_override none = none
commands_of test_override (some manager) = some (record {
  manager = manager;
  install = install_of manager;
  test = override_or (test_of manager) test_override;
})

unfoldable pub select_repo_commands : List String → Option (List String) → Option RepoCommands
select_repo_commands lockfiles test_override = commands_of test_override (manager_for lockfiles)

pub record Candidate : Type 0 where
  pub parent_commit : String
  pub fix_commit : String
  pub test_files : List String
  pub test_patch_diff : String
  pub lockfiles : List String
  pub lockfile_hash : String

pub record GateSettings : Type 0 where
  pub runs : ℕ
  pub test_command : Option (List String)

pub record GateOptions : Type 0 where
  pub runs : ℕ
  pub test_files : List String
  pub test_patch_diff : String
  pub parent_commit : String
  pub fix_commit : String
  pub command : List String

pub record GateState (W : Type 0) : Type 0 where
  pub world : W
  pub installed_hash : Option String

-- The result: an environment error, or what the admission gate says.
pub data GateOutcome (R : Type 0) : Type 0 where
  env_error : GateOutcome R
  admitted : R → GateOutcome R

-- A command's world and whether it succeeded.
abbrev pub and_then : {W : Type 0} → W × Bool → (W → W × Bool) → W × Bool
and_then (w, false) next = (w, false)
and_then (w, true) next = next w

module _ {W R : Type 0} (run : List String → W → W × Bool) (admit : GateOptions → W → W × R) where
  unfoldable pub checkout_and_install : String → List String → W → W × Bool
  checkout_and_install parent_commit install w =
      and_then (run ("git" ∷ ("checkout" ∷ ("-f" ∷ (parent_commit ∷ [])))) w)
        (λ v. and_then (run ("git" ∷ ("clean" ∷ ("-fdq" ∷ []))) v) (λ u. run install u))

  abbrev after_install : Candidate → W × Bool → GateState W
  after_install c (w, true) = record { world = w; installed_hash = some c.lockfile_hash }
  after_install c (w, false) = record { world = w; installed_hash = none }

  abbrev prepare : GateState W → Candidate → RepoCommands → GateState W
  prepare s c commands =
      if opt_beq s.installed_hash (some c.lockfile_hash)
      then s
      else after_install c (checkout_and_install c.parent_commit commands.install s.world)

  abbrev options_of : GateSettings → Candidate → RepoCommands → GateOptions
  options_of settings c commands = record {
    runs = settings.runs;
    test_files = c.test_files;
    test_patch_diff = c.test_patch_diff;
    parent_commit = c.parent_commit;
    fix_commit = c.fix_commit;
    command = commands.test;
  }

  -- A failed install leaves no hash behind.
  abbrev admitted_in :
      GateSettings → Candidate → RepoCommands → GateState W → GateState W × GateOutcome R
  admitted_in settings c commands s = elim s.installed_hash [
    | none ↦ (s, GateOutcome.env_error)
    | some hash ↦
        let r = admit (options_of settings c commands) s.world in
        (record { world = r.0; installed_hash = some hash }, GateOutcome.admitted r.1)
  ]

  abbrev gated :
      GateSettings → GateState W → Candidate → Option RepoCommands → GateState W × GateOutcome R
  gated settings s c none = (s, GateOutcome.env_error)
  gated settings s c (some commands) = admitted_in settings c commands (prepare s c commands)

  unfoldable pub gate : GateSettings → GateState W → Candidate → GateState W × GateOutcome R
  gate settings s c = gated settings s c (select_repo_commands c.lockfiles settings.test_command)

  unfoldable pub gate_all : GateSettings → GateState W → List Candidate → GateState W
  gate_all settings s [] = s
  gate_all settings s (c ∷ cs) = gate_all settings (gate settings s c).0 cs
