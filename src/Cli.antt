-- ===== src/Cli.antt =====
-- internal/cli/root.go, internal/buildinfo/buildinfo.go and cmd/finalweave-node/main.go: the commands
-- of finalweave-node. Texts are lists of bytes. Not part of the repository, and arguments here: what
-- cobra makes of the command line (`parse`), what encoding/json prints (`encode`), and whether a write
-- to the output succeeds (`write_error`).
pub mod VersionText
pub mod Outcome
mod Examples
use Prim.Native.Char.{code}
use Prim.Native.String.{String}
use final_weave.Prelude.{
  ℕ, Option, none, some, List, [], ◌∷◌, ◌++◌, if◌then◌else◌, ◌==◌, Bool, true, false, ◌&&◌,
}

-- The bytes of an ASCII text.
abbrev pub codes : String → List ℕ
codes String.[] = []
codes (String.◌∷◌ c s) = code c ∷ codes s

pub record Info : Type 0 where
  pub version : List ℕ
  pub commit : List ℕ
  pub date : List ℕ
  pub go_version : List ℕ
  pub os : List ℕ
  pub arch : List ℕ

-- The variables that a release build sets by -ldflags, and their values otherwise.
pub record BuildVars : Type 0 where
  pub version : List ℕ
  pub commit : List ℕ
  pub date : List ℕ

unfoldable pub default_build_vars : BuildVars
default_build_vars = record { version = codes "dev"; commit = codes "none"; date = codes "unknown" }

-- `Current`, for what package runtime says of the Go version, the system and the architecture.
unfoldable pub current : BuildVars → (go_version os arch : List ℕ) → Info
current vars go_version os arch = record {
  version = vars.version;
  commit = vars.commit;
  date = vars.date;
  go_version = go_version;
  os = os;
  arch = arch;
}

abbrev pub newline : ℕ
newline = 10

-- A name, a value, and the byte that ends it, before the rest of a text.
abbrev pub item : List ℕ → List ℕ → ℕ → List ℕ → List ℕ
item name value stop rest = name ++ (value ++ stop ∷ rest)

-- The text of the version command, as its format string says.
unfoldable pub version_text : Info → List ℕ
version_text info = item (codes "finalweave-node ") info.version newline (
    item (codes "commit: ") info.commit newline (
      item (codes "built: ") info.date newline (
        item (codes "go: ") info.go_version newline
          (item (codes "platform: ") info.os b'/' (item [] info.arch newline [])))))

pub data CliError : Type 0 where
  node_runtime_unavailable : CliError
  unsupported_output : List ℕ → CliError
  write_failed : ℕ → CliError
  refused_by_cobra : ℕ → CliError

-- What cobra makes of a command line: a command of the program, a text of its own, or an error.
pub data Invocation : Type 0 where
  root : Invocation
  version : (output : List ℕ) → Invocation
  own_text : List ℕ → Invocation
  refused : ℕ → Invocation

-- What a command wrote to its output, and its error.
pub record Ran : Type 0 where
  pub written : List (List ℕ)
  pub result : Option CliError

same_text : List ℕ → List ℕ → Bool
same_text [] [] = true
same_text (a ∷ s) (b ∷ t) = a == b && same_text s t
same_text _ _ = false

pub record Surroundings : Type 0 where
  pub parse : List (List ℕ) → Invocation
  pub encode : Info → List ℕ
  pub write_error : List ℕ → Option ℕ

module _ (around : Surroundings) where
  -- A write of a text, and the error of the command.
  unfoldable pub print : List ℕ → Ran
  print text = record {
    written = text ∷ [];
    result = elim (around.write_error text) [ none ↦ none | some n ↦ some (write_failed n) ];
  }

  -- `RunE` of the version command.
  unfoldable pub run_version : Info → List ℕ → Ran
  unfolding same_text
  run_version info output =
      if same_text output (codes "text")
      then print (version_text info)
      else if same_text output (codes "json")
      then print (around.encode info)
      else record { written = []; result = some (unsupported_output output) }

  -- `Execute` of the command that `NewNodeCommand` builds.
  unfoldable pub execute : Info → Invocation → Ran
  unfolding run_version
  execute info root = record { written = []; result = some node_runtime_unavailable }
  execute info (version output) = run_version info output
  execute info (own_text text) = record { written = text ∷ []; result = none }
  execute info (refused n) = record { written = []; result = some (refused_by_cobra n) }

-- What the process leaves: what it wrote, the error on stderr, and its exit code.
pub record Process : Type 0 where
  pub stdout : List (List ℕ)
  pub stderr : Option CliError
  pub exit_code : ℕ

unfoldable pub main : Surroundings → Info → List (List ℕ) → Process
unfolding execute
main around info args =
    let ran = execute around info (around.parse args) in
    record {
      stdout = ran.written;
      stderr = ran.result;
      exit_code = elim ran.result [ none ↦ 0 | some e ↦ 1 ];
    }
