-- ===== src/Cli/Examples.antt =====
-- The build of internal/cli/root_test.go, printed and read back, and a call without a command.
use final_weave.Prelude.{ℕ, ◌≡◌, ◌≢◌, ◌⊎◌, ◌↔◌, refl, none, some, List, [], ◌∷◌, arith}
use final_weave.Cli.{
  Info, codes, default_build_vars, current, Invocation, root, version, Surroundings,
  node_runtime_unavailable, main, version_text,
}
use final_weave.Cli.VersionText.{IsPlain, read_version, read_version-version_text}
use final_weave.Cli.Outcome.{Succeeds, cli_outcome}

abbrev build : Info
build = record {
  version = codes "v0.0.0-test";
  commit = codes "0123";
  date = codes "2026-07-23";
  go_version = codes "go1.test";
  os = codes "testos";
  arch = codes "testarch";
}

build-IsPlain : IsPlain build
build-IsPlain = record {
  version = omega arith;
  commit = omega arith;
  date = omega arith;
  go_version = omega arith;
  os = omega arith;
  arch = omega arith;
}

read_version-version_text_example : read_version (version_text build) ≡ some build
read_version-version_text_example = read_version-version_text build build-IsPlain

-- A first argument asks for the version, in the format of the second.
abbrev parse : List (List ℕ) → Invocation
parse [] = root
parse (command ∷ []) = version (codes "text")
parse (command ∷ output ∷ _) = version output

abbrev around : Surroundings
around = record { parse = parse; encode = λ info. info.version; write_error = λ text. none }

cli_outcome_example :
    (((main around build []).exit_code ≡ 0) ↔ Succeeds around build root)
    × (((main around build []).exit_code ≡ 0)
        ⊎ (((main around build []).exit_code ≡ 1) × ((main around build []).stderr ≢ none)))
    × (root ≡ root
        → main around build []
          ≡ record { stdout = []; stderr = some node_runtime_unavailable; exit_code = 1 })
cli_outcome_example = cli_outcome around build []

development_build :
    current default_build_vars (codes "go1") (codes "linux") (codes "amd64") ≡ record {
      version = codes "dev";
      commit = codes "none";
      date = codes "unknown";
      go_version = codes "go1";
      os = codes "linux";
      arch = codes "amd64";
    }
unfolding current default_build_vars
development_build = refl
