-- ===== src/Cli/Outcome.antt =====
-- internal/cli/root.go and cmd/finalweave-node/main.go: when the process succeeds.
use final_weave.Prelude.{
  ℕ, ◌≡◌, ◌⊎◌, ◌↔◌, inl, inr, refl, ap, sym, ◌∙◌, ◌≢◌, subst, Option, none, some, List, [], ◌∷◌,
  true, false, arith, Bool-cases,
}
use final_weave.Cli.{
  Info, codes, Invocation, root, version, own_text, refused, Surroundings, CliError,
  node_runtime_unavailable, same_text, print, run_version, execute, main, version_text,
}

same_text_refl : (s : List ℕ) → same_text s s ≡ true
unfolding same_text
same_text_refl [] = refl
same_text_refl (c ∷ s) = ground (arith, same_text_refl s)

eq_of_same_text : (s t : List ℕ) → same_text s t ≡ true → s ≡ t
unfolding same_text
eq_of_same_text [] [] h = refl
eq_of_same_text [] (d ∷ t) h = absurd (cc)
eq_of_same_text (c ∷ s) [] h = absurd (cc)
eq_of_same_text (c ∷ s) (d ∷ t) h = ground (arith, eq_of_same_text s t)

first_byte : List ℕ → ℕ
first_byte [] = 0
first_byte (c ∷ s) = c

text_ne_json : codes "text" ≢ codes "json"
unfolding first_byte
text_ne_json e = let h : ◌≡◌ {A = ℕ} b't' b'j' = ap first_byte e in omega arith

-- The exit code of `main` for an error.
exit_of : Option CliError → ℕ
exit_of none = 0
exit_of (some e) = 1

exit_of-cases :
    (r : Option CliError)
    → ((exit_of r ≡ 0) ↔ (r ≡ none)) × ((exit_of r ≡ 0) ⊎ ((exit_of r ≡ 1) × (r ≢ none)))
unfolding exit_of
exit_of-cases none = ((λ h. refl, λ h. refl), inl refl)
exit_of-cases (some e) = ((λ h. absurd (omega arith), λ h. absurd (cc)), inr (refl, λ h. cc))

-- The invocations that do what was asked for.
abbrev pub Succeeds : Surroundings → Info → Invocation → Type 0
Succeeds around info root = ⊥
Succeeds around info (version output) =
    ((output ≡ codes "text") × (around.write_error (version_text info) ≡ none))
    ⊎ ((output ≡ codes "json") × (around.write_error (around.encode info) ≡ none))
Succeeds around info (own_text text) = Unit {0}
Succeeds around info (refused n) = ⊥

module _ (around : Surroundings) (info : Info) where
  print_result :
      (text : List ℕ) → ((print around text).result ≡ none) ↔ (around.write_error text ≡ none)
  unfolding print
  print_result text = (λ h. ground arith, λ h. rw h refl)

  -- The three cases of the switch.
  Chosen : List ℕ → Type 0
  Chosen output =
      ((output ≡ codes "text")
        × (run_version around info output ≡ print around (version_text info)))
      ⊎ ((output ≡ codes "json")
          × (run_version around info output ≡ print around (around.encode info)))
      ⊎ ((output ≢ codes "text")
          × (output ≢ codes "json")
          × ((run_version around info output).result ≢ none))

  choose : (output : List ℕ) → Chosen output
  unfolding run_version Chosen
  choose output = elim (Bool-cases (same_text output (codes "text"))) [
    | inl text ↦ inl (eq_of_same_text _ _ text, rw text refl)
    | inr not_text ↦ elim (Bool-cases (same_text output (codes "json"))) [
      | inl json ↦ inr (inl (eq_of_same_text _ _ json, rw (not_text, json) refl))
      | inr not_json ↦
          inr (inr (differs not_text, differs not_json, rw (not_text, not_json) (λ h. cc)))
    ]
  ]
    where
      differs : {t : List ℕ} → same_text output t ≡ false → output ≢ t
      differs h e =
          let h' : same_text output output ≡ false =
            subst (λ t. same_text output t ≡ false) (sym e) h in
          cc (same_text_refl output)

  run_version_result :
      (output : List ℕ)
      → ((run_version around info output).result ≡ none) ↔ Succeeds around info (version output)
  unfolding Chosen
  run_version_result output = elim (choose output) [
    | inl (text, ran) ↦ (
      λ h. inl (text, (print_result _).0 (ap (λ r. r.result) (sym ran) ∙ h)),
      λ w. ap (λ r. r.result) ran ∙ (print_result _).1 (written_text text w),
    )
    | inr (inl (json, ran)) ↦ (
      λ h. inr (json, (print_result _).0 (ap (λ r. r.result) (sym ran) ∙ h)),
      λ w. ap (λ r. r.result) ran ∙ (print_result _).1 (written_json json w),
    )
    | inr (inr (no_text, no_json, bad)) ↦ (
      λ h. absurd (bad h),
      λ w. elim w [ inl (e, ok) ↦ absurd (no_text e) | inr (e, ok) ↦ absurd (no_json e) ],
    )
  ]
    where
      written_text :
          output ≡ codes "text"
          → Succeeds around info (version output)
          → around.write_error (version_text info) ≡ none
      written_text e (inl (_, ok)) = ok
      written_text e (inr (f, ok)) = absurd (text_ne_json (sym e ∙ f))

      written_json :
          output ≡ codes "json"
          → Succeeds around info (version output)
          → around.write_error (around.encode info) ≡ none
      written_json e (inl (f, ok)) = absurd (text_ne_json (sym f ∙ e))
      written_json e (inr (_, ok)) = ok

  execute_result :
      (i : Invocation) → ((execute around info i).result ≡ none) ↔ Succeeds around info i
  unfolding execute
  execute_result root = (λ h. absurd (cc), λ h. absurd h)
  execute_result (version output) = run_version_result output
  execute_result (own_text text) = (λ h. tt, λ h. refl)
  execute_result (refused n) = (λ h. absurd (cc), λ h. absurd h)

-- The process exits with 0 exactly if the command line was the version command, with a known format
-- and a successful write, or a text of cobra's own. Otherwise it exits with 1 and an error on stderr.
-- Without a command it writes nothing and reports that there is no node runtime.
pub cli_outcome :
    (around : Surroundings) (info : Info) (args : List (List ℕ))
    → (((main around info args).exit_code ≡ 0) ↔ Succeeds around info (around.parse args))
      × (((main around info args).exit_code ≡ 0)
          ⊎ (((main around info args).exit_code ≡ 1) × ((main around info args).stderr ≢ none)))
      × (around.parse args ≡ root
          → main around info args
            ≡ record { stdout = []; stderr = some node_runtime_unavailable; exit_code = 1 })
unfolding main exit_of execute
cli_outcome around info args =
    let (code, reported) = exit_of-cases (execute around info (around.parse args)).result in
    let (sound, complete) = execute_result around info (around.parse args) in
    (
      (λ h. sound (code.0 (ran_out ∙ h)), λ w. sym ran_out ∙ code.1 (complete w)),
      subst (λ n. (n ≡ 0) ⊎ ((n ≡ 1) × ((main around info args).stderr ≢ none))) ran_out reported,
      λ e. rw e refl,
    )
  where
    ran_out :
        exit_of (execute around info (around.parse args)).result ≡ (main around info args).exit_code
    ran_out = ground arith
