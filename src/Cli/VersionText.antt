-- ===== src/Cli/VersionText.antt =====
-- internal/cli/root.go: the text of the version command, read back.
use final_weave.Prelude.{
  ℕ, ◌≡◌, ◌≢◌, refl, Option, none, some, List, [], ◌∷◌, ◌++◌, All, if◌then◌else◌, ◌==◌, arith,
}
use final_weave.Cli.{Info, codes, newline, version_text, item}

-- The bytes before the first `stop`, and those after it.
unfoldable pub until : ℕ → List ℕ → Option (List ℕ × List ℕ)
until stop [] = none
until stop (c ∷ s) =
    let rest = until stop s in
    if c == stop
    then some ([], s)
    else elim rest [ none ↦ none | some (before, after) ↦ some (c ∷ before, after) ]

-- The bytes behind a prefix.
unfoldable pub behind : List ℕ → List ℕ → Option (List ℕ)
behind [] s = some s
behind (c ∷ p) [] = none
behind (c ∷ p) (d ∷ s) = if c == d then behind p s else none

abbrev pub Lacks : ℕ → List ℕ → Type 0
Lacks c = All (λ d. d ≢ c)

until-append :
    (stop : ℕ) (s rest : List ℕ) → Lacks stop s → until stop (s ++ stop ∷ rest) ≡ some (s, rest)
unfolding until
until-append stop [] rest h = ground arith
until-append stop (c ∷ s) rest h = ground (arith, until-append stop s rest h.1)

behind-append : (p s : List ℕ) → behind p (p ++ s) ≡ some s
unfolding behind
behind-append [] s = refl
behind-append (c ∷ p) s = ground (arith, behind-append p s)

infixl 5 ◌>>=◌
abbrev ◌>>=◌ : {A B : Type 0} → Option A → (A → Option B) → Option B
none >>= f = none
some a >>= f = f a

-- An item of the text: its name, its value, and the byte that ends it.
unfoldable pub read_item : List ℕ → ℕ → List ℕ → Option (List ℕ × List ℕ)
read_item name stop s = behind name s >>= until stop

read_item-item :
    (name value rest : List ℕ) (stop : ℕ)
    → Lacks stop value
    → read_item name stop (item name value stop rest) ≡ some (value, rest)
unfolding read_item
read_item-item name value rest stop h =
    rw (behind-append name (value ++ stop ∷ rest), ◌>>=◌) (until-append stop value rest h)

bind_some :
    {A B : Type 0} (m : Option A) (f : A → Option B) {a : A} {b : Option B}
    → m ≡ some a
    → f a ≡ b
    → (m >>= f) ≡ b
bind_some m f e g = rw e g

-- A reader of the text, written independently of the format string.
unfoldable pub read_version : List ℕ → Option Info
read_version s = do
  (version, s1) ← read_item (codes "finalweave-node ") newline s
  (commit, s2) ← read_item (codes "commit: ") newline s1
  (date, s3) ← read_item (codes "built: ") newline s2
  (go_version, s4) ← read_item (codes "go: ") newline s3
  (os, s5) ← read_item (codes "platform: ") b'/' s4
  (arch, s6) ← read_item [] newline s5
  some (record {
    version = version;
    commit = commit;
    date = date;
    go_version = go_version;
    os = os;
    arch = arch;
  })

-- Values that keep to their line, and a system without a slash.
pub record IsPlain (info : Info) : Type 0 where
  pub version : Lacks newline info.version
  pub commit : Lacks newline info.commit
  pub date : Lacks newline info.date
  pub go_version : Lacks newline info.go_version
  pub os : Lacks b'/' info.os
  pub arch : Lacks newline info.arch

-- What the version command prints can be read back: for values that keep to their line and a system
-- without a slash, the text determines the build.
pub read_version-version_text :
    (info : Info) → IsPlain info → read_version (version_text info) ≡ some info
unfolding version_text read_version
read_version-version_text info plain =
    bind_some _ _ (read_item-item (codes "finalweave-node ") info.version _ newline plain.version) (
      bind_some _ _ (read_item-item (codes "commit: ") info.commit _ newline plain.commit) (
        bind_some _ _ (read_item-item (codes "built: ") info.date _ newline plain.date) (
          bind_some _ _ (read_item-item (codes "go: ") info.go_version _ newline plain.go_version) (
            bind_some _ _ (read_item-item (codes "platform: ") info.os _ b'/' plain.os)
              (bind_some _ _ (read_item-item [] info.arch [] newline plain.arch) refl)))))
