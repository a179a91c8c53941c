-- ===== src/Eval/Gate/Ready.antt =====
-- packages/cli/src/eval/coding-gate.ts: tests run only on the dependencies of their own lockfiles.
use text.Mathlib.TextEquality.{eq_iff}
use codewatch.Base.{
  ◌∙◌, All, sym, ap, string_eq, refl, [], opt_beq, false, arith, inl, Bool-cases, Option, none, inr,
  ◌∷◌, ◌⊎◌, some, true, ◌≡◌,
}
use codewatch.Eval.Gate.{
  and_then, Bool, String, List, Candidate, GateSettings, GateOptions, GateState, GateOutcome,
  RepoCommands, checkout_and_install, after_install, prepare, admitted_in, gated, gate, gate_all,
  options_of, select_repo_commands, PackageManager, install_of, test_of, commands_of, override_or,
  manager_for,
}

opt_beq-some : (o : Option String) (s : String) → opt_beq o (some s) ≡ true → o ≡ some s
opt_beq-some none s h = cc
opt_beq-some (some t) s h = ap some ((eq_iff t s).0 h)

some_inj : {a b : String} → some a ≡ some b → a ≡ b
some_inj e = cc

not_none : {a : String} → none ≡ some a → ⊥
not_none e = cc

and_then-cases :
    {W : Type 0} (p : W × Bool) (next : W → W × Bool)
    → ((p.1 ≡ false) × ((and_then p next).1 ≡ false))
      ⊎ ((p.1 ≡ true) × (and_then p next ≡ next p.0))
and_then-cases (w, false) next = inl (refl, refl)
and_then-cases (w, true) next = inr (refl, refl)

not_both : (b : Bool) → b ≡ false → b ≡ true → ⊥
not_both b h k = cc

-- `P hash world` says that the directory has the dependencies of the lockfiles with that hash, and
-- `hash_at commit` is the hash of the lockfiles at a commit.
module _ {W R : Type 0} (run : List String → W → W × Bool) (admit : GateOptions → W → W × R)
    (P : String → W → Type 0) (hash_at : String → String) where
  -- The three commands in turn, each in the world that the one before it left.
  abbrev pub after_checkout : String → W → W × Bool
  after_checkout commit w = run ("git" ∷ ("checkout" ∷ ("-f" ∷ (commit ∷ [])))) w

  abbrev pub after_clean : String → W → W × Bool
  after_clean commit w = run ("git" ∷ ("clean" ∷ ("-fdq" ∷ []))) (after_checkout commit w).0

  abbrev pub after_manager : String → PackageManager → W → W × Bool
  after_manager commit manager w = run (install_of manager) (after_clean commit w).0

  -- A manager's install after the checkout of a commit and the cleaning, when all succeed, provides
  -- the dependencies of that commit's lockfiles.
  abbrev pub Installs : Type 0
  Installs =
      (commit : String) (manager : PackageManager) (w : W)
      → (after_checkout commit w).1 ≡ true
      → (after_clean commit w).1 ≡ true
      → (after_manager commit manager w).1 ≡ true
      → P (hash_at commit) (after_manager commit manager w).0

  -- The admission gate leaves them in place.
  abbrev pub Keeps : Type 0
  Keeps = (hash : String) (options : GateOptions) (w : W) → P hash w → P hash (admit options w).0

  -- The candidate's hash is that of the lockfiles at its parent commit.
  abbrev pub IsHashed : Candidate → Type 0
  IsHashed c = hash_at c.parent_commit ≡ c.lockfile_hash

  abbrev pub IsReady : GateState W → Type 0
  IsReady s = (hash : String) → s.installed_hash ≡ some hash → P hash s.world

  -- The checkout of the candidate's parent, the cleaning or the install fails.
  abbrev pub FailsIn : Candidate → PackageManager → W → Type 0
  FailsIn c manager w =
      ((after_checkout c.parent_commit w).1 ≡ false)
      ⊎ ((after_clean c.parent_commit w).1 ≡ false)
      ⊎ ((after_manager c.parent_commit manager w).1 ≡ false)

  -- The gate ends in an environment error, where there is no lockfile or an install failed, or
  -- admits in a world with the candidate's dependencies.
  abbrev pub AdmitsReady : GateSettings → Candidate → GateState W × GateOutcome R → Type 0
  AdmitsReady settings c r =
      ((r.1 ≡ GateOutcome.env_error)
        × ((manager_for c.lockfiles ≡ none)
            ⊎ ((w : W) × (manager : PackageManager) × FailsIn c manager w)))
      ⊎ ((w : W) × (commands : RepoCommands) × P c.lockfile_hash w
          × (select_repo_commands c.lockfiles settings.test_command ≡ some commands)
          × (r.1 ≡ GateOutcome.admitted (admit (options_of run admit settings c commands) w).1))

  installed_or_failed :
      (c : Candidate) (manager : PackageManager) (w : W)
      → let r = checkout_and_install run admit c.parent_commit (install_of manager) w in
        ((r.1 ≡ false) × FailsIn c manager w)
        ⊎ (((after_checkout c.parent_commit w).1 ≡ true)
            × ((after_clean c.parent_commit w).1 ≡ true)
            × (r ≡ after_manager c.parent_commit manager w))
  unfolding checkout_and_install
  installed_or_failed c manager w =
      let commit = c.parent_commit in
      let install = λ (u : W). run (install_of manager) u in
      let clean = λ (v : W). and_then (run ("git" ∷ ("clean" ∷ ("-fdq" ∷ []))) v) install in
      elim (and_then-cases (after_checkout commit w) clean) [
        | inl (f, e) ↦ inl (e, inl f)
        | inr (t, e) ↦ elim (and_then-cases (after_clean commit w) install) [
          | inl (g, k) ↦ inl (ap (λ r. r.1) e ∙ k, inr (inl g))
          | inr (u, k) ↦ inr (t, u, e ∙ k)
        ]
      ]

  module _ (installs : Installs) (keeps : Keeps) where
    Prepared : Candidate → GateState W → Type 0
    Prepared c s =
        ((s.installed_hash ≡ none) × ((w : W) × (manager : PackageManager) × FailsIn c manager w))
        ⊎ ((s.installed_hash ≡ some c.lockfile_hash) × P c.lockfile_hash s.world)

    Prepared-after_install :
        (c : Candidate) (manager : PackageManager) (w : W) (r : W × Bool)
        → IsHashed c
        → ((r.1 ≡ false) × FailsIn c manager w)
          ⊎ (((after_checkout c.parent_commit w).1 ≡ true)
              × ((after_clean c.parent_commit w).1 ≡ true)
              × (r ≡ after_manager c.parent_commit manager w))
        → Prepared c (after_install run admit c r)
    unfolding Prepared
    Prepared-after_install c manager w (v, true) hashed (inl (f, fails)) =
        absurd (not_both true f refl)
    Prepared-after_install c manager w (v, true) hashed (inr (t, u, e)) =
        let there = installs c.parent_commit manager w t u (sym (ap (λ r. r.1) e)) in
        inr (refl, rw (ap (λ r. r.0) e, ← hashed) there)
    Prepared-after_install c manager w (v, false) hashed (inl (f, fails)) =
        inl (refl, (w, manager, fails))
    Prepared-after_install c manager w (v, false) hashed (inr (t, u, e)) =
        inl (refl, (w, manager, inr (inr (sym (ap (λ r. r.1) e)))))

    prepare-Prepared :
        (s : GateState W) (c : Candidate) (commands : RepoCommands)
        → IsHashed c
        → commands.install ≡ install_of commands.manager
        → IsReady s
        → Prepared c (prepare run admit s c commands)
    unfolding Prepared
    prepare-Prepared s c commands hashed own h =
        elim (Bool-cases (opt_beq s.installed_hash (some c.lockfile_hash))) [
          | inl same ↦
              let e : s.installed_hash ≡ some c.lockfile_hash =
                opt_beq-some s.installed_hash c.lockfile_hash same in
              rw same (inr (e, h c.lockfile_hash e))
          | inr other ↦
              rw (other, own)
                (Prepared-after_install c commands.manager s.world _ hashed
                  (installed_or_failed c commands.manager s.world))
        ]

    admitted_in_lem :
        (settings : GateSettings) (c : Candidate) (commands : RepoCommands) (s : GateState W)
        → select_repo_commands c.lockfiles settings.test_command ≡ some commands
        → Prepared c s
        → IsReady (admitted_in run admit settings c commands s).0
          × AdmitsReady settings c (admitted_in run admit settings c commands s)
    unfolding Prepared
    admitted_in_lem settings c commands s chosen p = elim p [
      | inl (gone, fails) ↦
          rw gone ((λ hash e. absurd (ground (arith, gone, e))), inl (refl, inr fails))
      | inr (there, ready) ↦ rw there (
        (λ hash e. rw (sym (some_inj e)) (keeps c.lockfile_hash _ s.world ready)),
        inr (s.world, commands, ready, chosen, refl),
      )
    ]

    gated_lem :
        (settings : GateSettings) (s : GateState W) (c : Candidate) (m : Option PackageManager)
        → manager_for c.lockfiles ≡ m
        → IsHashed c
        → IsReady s
        → IsReady (gated run admit settings s c (commands_of settings.test_command m)).0
          × AdmitsReady settings c
              (gated run admit settings s c (commands_of settings.test_command m))
    unfolding select_repo_commands
    gated_lem settings s c none e hashed h = (h, inl (refl, inl e))
    gated_lem settings s c (some manager) e hashed h =
        let commands : RepoCommands = record {
          manager = manager;
          install = install_of manager;
          test = override_or (test_of manager) settings.test_command;
        } in
        admitted_in_lem settings c commands (prepare run admit s c commands)
          (ap (commands_of settings.test_command) e) (prepare-Prepared s c commands hashed refl h)

    gate-Ready :
        (settings : GateSettings) (s : GateState W) (c : Candidate)
        → IsHashed c
        → IsReady s
        → IsReady (gate run admit settings s c).0
          × AdmitsReady settings c (gate run admit settings s c)
    unfolding gate select_repo_commands
    gate-Ready settings s c = gated_lem settings s c (manager_for c.lockfiles) refl

    gate_all-IsReady :
        (settings : GateSettings) (s : GateState W) (cs : List Candidate)
        → All IsHashed cs
        → IsReady s
        → IsReady (gate_all run admit settings s cs)
    unfolding gate_all
    gate_all-IsReady settings s [] a h = h
    gate_all-IsReady settings s (c ∷ cs) (hashed, a) h =
        gate_all-IsReady settings (gate run admit settings s c).0 cs a
          (gate-Ready settings s c hashed h).0

    -- Where an install that succeeds at a commit provides the dependencies of that commit's
    -- lockfiles, the admission gate leaves them in place, and the candidates have the hashes of the
    -- lockfiles at their parents, every candidate, whatever was gated before it, is admitted in a
    -- directory with the dependencies of its own lockfiles, or ends in an environment error, where
    -- it has no lockfile or the checkout, the cleaning or the install failed.
    pub gate-AdmitsReady :
        (settings : GateSettings) (start : W) (earlier : List Candidate) (c : Candidate)
        → All IsHashed earlier
        → IsHashed c
        → AdmitsReady settings c (
            gate run admit settings
              (gate_all run admit settings
                (record { world = start; installed_hash = none })
                earlier)
              c)
    gate-AdmitsReady settings start earlier c all_hashed hashed =
        (gate-Ready settings
          (gate_all run admit settings (record { world = start; installed_hash = none }) earlier) c
          hashed
          (gate_all-IsReady settings (record { world = start; installed_hash = none }) earlier
            all_hashed (λ hash e. absurd (not_none e)))).1
