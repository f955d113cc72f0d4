-- ===== src/Kernel/Tier/Spared.antt =====
-- Which paths a step that the gate of a tier lets through can name.
use rfsn_agent_full.Base.{any, ◌≡◌, Bool, true, false, List}
use rfsn_agent_full.Base.Text.{Text}
use rfsn_agent_full.Kernel.Tier.{Classifiers, Allow, glob_any}

module _ (fnmatch : Text → Text → Bool) where
  -- A pattern of the list matches the path.
  abbrev pub matches : Text → List Text → Bool
  matches p globs = any (fnmatch p) globs

  -- The tier allows changes of the path `p` by its class: that of tests comes before that of
  -- dependencies, and this before that of the continuous integration.
  pub record IsSpared (a : Allow) (c : Classifiers) (p : Text) : Type 0 where
    pub tests : matches p c.tests_globs ≡ true → a.edit_tests ≡ true
    pub deps :
        glob_any fnmatch p c.tests_globs ≡ false
        → matches p c.deps_globs ≡ true
        → a.edit_deps ≡ true
    pub ci :
        glob_any fnmatch p c.tests_globs ≡ false
        → glob_any fnmatch p c.deps_globs ≡ false
        → matches p c.ci_globs ≡ true
        → a.edit_ci ≡ true
