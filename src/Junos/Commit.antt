-- ===== src/Junos/Commit.antt =====
-- When the configuration of the emulated router changes (lab/junos-emu/jcli.py).
use network_monitoring.Prelude.{
  String, refl, inl, inr, Bool, true, false, not, Option, List, [], arith, all, ◌≡◌, ◌∙◌, ◌⊎◌, ◌&&◌,
  ◌∷◌, ◌==◌, if◌then◌else◌, nat_eq, string_eq,
}
use network_monitoring.Text.{starts_with}
use network_monitoring.Junos.{
  Repl, Mode, op, config, enters_config, leaves_config, shows, config_line, repl_line, repl,
}

-- the configuration in force, and the file
abbrev pub in_force : Repl → List String × Option String
in_force s = (s.committed, s.file)

in_force-if :
    (b : Bool) (x y s : Repl)
    → in_force x ≡ in_force s
    → in_force y ≡ in_force s
    → in_force (if b then x else y) ≡ in_force s
in_force-if true x y s hx hy = hx
in_force-if false x y s hx hy = hy

config_line-keeps :
    (default : List String) (line : String) (candidate : List String) (s : Repl)
    → starts_with "commit" line ≡ false
    → in_force (config_line default line candidate s) ≡ in_force s
unfolding config_line
config_line-keeps default line candidate s h = in_force-if (leaves_config line) _ _ s refl (
    in_force-if (shows line) _ _ s refl (
      in_force-if (starts_with "set " line) _ _ s refl (
        in_force-if (starts_with "delete " line) _ _ s refl
          (in_force-if (starts_with "rollback" line) _ _ s refl (rw (h) refl)))))

Mode-cases : (m : Mode) → (m ≡ op) ⊎ ((c : List String) × (m ≡ config c))
Mode-cases op = inl refl
Mode-cases (config c) = inr (c, refl)

repl_line-keeps :
    (default : List String) (line : String) (s : Repl)
    → starts_with "commit" line ≡ false
    → in_force (repl_line default line s) ≡ in_force s
unfolding repl_line
repl_line-keeps default line s h = in_force-if (line == "") _ _ s refl (elim (Mode-cases s.mode) [
  | inl e ↦ rw (e) (in_force-if (enters_config line) _ _ s refl refl)
  | inr (c, e) ↦ rw (e) (config_line-keeps default line c s h)
])

first_off : (b c : Bool) → (not b && c) ≡ true → (b ≡ false) × (c ≡ true)
first_off b c h = ground arith

-- Whatever is typed, in either mode, leaves the configuration in force and its file as they were if
-- no line begins with commit.
pub repl-keeps :
    (default lines : List String) (s : Repl)
    → all (λ l. not (starts_with "commit" l)) lines ≡ true
    → in_force (repl default lines s) ≡ in_force s
unfolding repl
repl-keeps default [] s h = refl
repl-keeps default (line ∷ lines) s h =
    let (here, later) =
      first_off (starts_with "commit" line) (all (λ l. not (starts_with "commit" l)) lines) h in
    repl-keeps default lines (repl_line default line s) later ∙ repl_line-keeps default line s here
