-- ===== src/Effort/Inheritance.antt =====
-- src/obs_agent/effort.py: a child of the same model runs at its parent's level.
use recursive_harness_builde.Prelude.{
  ◌≡◌, ◌≢◌, refl, String, Option, none, some, false, ◌==◌, string_eq, arith,
}
use recursive_harness_builde.Effort.Levels.{
  Level, auto, unasked, asked, named, normalize, resolve, first_given, child_override,
}

-- A child that is asked for nothing, or to inherit, with no level in its session and no model of its own,
-- gets the parent's effort as its own, and where that names a level other than `auto`, the child's effort
-- is that level, whatever is set elsewhere.
pub child_inherits :
    (tidy : String → String) (parent default word : String)
    (session configured shell : Option String) (l : Level)
    → tidy word ≡ "inherit"
    → normalize tidy parent ≡ some l
    → l ≢ auto
    → (parent == "") ≡ false
    → (child_override tidy unasked parent false none ≡ named parent)
      × (child_override tidy (asked word) parent false session ≡ named parent)
      × (resolve tidy default (some parent) session configured shell ≡ some l)
unfolding child_override resolve first_given
child_inherits tidy parent default word session configured shell l i n a e =
    (refl, rw i refl, ground (arith, n, a, e))
