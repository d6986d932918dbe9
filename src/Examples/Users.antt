-- ===== src/Examples/Users.antt =====
-- A user (auth/auth.go) who may read one database and nothing else.
use Prim.Native.String.{String}
use text.Mathlib.Text.{◌==◌ as str_eq}
use text.Mathlib.TextEquality.{eq_iff}
use kapacitor.Prelude.{[], ◌∷◌, some, true, false, ◌≡◌, ◌≢◌, refl, arith, if◌then◌else◌}
use kapacitor.Prelude.Dict.{lookup}
use kapacitor.Auth.{User, Paths, denied, authorize_action, allows}
use kapacitor.Auth.Walk.{root, up, authorize_action_lem}

-- The three paths that occur.
abbrev paths : Paths
paths = record {
  clean = λ r. r;
  is_abs = λ r. true;
  dir = λ r. if str_eq r "/database/a_clean" then "/database" else "/";
}

abbrev reader : User
reader = record {
  name = "reader";
  admin = false;
  privileges = ("/database/a_clean", 2) ∷ ("/", 4) ∷ [];
}

distinct : (s t : String) → str_eq s t ≡ false → s ≢ t
distinct s t h e = ground (arith, h, (eq_iff s t).1 e)

-- Writing is refused at the database, although the root would allow it.
authorize_action_lem_example :
    authorize_action paths 5 reader (record { resource = "/database/a_clean"; privilege = 4 })
    ≡ some denied
unfolding lookup allows
authorize_action_lem_example =
    authorize_action_lem paths 5 reader (record { resource = "/database/a_clean"; privilege = 4 })
      ("/database/a_clean" ∷ "/database" ∷ "/" ∷ [])
      (up (distinct "/database/a_clean" "/" refl) (up (distinct "/database" "/" refl) root))
      (omega arith)
