-- ===== src/Routers/Queue/Cache.antt =====
-- The cache of registered scripts, `_script_cache` of app/routers/queue.py.
use redgw_lite.Prelude.{
  String, ◌≡◌, ap, refl, some, List, [], ◌∷◌, arith, eq_iff, All, All-append, Option-cases, inl,
  inr,
}
use redgw_lite.Python.Exec.{returned}
use redgw_lite.Redis.{World}
use redgw_lite.Routers.Queue.{
  Mode, Direction, single, batch, left, right, lua_source, mode_name, direction_name, find_script,
  get_script,
}

-- A mode and a direction, and the source that they stand for.
abbrev pub IsEntry : String × String × String → Type 0
IsEntry entry =
    (m : Mode) (d : Direction)
    → entry.0 ≡ mode_name m
    → entry.1 ≡ direction_name d
    → entry.2 ≡ lua_source m d

-- Each cached script is the source of its mode and direction.
abbrev pub IsCache : List (String × String × String) → Type 0
IsCache scripts = All IsEntry scripts

find_script-source :
    (scripts : List (String × String × String)) (m : Mode) (d : Direction) (source : String)
    → IsCache scripts
    → find_script (mode_name m) (direction_name d) scripts ≡ some source
    → source ≡ lua_source m d
unfolding find_script
find_script-source [] m d source h e = cc
find_script-source ((i, j, s) ∷ scripts) m d source (h, hs) e = ground (
  arith,
  eq_iff i (mode_name m),
  eq_iff j (direction_name d),
  h m d,
  find_script-source scripts m d source hs,
)

mode_name-injective : (m m' : Mode) → mode_name m ≡ mode_name m' → m ≡ m'
mode_name-injective single single e = refl
mode_name-injective single batch e = cc ((eq_iff "single" "batch").1 e)
mode_name-injective batch single e = cc ((eq_iff "batch" "single").1 e)
mode_name-injective batch batch e = refl

direction_name-injective : (d d' : Direction) → direction_name d ≡ direction_name d' → d ≡ d'
direction_name-injective left left e = refl
direction_name-injective left right e = cc ((eq_iff "left" "right").1 e)
direction_name-injective right left e = cc ((eq_iff "right" "left").1 e)
direction_name-injective right right e = refl

new-IsEntry : (m : Mode) (d : Direction) → IsEntry (mode_name m, direction_name d, lua_source m d)
new-IsEntry m d m' d' em ed = cc (mode_name-injective m m' em, direction_name-injective d d' ed)

-- From a cache whose scripts are right, `_get_script` returns the script of the mode and direction
-- that it is asked for, and leaves a cache whose scripts are right; the server is not touched.
pub get_script-source :
    {R : Type 0} (m : Mode) (d : Direction) (w : World R)
    → IsCache w.scripts
    → ((get_script m d w).0 ≡ returned (lua_source m d))
      × IsCache (get_script m d w).1.scripts
      × ((get_script m d w).1.redis ≡ w.redis)
unfolding get_script
get_script-source m d w h =
    elim (Option-cases (find_script (mode_name m) (direction_name d) w.scripts)) [
      | inl absent ↦
          rw (absent, get_script)
            (refl, All-append IsEntry w.scripts _ h (new-IsEntry m d, tt), refl)
      | inr (source, found) ↦
          rw (found, get_script)
            (ap returned (find_script-source w.scripts m d source h found), h, refl)
    ]
