-- ===== src/Samples/Glob.antt =====
-- vfy/gate.py: `_glob` at concrete patterns.
use verify_run.Base.{◌≡◌, refl, ◌↔◌, true, some, codes}
use verify_run.Glob.{glob, glob_run}
use verify_run.Glob.Matches.{Matches}
use verify_run.Glob.Loop.{glob-Matches}

backtracks : glob_run (codes "*.t?t") (codes "a.tt.txt") ≡ some true
unfolding glob_run
backtracks = refl

glob-Matches_example :
    (glob_run (codes "a*[!0-9]") (codes "abc") ≡ some (glob (codes "a*[!0-9]") (codes "abc")))
    × ((glob (codes "a*[!0-9]") (codes "abc") ≡ true) ↔ Matches (codes "a*[!0-9]") (codes "abc"))
glob-Matches_example = glob-Matches (codes "a*[!0-9]") (codes "abc")
