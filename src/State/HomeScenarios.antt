-- ===== src/State/HomeScenarios.antt =====
-- The theorem on internal/state/move.go, tried, and runs.
use hand.Base.{Text, codes, false, none, refl, some, true, ℕ, ◌≡◌}
use hand.State.Homes.{count_path, folded, replace_path_fold}
use hand.State.Replacing.{Rewritten, replace_path_fold-Rewritten}

abbrev old_home : Text
old_home = codes "/home/a/hand"

abbrev new_home : Text
new_home = codes "/srv/hand"

abbrev note : Text
note = codes "see /home/a/hand/reports, /home/a/hands and x/home/a/hand; /home/a/hand."

replaced_note :
    replace_path_fold false note old_home new_home
    ≡ some (codes "see /srv/hand/reports, /home/a/hands and x/home/a/hand; /srv/hand.", 2)
unfolding replace_path_fold
replaced_note = refl

-- On Windows the case makes no difference.
folded_note :
    replace_path_fold true (codes "C:/Hand and c:/hand") (codes "C:/hand") (codes "D:/h")
    ≡ some (codes "C:/Hand and D:/h", 1)
unfolding replace_path_fold
folded_note = refl

replace_path_fold-Rewritten_example :
    (out : Text) × (n : ℕ) × (replace_path_fold false note old_home new_home ≡ some (out, n))
    × Rewritten false old_home new_home none note out n
    × (count_path (folded false note) (folded false old_home) ≡ some n)
replace_path_fold-Rewritten_example = replace_path_fold-Rewritten false note old_home new_home
