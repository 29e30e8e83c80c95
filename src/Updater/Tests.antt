-- ===== src/Updater/Tests.antt =====
-- The updater's theorems on short runs (web-phalcon/public/js/netgraphz/updater.js).
use netgraphz2_gpl.Updater.Occur.{concat}
use netgraphz2_gpl.Updater.Rotation.{rotation_lem, turns}
use netgraphz2_gpl.Common.NumMap
use netgraphz2_gpl.Updater.Defs.{
  Occurrence, Updater, UpdaterSettings, answer, not_started, occur, occur_all, rotation_started,
  start_updater, stop_updater, timeout,
}
use netgraphz2_gpl.Updater.Loop.{OneLoop, activity, one_loop_lem, restart_lem}
use netgraphz2_gpl.Common.{
  List, String, [], none, refl, some, ◌∷◌, ◌≡◌, arith, false, length, true, ℕ, ◌++◌,
}

abbrev updater_settings : UpdaterSettings
updater_settings = record { update_interval = 30000; part_interval = 1200; part_size = 2 }

-- Timeout 0 begins a rotation and timeout 1 asks for its first part.
abbrev occurrences : List (Occurrence String)
occurrences =
    timeout 0 30000
    ∷ timeout 1 31200
    ∷ answer 31300 (some ((3, "a") ∷ (5, "b") ∷ []))
    ∷ timeout 2 32500
    ∷ answer 32600 none
    ∷ []

one_loop_lem_example :
    OneLoop updater_settings
      (occur_all updater_settings occurrences (start_updater updater_settings not_started))
one_loop_lem_example = one_loop_lem updater_settings occurrences

-- The rotation has begun.
abbrev rotating : Updater String
rotating =
    occur_all updater_settings (timeout 0 30000 ∷ []) (start_updater updater_settings not_started)

restart_lem_example :
    activity updater_settings (start_updater updater_settings (stop_updater rotating)) ≡ 2
unfolding occur_all occur rotation_started start_updater NumMap.insert NumMap.lookup NumMap.delete
restart_lem_example =
    restart_lem updater_settings rotating (one_loop_lem updater_settings (timeout 0 30000 ∷ []))
      refl refl

-- The request for the first part is open.
abbrev asking_first : Updater String
asking_first = record not_started { updater_started = true; requests = 1 }

abbrev graph : List (ℕ × String)
graph = (3, "a") ∷ (5, "b") ∷ (9, "c") ∷ []

rotation_lem_example :
    let s = turns updater_settings 50 graph (true ∷ false ∷ true ∷ []) asking_first in
    (concat s.updated ≡ concat asking_first.updated ++ graph)
    × (s.last_id ≡ 0)
    × (s.requests ≡ 0)
    × (length s.timeouts ≡ 1)
rotation_lem_example =
    rotation_lem updater_settings 50 graph (true ∷ false ∷ true ∷ []) asking_first
      (omega arith, (omega arith, (omega arith, tt))) refl refl refl (omega arith)
