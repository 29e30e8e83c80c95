-- ===== src/TabStop/Tests.antt =====
-- The Tab key's theorems on a queue of three nodes (web-phalcon/public/js/netgraphz/ui.tabstop.js).
use netgraphz2_gpl.TabStop.Cycle.{bkwd_place, fwd_place, presses, tab_cycle, tab_selects}
use netgraphz2_gpl.TabStop.Defs.{TabStop, handle_node_update, tab_bkwd, tab_fwd}
use netgraphz2_gpl.TabStop.Queue.{IsUpdate, handle_node_update_lem}
use netgraphz2_gpl.Common.{[], some, ℕ, refl, arith, ◌++◌, ◌≡◌, ◌∷◌, ◌<◌, length, get_elem?}

abbrev three : TabStop
three = record { queue = 5 ∷ 6 ∷ 7 ∷ []; tab_stop = 0; selected = [] }

handle_node_update_lem_example : IsUpdate 6 (some 0) three (handle_node_update 6 (some 0) three)
handle_node_update_lem_example = handle_node_update_lem 6 (some 0) three (refl, (refl, (refl, tt)))

tab_cycle_example :
    presses (length three.queue) three
    ≡ some (record three { tab_stop = 0; selected = three.selected ++ three.queue })
tab_cycle_example = tab_cycle 5 (6 ∷ 7 ∷ []) three refl refl

-- The place is past the end, as after an update that shortened the queue.
abbrev past_end : TabStop
past_end = record three { tab_stop = 3 }

tab_selects_example :
    ((id : ℕ) × (t' : TabStop) × (tab_fwd 2 past_end ≡ some t')
      × (get_elem? past_end.queue (fwd_place past_end) ≡ some id)
      × (t'.selected ≡ past_end.selected ++ id ∷ [])
      × (t'.queue ≡ past_end.queue)
      × (t'.tab_stop < length past_end.queue))
    × ((id : ℕ) × (t' : TabStop) × (tab_bkwd 2 past_end ≡ some t')
        × (get_elem? past_end.queue (bkwd_place past_end) ≡ some id)
        × (t'.selected ≡ past_end.selected ++ id ∷ [])
        × (t'.queue ≡ past_end.queue)
        × (t'.tab_stop < length past_end.queue))
tab_selects_example = tab_selects past_end (omega arith)
