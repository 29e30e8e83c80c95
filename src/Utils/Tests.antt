-- ===== src/Utils/Tests.antt =====
-- The effective state on two statuses (web-phalcon/public/js/netgraphz/graph_utils.js).
use netgraphz2_gpl.Model.{Status}
use netgraphz2_gpl.Utils.{pref_status}
use netgraphz2_gpl.Utils.EffectiveState.{IsFirstOf, IsLatest, is_preferred, pref_status_lem}
use netgraphz2_gpl.Common.{[], some, false, ℕ, String, ◌≡◌, ◌∷◌, ◌⊎◌, All}

abbrev early : Status
early = record { source = "icinga"; effective_state = 1; time = 3 }

abbrev late : Status
late = record { source = "snmp"; effective_state = 0; time = 8 }

pref_status_lem_example :
    (j : ℕ) × (y : Status) × (pref_status (some "icinga") (early ∷ late ∷ []) ≡ some y)
    × (((p : String) × (some "icinga" ≡ some p) × IsFirstOf p (early ∷ late ∷ []) j y)
        ⊎ (IsLatest (early ∷ late ∷ []) j y
            × All (λ z. is_preferred (some "icinga") z ≡ false) (early ∷ late ∷ [])))
pref_status_lem_example = pref_status_lem (some "icinga") early (late ∷ [])
