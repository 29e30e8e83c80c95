-- ===== src/Authenticator/Tests.antt =====
-- The authenticator's theorems for one token on file (notifications/authenticator.js).
use netgraphz2_gpl.Authenticator.Admission.{Accepted, authenticate_request_lem}
use netgraphz2_gpl.Authenticator.Defs.{AuthValue, Libraries, Token, authenticate_request, next}
use netgraphz2_gpl.Common.{List, String, [], false, some, str_eq, true, ◌↔◌, ◌∷◌, ◌≡◌, ◌⊎◌}

abbrev pub libraries : Libraries
libraries = record {
  parse = λ h. some (record { scheme = "Bearer"; token = some h } ∷ []);
  decode = λ t. t;
  starts_with = λ path u. str_eq path u;
}

abbrev pub on_file : List Token
on_file =
    record { username = "icinga"; password = "secret"; bearer = "b1"; url = "/api/icinga/" ∷ [] }
    ∷ []

authenticate_request_lem_example :
    (authenticate_request libraries true (some "b1") "/api/icinga/" on_file ≡ next) ↔ (
      (true ≡ false)
      ⊎ ((h : String) × (v : AuthValue) × (vs : List AuthValue) × (some "b1" ≡ some h)
          × (libraries.parse h ≡ some (v ∷ vs))
          × Accepted libraries "/api/icinga/" v on_file))
authenticate_request_lem_example =
    authenticate_request_lem libraries "/api/icinga/" true (some "b1") on_file
