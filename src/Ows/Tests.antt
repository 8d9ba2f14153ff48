-- ===== src/Ows/Tests.antt =====
-- Requests and versions as clients write them.
use giti.Prelude.{to_lower, true, List, [], ◌∷◌, ◌≡◌, refl, Text, codes, text_eq, one_of, to_upper}
use giti.Ows.Request.{find}
use giti.Ows.Exception.{Printers, ServiceError, write_exception, contains, status_of}
use giti.Ows.Exception.Status.{write_exception-status, is_always_ok}
use giti.Ows.Negotiate.{negotiate, at_most}
use giti.Ows.Negotiate.Choice.{negotiate-highest}

abbrev wfs_versions : List Text
wfs_versions = codes "2.0.0" ∷ codes "1.1.0" ∷ codes "1.0.0" ∷ []

negotiate-highest_example :
    (at_most (negotiate (codes "wfs") (codes "1.7")) (codes "1.7") ≡ true)
    × (at_most (codes "1.0.0") (negotiate (codes "wfs") (codes "1.7")) ≡ true)
unfolding at_most find to_upper one_of text_eq
negotiate-highest_example =
    negotiate-highest (codes "wfs") wfs_versions refl (codes "1.7") (codes "1.0.0") refl refl refl

abbrev plain_printers : Printers
plain_printers = record { quote = λ t. t; escape = λ t. t; encode = λ v e. e.message }

abbrev unavailable : ServiceError
unavailable = record {
  code = codes "NoApplicableCode";
  locator = [];
  message = codes "down";
  status = 0;
}

write_exception-status_example :
    (write_exception plain_printers (codes "wfs") (codes "2.0.0") [] unavailable).status ≡ 400
unfolding is_always_ok contains to_upper to_lower status_of
write_exception-status_example =
    write_exception-status plain_printers (codes "wfs") (codes "2.0.0") [] unavailable
