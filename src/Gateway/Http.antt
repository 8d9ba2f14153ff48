-- ===== src/Gateway/Http.antt =====
-- The parts of `net/http` that the gateway reads and sets.
pub mod Headers
use giti.Prelude.{List, [], ◌∷◌, equal_fold, if◌then◌else◌, Text}
use giti.Ows.Request.{Table}
use giti.Ows.Exception.{Response}

-- A request: `path` and `query` are the two parts of its URL, decoded.
pub record HttpRequest : Type 0 where
  pub method : Text
  pub path : Text
  pub query : Table (List Text)
  pub header : Table Text
  pub body : Text
  pub remote : Text

-- `h.Set(name, value)`: names are compared without regard to case.
unfoldable pub set_header : Text → Text → Table Text → Table Text
unfolding equal_fold
set_header name value [] = (name, value) ∷ []
set_header name value ((n, v) ∷ h) =
    let rest = set_header name value h in
    if equal_fold name n then (name, value) ∷ h else (n, v) ∷ rest

-- `h.Get(name)`
unfoldable pub get_header : Text → Table Text → Text
unfolding equal_fold
get_header name [] = []
get_header name ((n, v) ∷ h) = let rest = get_header name h in if equal_fold name n then v else rest

-- What a handler does with a request: it answers, or passes a request on to a backend.
pub data Outcome : Type 0 where
  answered : Response → Outcome
  proxied : Text → HttpRequest → Outcome
