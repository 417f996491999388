-- ===== src/Router/Scores/Tests.antt =====
-- The theorems on scores at concrete inputs, with a small library of addresses.
use shiny_server.Prelude.{
  ◌<◌, ◌≢◌, ◌≡◌, refl, [], ◌∷◌, none, some, if◌then◌else◌, codes, Text, text_eq, arith,
}
use shiny_server.Router.Scores.{AddressLib, Request, ServerRouter, get_score}
use shiny_server.Router.Scores.Bounds.{get_score-lt}

-- Addresses of version 4 in one spelling, and `::`.
abbrev address_lib : AddressLib
address_lib = record {
  Address6 = Text;
  is_address4 = λ t. text_eq t (codes "10.0.0.1");
  address6 = λ t. if text_eq t (codes "::") then some t else none;
  from_address4 = λ t. t;
  canonical_form = λ t. t;
  correct_form4 = λ t. t;
  correct_form = λ t. t;
  zone = λ t. [];
  wildcard6 = codes "::";
}

abbrev a_request : Request
a_request = record { address = some (codes "10.0.0.1", 80); host = codes "a.org:80" }

abbrev named : ServerRouter Unit
named = record { port = 80; host = codes "10.0.0.1"; vhosts = codes "a.org" ∷ []; locations = [] }

abbrev unnamed : ServerRouter Unit
unnamed = record { port = 80; host = codes "::"; vhosts = []; locations = [] }

scores :
    (get_score address_lib (λ t. t) named a_request ≡ some 5)
    × (get_score address_lib (λ t. t) unnamed a_request ≡ some 1)
unfolding get_score text_eq
scores = (refl, refl)

named_ne : named.vhosts ≢ []
named_ne = λ e. cc e

get_score-lt_example : 1 < 5
get_score-lt_example =
    get_score-lt address_lib (λ t. t) named unnamed a_request 5 1 scores.0 scores.1 (omega arith)
      named_ne refl
