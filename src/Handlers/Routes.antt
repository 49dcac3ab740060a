-- ===== src/Handlers/Routes.antt =====
-- `routes` of handlers/health_handler.go. Matching a request to a pattern is net/http's, which
-- panics when two patterns of one `ServeMux` match the same requests and neither is more specific.
use longclaw.Base.{
  Bool, true, false, ◌&&◌, ◌||◌, Option, none, some, List, [], ◌∷◌, Bytes, codes, bytes_eq, any,
  ◌≡◌, refl,
}

-- A part of a path between two `/`: a text, or a name that stands for any text.
pub data Segment : Type 0 where
  literal : Bytes → Segment
  wildcard : Bytes → Segment

pub data Handler : Type 0 where
  health_handler : Handler
  get_clients_handler : Handler
  test_client_handler : Handler
  create_test_handler : Handler
  get_test_results_handler : Handler
  send_message_handler : Handler
  system_info_handler : Handler

-- Without a method, all are meant.
pub record Route : Type 0 where
  pub method : Option Bytes
  pub path : List Segment
  pub handler : Handler

abbrev pub route : Option Bytes → List Segment → Handler → Route
route method path handler = record { method = method; path = path; handler = handler }

abbrev pub api : List Segment → List Segment
api rest = literal (codes "api") ∷ rest

abbrev pub routes : List Route
routes =
    route none (literal (codes "health") ∷ []) health_handler
    ∷ route (some (codes "GET")) (api (literal (codes "clients") ∷ [])) get_clients_handler
    ∷ route (some (codes "POST")) (api (literal (codes "clients") ∷ literal (codes "test") ∷ []))
        test_client_handler
    ∷ route (some (codes "POST")) (api (literal (codes "stress_tests") ∷ [])) create_test_handler
    ∷ route (some (codes "GET"))
        (api
          (literal (codes "stress_tests") ∷ wildcard (codes "id") ∷ literal (codes "results") ∷ []))
        get_test_results_handler
    ∷ route (some (codes "POST")) (api (literal (codes "clients") ∷ literal (codes "message") ∷ []))
        send_message_handler
    ∷ route (some (codes "GET")) (api (literal (codes "system_info") ∷ [])) system_info_handler
    ∷ []

abbrev overlap_segment : Segment → Segment → Bool
overlap_segment (literal a) (literal b) = bytes_eq a b
overlap_segment (literal a) (wildcard b) = true
overlap_segment (wildcard a) (literal b) = true
overlap_segment (wildcard a) (wildcard b) = true

abbrev overlap_path : List Segment → List Segment → Bool
overlap_path [] [] = true
overlap_path [] (b ∷ bs) = false
overlap_path (a ∷ rest) [] = false
overlap_path (a ∷ rest) (b ∷ bs) = overlap_segment a b && overlap_path rest bs

abbrev overlap_method : Option Bytes → Option Bytes → Bool
overlap_method none m = true
overlap_method (some a) none = true
overlap_method (some a) (some b) = bytes_eq a b

-- Some request matches both.
abbrev overlap : Route → Route → Bool
overlap r s = overlap_method r.method s.method && overlap_path r.path s.path

abbrev conflicts : List Route → Bool
conflicts [] = false
conflicts (r ∷ rs) = any (overlap r) rs || conflicts rs

-- No request matches two routes, so that registering them does not panic and their order does not matter.
routes_disjoint : conflicts routes ≡ false
routes_disjoint = refl
