-- ===== src/Middleware.antt =====
-- middleware/token_auth.go: the token of a request, and the handlers that ask for one.
pub mod Guards
use eventnative.Base.{
  Bool, true, false, Option, none, some, List, [], ◌∷◌, ◌==◌, text_eq, if◌then◌else◌,
}
use eventnative.Base.Dict.{Dict, lookup}
use eventnative.Base.Text.{Text, codes, has_prefix}
use eventnative.Authorization.{TokensHolder, get_client_origins, get_server_origins}

-- What the program reads of a request: the values of each query parameter, and the headers (under
-- their canonical names).
pub record Request : Type 0 where
  pub query : Dict Text (List Text)
  pub headers : Dict Text Text

-- What is answered: a handler ran, with the token that was set in its context, if any; or the
-- status 401 with a message.
pub data Reply : Type 0 where
  handled : Option Text → Reply
  unauthorized : Text → Reply

-- `url.Values.Get`: the first value of a parameter, or nothing.
unfoldable pub query_value : Text → Dict Text (List Text) → Text
unfolding lookup
query_value k query = elim (lookup k query) [ some (v ∷ _) ↦ v | _ ↦ [] ]

-- `http.Header.Get` of one header.
unfoldable pub header_value : Text → Dict Text Text → Text
unfolding lookup
header_value k headers = elim (lookup k headers) [ none ↦ [] | some v ↦ v ]

-- The loop over the query for a dynamic parameter, with `break` at the first.
unfoldable pub dynamic_token : Dict Text (List Text) → Text
unfolding has_prefix
dynamic_token [] = []
dynamic_token ((k, []) ∷ query) = dynamic_token query
dynamic_token ((k, v ∷ _) ∷ query) =
    let rest = dynamic_token query in if has_prefix k (codes "p_") then v else rest

unfoldable pub extract_token : Request → Text
unfolding query_value header_value dynamic_token
extract_token r =
    let token = query_value (codes "token") r.query in
    let token' = if token == [] then header_value (codes "x-auth-token") r.headers else token in
    if token' == [] then dynamic_token r.query else token'

unfoldable pub token_auth : Text → Request → Reply
unfolding extract_token
token_auth original_token r =
    if extract_token r == original_token then handled none else unauthorized (codes "Wrong token")

unfoldable pub token_func_auth : (Text → Option (List Text)) → Text → Request → Reply
unfolding extract_token
token_func_auth is_allowed err_msg r =
    let msg = if err_msg == [] then codes "The token is not found" else err_msg in
    let token = extract_token r in
    elim (is_allowed token) [ none ↦ unauthorized msg | some _ ↦ handled (some token) ]

unfoldable pub token_two_func_auth :
    (Text → Option (List Text)) → (Text → Option (List Text)) → Text → Request → Reply
unfolding extract_token
token_two_func_auth is_allowed another_allowed err_msg r =
    let token = extract_token r in
    elim (is_allowed token) [
      | none ↦ elim (another_allowed token) [
        | some _ ↦ unauthorized err_msg
        | none ↦ unauthorized (codes "The token is not found")
      ]
      | some _ ↦ handled (some token)
    ]

-- The routes of events (routers/router.go): the browser's, and those between servers.
pub data EventRoute : Type 0 where
  js_event s2s_event : EventRoute

unfoldable pub post_event : TokensHolder → EventRoute → Request → Reply
unfolding token_func_auth token_two_func_auth get_client_origins get_server_origins
post_event holder js_event r = token_func_auth (get_client_origins holder) [] r
post_event holder s2s_event r =
    token_two_func_auth (get_server_origins holder) (get_client_origins holder)
      (codes "The token isn't a server token. Please use s2s integration token") r
