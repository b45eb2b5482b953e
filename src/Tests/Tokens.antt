-- ===== src/Tests/Tokens.antt =====
-- Tokens and guards (authorization, middleware/token_auth.go), run.
use eventnative.Base.{◌≡◌, ◌≢◌, refl, inl, inr, some, List, [], ◌∷◌, ◌++◌, text_eq, nat_eq, arith}
use eventnative.Base.Dict.{lookup, insert}
use eventnative.Base.Text.{Text, codes, trim_space}
use eventnative.Authorization.{Token, reformat, get_client_origins, get_server_origins, with_id}
use eventnative.Authorization.Found.{get_client_origins-Among}
use eventnative.Middleware.{
  Request, handled, unauthorized, token_func_auth, token_two_func_auth, js_event, s2s_event,
  post_event,
}

abbrev get_hash : Text → Text
get_hash s = codes "#" ++ s

abbrev token : Token
token = record {
  id = [];
  client_secret = codes " js ";
  server_secret = codes "s2s";
  origins = codes "a.com" ∷ [];
}

abbrev blank : Token
blank = record { id = codes "blank"; client_secret = codes "  "; server_secret = []; origins = [] }

abbrev tokens : List Token
tokens = blank ∷ token ∷ []

server_allowed :
    get_server_origins (reformat get_hash tokens) (codes "s2s") ≡ some (codes "a.com" ∷ [])
unfolding get_server_origins reformat with_id text_eq trim_space lookup insert nat_eq
server_allowed = refl

secret_filled : trim_space token.client_secret ≢ []
unfolding trim_space
secret_filled h = ground arith

get_client_origins-Among_example :
    (origins : List Text) × (get_client_origins
        (reformat get_hash tokens)
        (trim_space token.client_secret)
      ≡ some origins)
get_client_origins-Among_example =
    get_client_origins-Among get_hash tokens token (inr (inl refl)) secret_filled

-- The token is in a dynamic parameter.
abbrev request : Request
request = record { query = (codes "p_1", codes "js" ∷ []) ∷ []; headers = [] }

-- A client secret is let through on the browser's route only.
js_handled : post_event (reformat get_hash tokens) js_event request ≡ handled (some (codes "js"))
unfolding post_event token_func_auth get_client_origins reformat with_id text_eq trim_space lookup
    insert nat_eq
js_handled = refl

s2s_refused :
    post_event (reformat get_hash tokens) s2s_event request
    ≡ unauthorized (codes "The token isn't a server token. Please use s2s integration token")
unfolding post_event token_two_func_auth get_client_origins get_server_origins reformat with_id
    text_eq trim_space lookup insert nat_eq
s2s_refused = refl
