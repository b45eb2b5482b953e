-- ===== src/Middleware/Guards.antt =====
-- Who gets past the handlers of middleware/token_auth.go, as routers/router.go sets them up.
use eventnative.Base.{Option, List}
use eventnative.Base.Text.{Text}
use eventnative.Authorization.{Token, TokensHolder, get_client_origins, get_server_origins}
use eventnative.Middleware.{EventRoute, js_event, s2s_event}

-- The kind of secret that a route asks for.
abbrev pub secret_of : EventRoute → Token → Text
secret_of js_event = Token.client_secret
secret_of s2s_event = Token.server_secret

abbrev pub origins_of : EventRoute → TokensHolder → Text → Option (List Text)
origins_of js_event = get_client_origins
origins_of s2s_event = get_server_origins
