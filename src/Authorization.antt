-- ===== src/Authorization.antt =====
-- authorization/parser.go and authorization/service.go: the tokens, and who may use the service.
pub mod Found
pub mod Tokens
use eventnative.Base.{
  Bool, true, false, not, Option, none, some, List, [], ◌∷◌, ◌++◌, ◌==◌, text_eq, if◌then◌else◌,
}
use eventnative.Base.Dict.{Dict, keys, lookup, insert}
use eventnative.Base.Text.{Text, trim_space}

pub record Token : Type 0 where
  pub id : Text
  pub client_secret : Text
  pub server_secret : Text
  pub origins : List Text

pub record TokensHolder : Type 0 where
  pub client_tokens_origins : Dict Text (List Text)
  pub server_tokens_origins : Dict Text (List Text)
  pub ids : List Text
  pub all : Dict Text Token

abbrev pub no_tokens : TokensHolder
no_tokens = record { client_tokens_origins = []; server_tokens_origins = []; ids = []; all = [] }

-- A nil holder is `none`.
unfoldable pub is_empty : Option TokensHolder → Bool
is_empty none = true
is_empty (some th) = elim th.ids [ [] ↦ true | _ ↦ false ]

unfoldable pub add_client : Token → TokensHolder → TokensHolder
unfolding trim_space insert
add_client t th =
    let secret = trim_space t.client_secret in
    if secret == [] then th else record th {
      client_tokens_origins = insert secret t.origins th.client_tokens_origins;
      all = insert secret t th.all;
    }

unfoldable pub add_server : Token → TokensHolder → TokensHolder
unfolding trim_space insert
add_server t th =
    let secret = trim_space t.server_secret in
    if secret == [] then th else record th {
      server_tokens_origins = insert secret t.origins th.server_tokens_origins;
      all = insert secret t th.all;
    }

unfoldable pub add_id : Token → TokensHolder → TokensHolder
unfolding insert
add_id t th = record th { all = insert t.id t th.all; ids = th.ids ++ t.id ∷ [] }

abbrev client_token : Text → Token
client_token secret = record { id = []; client_secret = secret; server_secret = []; origins = [] }

abbrev server_token : Text → Token
server_token secret = record { id = []; client_secret = []; server_secret = secret; origins = [] }

unfoldable pub tokens_of : List Text → List Text → List Token
tokens_of [] [] = []
tokens_of [] (s ∷ server_secrets) = server_token s ∷ tokens_of [] server_secrets
tokens_of (c ∷ client_secrets) server_secrets =
    client_token c ∷ tokens_of client_secrets server_secrets

-- `resources.GetHash` is an md5 sum.
module _ (get_hash : Text → Text) where
  -- The id of a token without one is made from its secrets.
  unfoldable pub with_id : Token → Token
  with_id t =
      if t.id == [] then record t { id = get_hash (t.client_secret ++ t.server_secret) } else t

  -- The loop of `reformat`.
  unfoldable pub add_tokens : List Token → TokensHolder → TokensHolder
  unfolding with_id
  add_tokens [] th = th
  add_tokens (token ∷ tokens) th =
      let t = with_id token in add_tokens tokens (add_server t (add_client t (add_id t th)))

  unfoldable pub reformat : List Token → TokensHolder
  unfolding add_tokens add_server add_client add_id
  reformat tokens = add_tokens tokens no_tokens

  unfoldable pub from_strings : List Text → List Text → TokensHolder
  unfolding tokens_of reformat
  from_strings client_secrets server_secrets = reformat (tokens_of client_secrets server_secrets)

  -- `updateTokens`, with the json parser; a payload that is malformed keeps the tokens. The second
  -- part says whether the destinations are reloaded.
  unfoldable pub update_tokens :
      (Text → Option (List Token)) → Text → TokensHolder → TokensHolder × Bool
  unfolding reformat
  update_tokens parse payload th = elim (parse payload) [
    | none ↦ (th, false)
    | some tokens ↦ (reformat tokens, true)
  ]

-- The methods of the service.
unfoldable pub get_client_origins : TokensHolder → Text → Option (List Text)
unfolding lookup
get_client_origins th secret = lookup secret th.client_tokens_origins

unfoldable pub get_server_origins : TokensHolder → Text → Option (List Text)
unfolding lookup
get_server_origins th secret = lookup secret th.server_tokens_origins

unfoldable pub get_all_token_ids : TokensHolder → List Text
get_all_token_ids th = th.ids

unfoldable pub deduplicate : TokensHolder → List Text → Dict Text Bool → Dict Text Bool
unfolding lookup insert
deduplicate th [] seen = seen
deduplicate th (filter ∷ filters) seen =
    deduplicate th filters
      (elim (lookup filter th.all) [ none ↦ seen | some t ↦ insert t.id true seen ])

unfoldable pub get_all_ids_by_token : TokensHolder → List Text → List Text
unfolding deduplicate keys
get_all_ids_by_token th identities = keys (deduplicate th identities [])

unfoldable pub get_token_id : TokensHolder → Text → Text
unfolding lookup
get_token_id th filter = elim (lookup filter th.all) [ none ↦ [] | some t ↦ t.id ]
