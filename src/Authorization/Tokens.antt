-- ===== src/Authorization/Tokens.antt =====
-- What the holder of authorization/parser.go knows of the tokens that it was made from.
use mathlib.Core.Path.{subst₂}
use eventnative.Base.{
  ◌≡◌, refl, sym, ◌≢◌, ◌⊎◌, inl, inr, true, some, List, [], ◌∷◌, ◌==◌, text_eq, arith, Bool-cases,
  ==_true, ==_false,
}
use eventnative.Base.Dict.{Dict, lookup, insert, lookup-nil, lookup-insert}
use eventnative.Base.Text.{Text, trim_space}
use eventnative.Authorization.{
  Token, TokensHolder, no_tokens, with_id, add_client, add_server, add_id, add_tokens, reformat,
  get_client_origins, get_server_origins,
}

-- A token stands in a list.
abbrev pub Among : Token → List Token → Type 0
Among t [] = ⊥
Among t (s ∷ ss) = (t ≡ s) ⊎ Among t ss

-- A secret that is not empty belongs, trimmed and with its origins, to a token of the list.
abbrev pub Owned : (Token → Text) → List Token → Text → List Text → Type 0
Owned secret_of tokens secret origins =
    (secret ≢ [])
    × ((t : Token) × Among t tokens × (trim_space (secret_of t) ≡ secret) × (t.origins ≡ origins))

-- Every entry of a map has a property.
abbrev Entries : (Text → List Text → Type 0) → Dict Text (List Text) → Type 0
Entries P m = (k : Text) → (v : List Text) → lookup k m ≡ some v → P k v

insert-Entries :
    (P : Text → List Text → Type 0)
    → (k : Text) → (v : List Text) → (m : Dict Text (List Text)) → P k v
    → Entries P m
    → Entries P (insert k v m)
insert-Entries P k v m p ps k' v' found = elim (Bool-cases (k' == k)) [
  | inl e ↦ given e
  | inr e ↦ ps k' v' (ground (arith, lookup-insert k' k v m, found, e))
]
  where
    given : (k' == k) ≡ true → P k' v'
    given e = subst₂ P (sym (==_true e)) (ground (arith, lookup-insert k' k v m, found, e)) p

add_client-Entries :
    (P : Text → List Text → Type 0)
    → (t : Token) → (th : TokensHolder)
    → (trim_space t.client_secret ≢ [] → P (trim_space t.client_secret) t.origins)
    → Entries P th.client_tokens_origins
    → Entries P (add_client t th).client_tokens_origins
unfolding add_client
add_client-Entries P t th p ps = elim (Bool-cases (trim_space t.client_secret == [])) [
  | inl e ↦ rw e ps
  | inr e ↦ rw e (
      insert-Entries P (trim_space t.client_secret) t.origins th.client_tokens_origins
        (p (==_false e)) ps)
]

add_server-Entries :
    (P : Text → List Text → Type 0)
    → (t : Token) → (th : TokensHolder)
    → (trim_space t.server_secret ≢ [] → P (trim_space t.server_secret) t.origins)
    → Entries P th.server_tokens_origins
    → Entries P (add_server t th).server_tokens_origins
unfolding add_server
add_server-Entries P t th p ps = elim (Bool-cases (trim_space t.server_secret == [])) [
  | inl e ↦ rw e ps
  | inr e ↦ rw e (
      insert-Entries P (trim_space t.server_secret) t.origins th.server_tokens_origins
        (p (==_false e)) ps)
]

module _ (get_hash : Text → Text) where
  pub with_id-client : (t : Token) → (with_id get_hash t).client_secret ≡ t.client_secret
  unfolding with_id
  with_id-client t = ground arith

  pub with_id-server : (t : Token) → (with_id get_hash t).server_secret ≡ t.server_secret
  unfolding with_id
  with_id-server t = ground arith

  with_id-origins : (t : Token) → (with_id get_hash t).origins ≡ t.origins
  unfolding with_id
  with_id-origins t = ground arith

pub add_client-server :
    (t : Token) (th : TokensHolder)
    → (add_client t th).server_tokens_origins ≡ th.server_tokens_origins
unfolding add_client
add_client-server t th = ground arith

pub add_server-client :
    (t : Token) (th : TokensHolder)
    → (add_server t th).client_tokens_origins ≡ th.client_tokens_origins
unfolding add_server
add_server-client t th = ground arith

module _ (get_hash : Text → Text) where
  add_tokens-client :
      (P : Text → List Text → Type 0)
      → (tokens : List Token) → (th : TokensHolder)
      → ((t : Token)
          → Among t tokens
          → trim_space t.client_secret ≢ []
          → P (trim_space t.client_secret) t.origins)
      → Entries P th.client_tokens_origins
      → Entries P (add_tokens get_hash tokens th).client_tokens_origins
  unfolding add_tokens add_id
  add_tokens-client P [] th owned ps = ps
  add_tokens-client P (token ∷ tokens) th owned ps =
      let t = with_id get_hash token in
      add_tokens-client P tokens (add_server t (add_client t (add_id t th)))
        (λ s among. owned s (inr among))
        (rw (add_server-client t (add_client t (add_id t th))) (
          add_client-Entries P t (add_id t th)
            (rw (with_id-client get_hash token, with_id-origins get_hash token)
              (owned token (inl refl)))
            ps))

  add_tokens-server :
      (P : Text → List Text → Type 0)
      → (tokens : List Token) → (th : TokensHolder)
      → ((t : Token)
          → Among t tokens
          → trim_space t.server_secret ≢ []
          → P (trim_space t.server_secret) t.origins)
      → Entries P th.server_tokens_origins
      → Entries P (add_tokens get_hash tokens th).server_tokens_origins
  unfolding add_tokens add_id
  add_tokens-server P [] th owned ps = ps
  add_tokens-server P (token ∷ tokens) th owned ps =
      let t = with_id get_hash token in
      add_tokens-server P tokens (add_server t (add_client t (add_id t th)))
        (λ s among. owned s (inr among))
        (add_server-Entries P t (add_client t (add_id t th))
          (rw (with_id-server get_hash token, with_id-origins get_hash token)
            (owned token (inl refl)))
          (rw (add_client-server t (add_id t th)) ps))

  -- A client secret that the service allows is not empty and is, trimmed, the client secret of a
  -- configured token, whose origins are returned.
  pub get_client_origins-Owned :
      (tokens : List Token)
      → (secret : Text) → (origins : List Text)
      → get_client_origins (reformat get_hash tokens) secret ≡ some origins
      → Owned Token.client_secret tokens secret origins
  unfolding get_client_origins reformat
  get_client_origins-Owned tokens secret origins found =
      add_tokens-client (Owned Token.client_secret tokens) tokens no_tokens
        (λ t among filled. (filled, (t, among, refl, refl)))
        (λ k v h. ground (arith, lookup-nil {V = List Text} k, h)) secret origins found

  -- A server secret that the service allows is not empty and is, trimmed, the server secret of a
  -- configured token, whose origins are returned.
  pub get_server_origins-Owned :
      (tokens : List Token)
      → (secret : Text) → (origins : List Text)
      → get_server_origins (reformat get_hash tokens) secret ≡ some origins
      → Owned Token.server_secret tokens secret origins
  unfolding get_server_origins reformat
  get_server_origins-Owned tokens secret origins found =
      add_tokens-server (Owned Token.server_secret tokens) tokens no_tokens
        (λ t among filled. (filled, (t, among, refl, refl)))
        (λ k v h. ground (arith, lookup-nil {V = List Text} k, h)) secret origins found
