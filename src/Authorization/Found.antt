-- ===== src/Authorization/Found.antt =====
-- Every configured secret is found (authorization/parser.go).
use mathlib.Core.Path.{subst}
use eventnative.Base.{
  ◌≡◌, ◌≢◌, inl, inr, some, List, [], ◌∷◌, ◌==◌, text_eq, arith, Bool-cases, ==_true,
}
use eventnative.Base.Dict.{Dict, lookup, insert, lookup-insert}
use eventnative.Base.Text.{Text, trim_space}
use eventnative.Authorization.{
  Token, TokensHolder, no_tokens, with_id, add_client, add_server, add_id, add_tokens, reformat,
  get_client_origins,
}
use eventnative.Authorization.Tokens.{Among, with_id-client, add_server-client}

-- A map has a value at a key.
abbrev Has : Text → Dict Text (List Text) → Type 0
Has k m = (v : List Text) × (lookup k m ≡ some v)

insert-Has-same : (k : Text) (v : List Text) (m : Dict Text (List Text)) → Has k (insert k v m)
insert-Has-same k v m = (v, ground (arith, lookup-insert k k v m))

insert-Has :
    (j k : Text) (v : List Text) (m : Dict Text (List Text)) → Has j m → Has j (insert k v m)
insert-Has j k v m (w, found) = elim (Bool-cases (j == k)) [
  | inl e ↦ (v, ground (arith, lookup-insert j k v m, e))
  | inr e ↦ (w, ground (arith, lookup-insert j k v m, e, found))
]

add_client-Has :
    (k : Text) (t : Token) (th : TokensHolder)
    → Has k th.client_tokens_origins
    → Has k (add_client t th).client_tokens_origins
unfolding add_client
add_client-Has k t th has = elim (Bool-cases (trim_space t.client_secret == [])) [
  | inl e ↦ rw e has
  | inr e ↦ rw e (insert-Has k (trim_space t.client_secret) t.origins th.client_tokens_origins has)
]

add_client-Has-own :
    (t : Token) (th : TokensHolder)
    → trim_space t.client_secret ≢ []
    → Has (trim_space t.client_secret) (add_client t th).client_tokens_origins
unfolding add_client
add_client-Has-own t th filled = elim (Bool-cases (trim_space t.client_secret == [])) [
  | inl e ↦ absurd (filled (==_true e))
  | inr e ↦ rw e (insert-Has-same (trim_space t.client_secret) t.origins th.client_tokens_origins)
]

module _ (get_hash : Text → Text) where
  -- The holder after one token of the list.
  abbrev add_token : Token → TokensHolder → TokensHolder
  add_token token th = let t = with_id get_hash token in add_server t (add_client t (add_id t th))

  add_token-Has :
      (k : Text) (t : Token) (th : TokensHolder)
      → Has k th.client_tokens_origins
      → Has k (add_token t th).client_tokens_origins
  unfolding add_id
  add_token-Has k token th has =
      let t = with_id get_hash token in
      rw (add_server-client t (add_client t (add_id t th))) (add_client-Has k t (add_id t th) has)

  add_tokens-Has :
      (k : Text) (tokens : List Token) (th : TokensHolder)
      → Has k th.client_tokens_origins
      → Has k (add_tokens get_hash tokens th).client_tokens_origins
  unfolding add_tokens
  add_tokens-Has k [] th has = has
  add_tokens-Has k (t ∷ tokens) th has =
      add_tokens-Has k tokens (add_token t th) (add_token-Has k t th has)

  add_own :
      (s : Token) (th : TokensHolder)
      → trim_space s.client_secret ≢ []
      → Has
          (trim_space s.client_secret)
          (add_client (with_id get_hash s) (add_id (with_id get_hash s) th)).client_tokens_origins
  add_own s th filled =
      subst
        (λ k.
          Has (trim_space k)
            (add_client (with_id get_hash s)
              (add_id (with_id get_hash s) th)).client_tokens_origins)
        (with_id-client get_hash s)
        (add_client-Has-own (with_id get_hash s) (add_id (with_id get_hash s) th)
          (rw (with_id-client get_hash s) filled))

  add_tokens-Has-own :
      (t : Token) (tokens : List Token) (th : TokensHolder)
      → Among t tokens
      → trim_space t.client_secret ≢ []
      → Has (trim_space t.client_secret) (add_tokens get_hash tokens th).client_tokens_origins
  unfolding add_tokens
  add_tokens-Has-own t [] th among filled = elim among [ ]
  add_tokens-Has-own t (s ∷ tokens) th (inr among) filled =
      add_tokens-Has-own t tokens (add_token s th) among filled
  add_tokens-Has-own t (s ∷ tokens) th (inl same) filled =
      add_tokens-Has (trim_space t.client_secret) tokens (add_token s th) (
        rw
          (
            same,
            add_server-client (with_id get_hash s)
                (add_client (with_id get_hash s) (add_id (with_id get_hash s) th)),
          )
          (add_own s th (subst (λ x. trim_space x.client_secret ≢ []) same filled)))

  -- Every client secret of the configuration that is not blank is allowed, in its trimmed form.
  pub get_client_origins-Among :
      (tokens : List Token)
      → (t : Token) → Among t tokens
      → trim_space t.client_secret ≢ []
      → (origins : List Text) × (get_client_origins
            (reformat get_hash tokens)
            (trim_space t.client_secret)
          ≡ some origins)
  unfolding get_client_origins reformat
  get_client_origins-Among tokens t among filled =
      add_tokens-Has-own t tokens no_tokens among filled
