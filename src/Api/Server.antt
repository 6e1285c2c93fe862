-- ===== src/Api/Server.antt =====
-- The request handler of `startInternalAPI` in src/internal-api.ts: CORS, the API key, routing and
-- the record of each answer.
use ipfs_shard.Shared.{
  ℕ, List, [], ◌∷◌, ◌++◌, map, Bool, true, false, Option, none, some, if◌then◌else◌,
}
use ipfs_shard.Api.Text.{chars, text_eq, is_empty, split_commas, trim}
use ipfs_shard.Api.Router.{Route, route}
use ipfs_shard.Api.Labels.{normalise_path}

-- The environment: `NODE_ENV === 'development'`, `ALLOWED_ORIGINS` and `API_KEY`.
pub record Settings : Type 0 where
  pub development : Bool
  pub allowed_origins : Option (List ℕ)
  pub api_key : Option (List ℕ)

-- A request, with the headers that the server reads; a missing method is '' and a missing URL '/'.
pub record Request : Type 0 where
  pub method : List ℕ
  pub url : List ℕ
  pub origin : Option (List ℕ)
  pub x_api_key : Option (List ℕ)
  pub x_forwarded_for : Option (List ℕ)
  pub remote_address : Option (List ℕ)

-- The entry that the wrapped `res.end` logs and counts.
pub record Entry : Type 0 where
  pub client_ip : List ℕ
  pub method : List ℕ
  pub path : List ℕ
  pub label : List ℕ
  pub status : ℕ

abbrev pub or_default : List ℕ → Option (List ℕ) → List ℕ
or_default d none = d
or_default d (some []) = d
or_default d (some (c ∷ s)) = c ∷ s

abbrev pub head_or_empty : List (List ℕ) → List ℕ
head_or_empty [] = []
head_or_empty (s ∷ parts) = s

abbrev pub forwarded_or : List ℕ → Option (List ℕ) → List ℕ
unfolding split_commas trim
forwarded_or remote none = remote
forwarded_or remote (some s) = trim (head_or_empty (split_commas s))

unfoldable pub get_client_ip : Request → List ℕ
get_client_ip req =
    forwarded_or (or_default (chars "unknown") req.remote_address) req.x_forwarded_for

unfoldable pub without_empty : List (List ℕ) → List (List ℕ)
without_empty [] = []
without_empty (s ∷ parts) = let rest = without_empty parts in if is_empty s then rest else s ∷ rest

unfoldable pub allowed_list : Settings → List (List ℕ)
unfolding split_commas trim without_empty
allowed_list settings =
    without_empty (map trim (split_commas (or_default [] settings.allowed_origins)))

unfoldable pub includes : List ℕ → List (List ℕ) → Bool
unfolding text_eq
includes s [] = false
includes s (t ∷ ts) = elim (text_eq t s) [ true ↦ true | false ↦ includes s ts ]

unfoldable pub pick_origin : Option (List ℕ) → List (List ℕ) → List ℕ
unfolding includes
pick_origin origin [] = chars "*"
pick_origin none (first ∷ rest) = first
pick_origin (some s) (first ∷ rest) = if includes s (first ∷ rest) then s else first

unfoldable pub cors_origin : Settings → Request → List ℕ
unfolding allowed_list pick_origin
cors_origin settings req =
    if settings.development then chars "*" else pick_origin req.origin (allowed_list settings)

-- What the key check says: the status to answer with, or go on.
unfoldable pub check_key : Option (List ℕ) → Option (List ℕ) → Option ℕ
unfolding text_eq
check_key none provided = none
check_key (some []) provided = none
check_key (some (c ∷ key)) none = some 401
check_key (some (c ∷ key)) (some []) = some 401
check_key (some (c ∷ key)) (some (d ∷ s)) = if text_eq (d ∷ s) (c ∷ key) then none else some 403

unfoldable pub authenticate : Settings → Request → Option ℕ
unfolding check_key
authenticate settings req =
    if settings.development then none else check_key settings.api_key req.x_api_key

-- How a handler ends: with an answer, or with an exception, before or after it sent a status.
pub data Handled (S : Type 0) : Type 0 where
  answers : S → ℕ → Handled S
  throws : S → Option ℕ → Handled S

module _ (S : Type 0) (handlers : Route → Request → S → Handled S) where
  pub record Api : Type 0 where
    pub state : S
    pub entries : List Entry

  -- The status and the CORS header; `ended` is false where a handler threw after its headers.
  pub record Reply : Type 0 where
    pub status : ℕ
    pub allow_origin : List ℕ
    pub ended : Bool

  unfoldable pub end_with : Settings → Request → ℕ → S → Api → Api × Reply
  unfolding get_client_ip normalise_path cors_origin
  end_with settings req status state api =
      let entry : Entry = record {
        client_ip = get_client_ip req;
        method = req.method;
        path = req.url;
        label = normalise_path req.url;
        status = status;
      } in
      (
        record { state = state; entries = api.entries ++ (entry ∷ []) },
        record { status = status; allow_origin = cors_origin settings req; ended = true },
      )

  unfoldable pub after_handler : Settings → Request → Api → Handled S → Api × Reply
  unfolding end_with
  after_handler settings req api (answers state status) = end_with settings req status state api
  after_handler settings req api (throws state none) = end_with settings req 500 state api
  after_handler settings req api (throws state (some status)) = (
    record { state = state; entries = api.entries },
    record { status = status; allow_origin = cors_origin settings req; ended = false },
  )

  unfoldable pub dispatch : Settings → Request → Api → Api × Reply
  unfolding route after_handler
  dispatch settings req api = elim (route req.method req.url) [
    | none ↦ end_with settings req 404 api.state api
    | some r ↦ after_handler settings req api (handlers r req api.state)
  ]

  unfoldable pub on_request : Settings → Request → Api → Api × Reply
  unfolding dispatch authenticate
  on_request settings req api = elim (text_eq req.method (chars "OPTIONS")) [
    | true ↦ end_with settings req 204 api.state api
    | false ↦ elim (authenticate settings req) [
      | some status ↦ end_with settings req status api.state api
      | none ↦ dispatch settings req api
    ]
  ]
