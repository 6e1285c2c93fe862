-- ===== src/Api/Guard.antt =====
-- What the request handler of src/internal-api.ts guards and records.
use ipfs_shard.Shared.{
  ℕ, List, [], ◌∷◌, ◌++◌, true, false, Option, none, some, ◌≡◌, ◌≢◌, refl, ap, ◌⊎◌, inl, inr,
  Bool-cases,
}
use ipfs_shard.Api.Text.{chars, text_eq}
use ipfs_shard.Api.Matching.{text_eq_sound}
use ipfs_shard.Api.Router.{Route}
use ipfs_shard.Api.Labels.{normalise_path}
use ipfs_shard.Api.Server.{
  Settings, Request, get_client_ip, cors_origin, check_key, authenticate, Handled, Api, Reply,
  end_with, on_request,
}

-- 401 or 403.
abbrev pub IsRefusal : ℕ → Type 0
IsRefusal status = (status ≡ 401) ⊎ (status ≡ 403)

check_key_refuses :
    (c : ℕ) (key : List ℕ) (provided : Option (List ℕ))
    → provided ≢ some (c ∷ key)
    → (status : ℕ) × ((check_key (some (c ∷ key)) provided ≡ some status) × IsRefusal status)
unfolding check_key
check_key_refuses c key none differs = (401, (refl, inl refl))
check_key_refuses c key (some []) differs = (401, (refl, inl refl))
check_key_refuses c key (some (d ∷ s)) differs = elim (Bool-cases (text_eq (d ∷ s) (c ∷ key))) [
  | inl same ↦ absurd (differs (ap (λ (t : List ℕ). some t) (text_eq_sound (d ∷ s) (c ∷ key) same)))
  | inr other ↦ (403, (rw other refl, inr refl))
]

authenticate_refuses :
    (settings : Settings) (req : Request) (c : ℕ) (key : List ℕ)
    → settings.development ≡ false
    → settings.api_key ≡ some (c ∷ key)
    → req.x_api_key ≢ some (c ∷ key)
    → (status : ℕ) × ((authenticate settings req ≡ some status) × IsRefusal status)
unfolding authenticate
authenticate_refuses settings req c key production configured differs =
    rw (production, configured) (check_key_refuses c key req.x_api_key differs)

-- The text is one of the list.
abbrev pub IsAmong : List ℕ → List (List ℕ) → Type 0
IsAmong s [] = ⊥
IsAmong s (t ∷ ts) = (s ≡ t) ⊎ IsAmong s ts

-- The first allowed origin, or the request's own, which then is an allowed one.
abbrev pub IsAllowed : Option (List ℕ) → List ℕ → List (List ℕ) → List ℕ → Type 0
IsAllowed origin first rest picked =
    (picked ≡ first) ⊎ ((origin ≡ some picked) × IsAmong picked (first ∷ rest))

module _ (S : Type 0) (handlers : Route → Request → S → Handled S) where
  -- What every answer has: the CORS header of the request, and one entry with the answer's status, if
  -- the answer was ended.
  abbrev pub Recorded :
      Settings → Request → Api S handlers → Api S handlers × Reply S handlers → Type 0
  Recorded settings req api (after, reply) =
      (reply.allow_origin ≡ cors_origin settings req)
      × (((reply.ended ≡ true)
            × (after.entries
                ≡ api.entries
                  ++ (record {
                    client_ip = get_client_ip req;
                    method = req.method;
                    path = req.url;
                    label = normalise_path req.url;
                    status = reply.status;
                  }
                      ∷ [])))
          ⊎ ((reply.ended ≡ false) × (after.entries ≡ api.entries)))

  options_lem :
      (settings : Settings) (req : Request) (api : Api S handlers)
      → text_eq req.method (chars "OPTIONS") ≡ true
      → on_request S handlers settings req api ≡ end_with S handlers settings req 204 api.state api
  unfolding on_request
  options_lem settings req api e = rw (e, on_request) refl

  refused_lem :
      (settings : Settings) (req : Request) (api : Api S handlers) (status : ℕ)
      → text_eq req.method (chars "OPTIONS") ≡ false
      → authenticate settings req ≡ some status
      → on_request S handlers settings req api
        ≡ end_with S handlers settings req status api.state api
  unfolding on_request
  refused_lem settings req api status e a = rw (e, on_request) rw (a, on_request) refl

  -- With an API key configured in production, a request without that key reaches no handler, whatever
  -- the handlers do: it is answered by 401 or 403, or by 204 if its method is OPTIONS, and the
  -- state behind the API is unchanged.
  pub on_request_guards :
      (settings : Settings) (req : Request) (api : Api S handlers) (c : ℕ) (key : List ℕ)
      → settings.development ≡ false
      → settings.api_key ≡ some (c ∷ key)
      → req.x_api_key ≢ some (c ∷ key)
      → let (after, reply) = on_request S handlers settings req api in
        (after.state ≡ api.state)
        × (((req.method ≡ chars "OPTIONS") × (reply.status ≡ 204)) ⊎ IsRefusal reply.status)
  unfolding end_with
  on_request_guards settings req api c key production configured differs =
      elim (Bool-cases (text_eq req.method (chars "OPTIONS"))) [
        | inl e ↦
            rw (options_lem settings req api e)
              (refl, inl (text_eq_sound req.method (chars "OPTIONS") e, refl))
        | inr e ↦
            let (status, (a, refusal)) =
              authenticate_refuses settings req c key production configured differs in
            rw (refused_lem settings req api status e a) (refl, inr refusal)
      ]
