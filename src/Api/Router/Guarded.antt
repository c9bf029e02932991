-- ===== src/Api/Router/Guarded.antt =====
-- Which handlers the session gate protects.
use safe_play_guardian.Prelude.{
  ◌≡◌, refl, ap, ◌∙◌, sym, subst, String, Bool, true, false, ◌&&◌, ◌==◌, string_eq, eq_iff,
  Bool-cases, inl, inr, Option, none, some, List, [], ◌∷◌, All, arith,
}
use safe_play_guardian.Device.Rows.{first_where}
use safe_play_guardian.Auth.Gate.{requires_auth}
use safe_play_guardian.Api.Router.{
  Endpoint, healthz, auth_me, auth_setup, auth_login, auth_logout, agent_register, agent_checkin,
  Segment, lit, Route, routes, matches, method_matches, find_route, endpoint, target, target_of,
  path_of,
}

-- The handlers for which a session is needed: all but the health check, those of the accounts, and
-- those of the agents.
unfoldable pub needs_session : Endpoint → Bool
needs_session healthz = false
needs_session auth_me = false
needs_session auth_setup = false
needs_session auth_login = false
needs_session auth_logout = false
needs_session agent_register = false
needs_session agent_checkin = false
needs_session _ = true

abbrev Agrees : Route → Type 0
Agrees r =
    (xs : List String)
    → matches r.pattern xs ≡ true
    → requires_auth (path_of xs) ≡ needs_session r.endpoint

lit-matches :
    (a : String) (ps : List Segment) (xs : List String)
    → matches (lit a ∷ ps) xs ≡ true
    → (rest : List String) × (xs ≡ a ∷ rest) × (matches ps rest ≡ true)
unfolding matches
lit-matches a ps [] h = cc
lit-matches a ps (x ∷ xs) h =
    let q : (x == a) ≡ true = ground arith in
    (xs, ap (λ y. y ∷ xs) ((eq_iff x a).0 q), ground arith)

api-matches :
    (b : String) (ps : List Segment) (flag : Bool)
    → ((rest : List String)
        → matches ps rest ≡ true
        → requires_auth (path_of ("api" ∷ b ∷ rest)) ≡ flag)
    → (xs : List String) → matches (lit "api" ∷ lit b ∷ ps) xs ≡ true
    → requires_auth (path_of xs) ≡ flag
api-matches b ps flag f xs h =
    let (ys, e, k) = lit-matches "api" (lit b ∷ ps) xs h in
    let (zs, e', l) = lit-matches b ps ys k in
    subst (λ v. requires_auth (path_of v) ≡ flag) (sym (e ∙ ap (λ v. "api" ∷ v) e')) (f zs l)

-- A pattern with a third segment.
api_deep-matches :
    (b c : String) (flag : Bool)
    → requires_auth (path_of ("api" ∷ b ∷ c ∷ [])) ≡ flag
    → (xs : List String) → matches (lit "api" ∷ lit b ∷ lit c ∷ []) xs ≡ true
    → requires_auth (path_of xs) ≡ flag
unfolding matches
api_deep-matches b c flag h = api-matches b (lit c ∷ []) flag (λ rest k.
    let (zs, e, l) = lit-matches c [] rest k in
    let last : zs ≡ [] = ended zs l in
    subst (λ v. requires_auth (path_of ("api" ∷ b ∷ v)) ≡ flag) (sym (e ∙ ap (λ v. c ∷ v) last)) h)
  where
    ended : (zs : List String) → matches [] zs ≡ true → zs ≡ []
    ended [] l = refl
    ended (z ∷ zs) l = cc

healthz-matches :
    (xs : List String) → matches (lit "healthz" ∷ []) xs ≡ true → requires_auth (path_of xs) ≡ false
unfolding requires_auth path_of
healthz-matches xs h =
    let (rest, e, k) = lit-matches "healthz" [] xs h in
    subst (λ v. requires_auth (path_of v) ≡ false) (sym e) refl

devices-matches :
    (ps : List Segment) (xs : List String)
    → matches (lit "api" ∷ lit "devices" ∷ ps) xs ≡ true
    → requires_auth (path_of xs) ≡ true
unfolding requires_auth path_of
devices-matches ps = api-matches "devices" ps true (λ rest k. refl)

people-matches :
    (ps : List Segment) (xs : List String)
    → matches (lit "api" ∷ lit "people" ∷ ps) xs ≡ true
    → requires_auth (path_of xs) ≡ true
unfolding requires_auth path_of
people-matches ps = api-matches "people" ps true (λ rest k. refl)

routes-Agree : All Agrees routes
unfolding routes needs_session requires_auth path_of
routes-Agree = (
  healthz-matches,
  (
    λ xs. devices-matches _ xs,
    (
      λ xs. devices-matches _ xs,
      (
        λ xs. devices-matches _ xs,
        (
          λ xs. devices-matches _ xs,
          (
            λ xs. people-matches _ xs,
            (
              λ xs. people-matches _ xs,
              (
                λ xs. people-matches _ xs,
                (
                  λ xs. people-matches _ xs,
                  (
                    λ xs. people-matches _ xs,
                    (
                      λ xs. devices-matches _ xs,
                      (
                        λ xs. devices-matches _ xs,
                        (
                          λ xs. devices-matches _ xs,
                          (
                            λ xs. devices-matches _ xs,
                            (
                              api_deep-matches "reports" "screen-time" true refl,
                              (
                                api_deep-matches "reports" "by-device" true refl,
                                (
                                  api_deep-matches "reports" "blocks" true refl,
                                  (
                                    api-matches "events" [] true (λ rest k. refl),
                                    (
                                      api_deep-matches "auth" "me" false refl,
                                      (
                                        api_deep-matches "auth" "setup" false refl,
                                        (
                                          api_deep-matches "auth" "login" false refl,
                                          (
                                            api_deep-matches "auth" "logout" false refl,
                                            (
                                              api_deep-matches "agent" "register" false refl,
                                              (api_deep-matches "agent" "checkin" false refl, tt),
                                            ),
                                          ),
                                        ),
                                      ),
                                    ),
                                  ),
                                ),
                              ),
                            ),
                          ),
                        ),
                      ),
                    ),
                  ),
                ),
              ),
            ),
          ),
        ),
      ),
    ),
  ),
)

and-right : (a b : Bool) → (a && b) ≡ true → b ≡ true
and-right true b h = h
and-right false b h = cc

found-Agrees :
    (p : Route → Bool) (rs : List Route) (r : Route)
    → All Agrees rs
    → first_where p rs ≡ some r
    → Agrees r × (p r ≡ true)
unfolding first_where
found-Agrees p [] r h e = cc
found-Agrees p (q ∷ rs) r (a, h) e = elim (Bool-cases (p q)) [
  | inl y ↦
      let same : q ≡ r = ground (arith, e, y) in subst (λ x. Agrees x × (p x ≡ true)) same (a, y)
  | inr n ↦ found-Agrees p rs r h (ground (arith, e, n))
]

-- Where the mux sends a request to a handler, the gate requires a session on its path exactly if
-- the handler is neither the health check nor one of the accounts nor one of the agents.
pub target-requires_auth :
    (method : String) (segments : List String) (e : Endpoint)
    → target method segments ≡ endpoint e
    → requires_auth (path_of segments) ≡ needs_session e
unfolding target find_route
target-requires_auth method segments e h = sent_by (find_route method segments) refl h
  where
    sent_by :
        (o : Option Route)
        → find_route method segments ≡ o
        → target_of method o ≡ endpoint e
        → requires_auth (path_of segments) ≡ needs_session e
    sent_by none q k = elim (Bool-cases (method_matches "GET" method)) [
      | inl y ↦ absurd (ground (arith, k, y))
      | inr y ↦ absurd (ground (arith, k, y))
    ]
    sent_by (some r) q k =
        let (agrees, given) =
          found-Agrees (λ (x : Route). method_matches x.method method && matches x.pattern segments)
            routes r routes-Agree q in
        let same : r.endpoint ≡ e = ground (arith, k) in
        subst (λ x. requires_auth (path_of segments) ≡ needs_session x) same
          (agrees segments
            (and-right (method_matches r.method method) (matches r.pattern segments) given))
