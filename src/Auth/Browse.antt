-- ===== src/Auth/Browse.antt =====
-- A browser that keeps the session cookie of web/auth.py from request to request.
use accounting_tool.Auth.Laws.{IsSigner, verify-sign}
use accounting_tool.Auth.{
  Serializer, CookieChange, RequestState, AuthConfig, is_public, set_to, Response, dispatch,
  Session, dispatch_verified, set_session_cookie, cleared, sign,
}
use accounting_tool.Prelude.{
  ℕ, Option, List, String, ◌∷◌, Bool, ◌≤◌, [], none, ◌≡◌, some, ◌++◌, refl, false, ◌=?◌, map, ◌&&◌,
  arith, ◌+◌, ap, ◌∙◌, string_eq, ap₂,
}

-- A visit of a browser: the request without its cookie, what the application answers to it, and
-- the wall clock before and after.
pub record Visit (Cookie : Type 0) : Type 0 where
  pub path : String
  pub method : String
  pub call_next : Option RequestState → Response Cookie
  pub clock_in : ℕ
  pub clock_out : ℕ

-- The visits ask for protected pages, none is the logout, and each comes within the window after
-- the one before, which came at `last` and was answered by `answered`.
abbrev pub IsActive : {Cookie : Type 0} → ℕ → ℕ → ℕ → List (Visit Cookie) → Type 0
IsActive window last answered [] = Unit
IsActive window last answered (v ∷ visits) =
    (is_public v.path ≡ false)
    × (((v.method =? "POST" && v.path =? "/logout") ≡ false)
        × ((answered ≤ v.clock_in)
            × ((v.clock_in ≤ last + window)
                × ((v.clock_in ≤ v.clock_out) × IsActive window v.clock_in v.clock_out visits))))

-- The cookie that a browser has after a response: the last one that was set.
abbrev pub cookie_after :
    {Cookie : Type 0} → Option Cookie → List (CookieChange Cookie) → Option Cookie
cookie_after c [] = c
cookie_after c (set_to d secure ∷ changes) = cookie_after (some d) changes
cookie_after c (cleared ∷ changes) = cookie_after none changes

cookie_after-set :
    {Cookie : Type 0} (c : Option Cookie) (changes : List (CookieChange Cookie)) (d : Cookie)
    (secure : Bool)
    → cookie_after c (changes ++ (set_to d secure ∷ [])) ≡ some d
cookie_after-set c [] d secure = refl
cookie_after-set c (set_to e b ∷ changes) d secure = cookie_after-set (some e) changes d secure
cookie_after-set c (cleared ∷ changes) d secure = cookie_after-set none changes d secure

module _ {Cookie : Type 0} (s : Serializer Cookie) where
  abbrev pub answer : AuthConfig → Option Cookie → Visit Cookie → Response Cookie
  answer config c v =
      dispatch s config none v.clock_in v.clock_out v.call_next
        (record { path = v.path; method = v.method; cookie = c })

  -- The responses to the visits of one browser, which keeps its cookie.
  abbrev pub browse : AuthConfig → Option Cookie → List (Visit Cookie) → List (Response Cookie)
  browse config c [] = []
  browse config c (v ∷ visits) =
      answer config c v ∷ browse config (cookie_after c (answer config c v).set_cookies) visits

  -- The page that the application has for the partner, with the cookie renewed.
  abbrev pub page_for : AuthConfig → Session → Visit Cookie → Response Cookie
  page_for config session v =
      set_session_cookie (sign s v.clock_out (record session { last_activity = v.clock_in }))
        config.cookie_secure (v.call_next (some (session.assignee_id, session.session_id)))

module _ {Cookie : Type 0} (s : Serializer Cookie) (laws : IsSigner s) where
  answer_active :
      (config : AuthConfig) (session : Session) (answered : ℕ) (v : Visit Cookie)
      → is_public v.path ≡ false
      → (v.method =? "POST" && v.path =? "/logout") ≡ false
      → answered ≤ v.clock_in
      → v.clock_in ≤ answered + config.inactivity_seconds
      → v.clock_in ≤ session.last_activity + config.inactivity_seconds
      → answer s config (some (sign s answered session)) v ≡ page_for s config session v
  unfolding dispatch dispatch_verified
  answer_active config session answered v protected stays after young active =
      rw
        (
          protected,
          verify-sign s laws session answered v.clock_in config.inactivity_seconds v.clock_in after
              young active,
          stays,
        )
        refl

  -- Active use does not time out: a browser that has a session's cookie and keeps it, and makes
  -- each request for a protected page within the window after the last, is answered every time
  -- with the page for the same assignee and session, however long it goes on.
  pub browse-IsActive :
      (config : AuthConfig) (session : Session) (answered : ℕ) (visits : List (Visit Cookie))
      → session.last_activity ≤ answered
      → IsActive config.inactivity_seconds session.last_activity answered visits
      → browse s config (some (sign s answered session)) visits
        ≡ map (page_for s config session) visits
  browse-IsActive config session answered [] h active = refl
  browse-IsActive config session answered (v ∷ visits) h active =
      let protected = active.0 in
      let stays = active.1.0 in
      let after = active.1.1.0 in
      let soon = active.1.1.1.0 in
      let onward = active.1.1.1.1 in
      let next : Session = record session { last_activity = v.clock_in } in
      let c = some (sign s answered session) in
      let page =
        answer_active config session answered v protected stays after (omega (arith, soon, h))
          soon in
      let kept =
        ap (λ (r : Response Cookie). cookie_after c r.set_cookies) page
        ∙ cookie_after-set c
            (v.call_next (some (session.assignee_id, session.session_id))).set_cookies
            (sign s v.clock_out next) config.cookie_secure in
      ap₂ (λ (r : Response Cookie) (l : List (Response Cookie)). r ∷ l) page
        (ap (λ (d : Option Cookie). browse s config d visits) kept
          ∙ browse-IsActive config next v.clock_out visits onward.0 onward.1)
