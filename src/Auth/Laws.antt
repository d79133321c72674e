-- ===== src/Auth/Laws.antt =====
-- What the session cookie of web/auth.py lets through.
use accounting_tool.Auth.{
  Serializer, AuthConfig, dispatch, RequestState, Json, read_payload, verify, Session, sign,
  dispatch_verified, Response, is_public, redirect_to_login, now_or, number, object, Payload,
}
use accounting_tool.Prelude.{
  ℕ, Option, String, List, ◌∷◌, ◌≢◌, ◌≡◌, none, false, ◌≤◌, [], some, refl, ◌+◌, Option-cases, inl,
  arith, string_eq, inr, ◌<◌, Bool-cases, ltb, ltb→lt,
}

-- The documented behaviour of the serializer and of `int()` that the code relies on: a text that
-- was signed is not empty, and is read back unless it is older than asked; nothing else is read;
-- `int()` leaves a number alone.
pub record IsSigner {Cookie : Type 0} (s : Serializer Cookie) : Type 0 where
  pub dumps_full : (t : ℕ) (fields : List (String × Json)) → s.is_empty (s.dumps t fields) ≡ false
  pub loads_dumps :
      (t clock max_age : ℕ) (fields : List (String × Json))
      → t ≤ clock
      → clock ≤ t + max_age
      → s.loads clock (s.dumps t fields) max_age ≡ some (object fields)
  pub loads_expired :
      (t clock max_age : ℕ) (fields : List (String × Json))
      → t + max_age < clock
      → s.loads clock (s.dumps t fields) max_age ≡ none
  pub loads_signed :
      (clock max_age : ℕ) (c : Cookie) (payload : Payload)
      → s.loads clock c max_age ≡ some payload
      → (t : ℕ) × ((fields : List (String × Json)) × (c ≡ s.dumps t fields))
  pub int_number : (n : ℕ) → s.int_of (number n) ≡ some n

module _ {Cookie : Type 0} (s : Serializer Cookie) (laws : IsSigner s) where
  read_payload_signed :
      (session : Session) (max_age now_epoch : ℕ)
      → now_epoch ≤ session.last_activity + max_age
      → read_payload s max_age now_epoch (
          object (
            ("a", session.assignee_id)
            ∷ ("t", number session.last_activity)
            ∷ ("s", session.session_id)
            ∷ []))
        ≡ some session
  unfolding read_payload
  read_payload_signed session max_age now_epoch h =
      rw (laws.int_number session.last_activity) (ground (arith, h))

  -- A session that was signed is read back from its cookie as it was, when the cookie's own age by
  -- the wall clock and the time since the last activity are both within the window.
  pub verify-sign :
      (session : Session) (signed_at clock max_age now_epoch : ℕ)
      → signed_at ≤ clock
      → clock ≤ signed_at + max_age
      → now_epoch ≤ session.last_activity + max_age
      → verify s clock (some (sign s signed_at session)) max_age now_epoch ≡ some session
  unfolding verify sign
  verify-sign session signed_at clock max_age now_epoch after young active =
      let fields : List (String × Json) =
        ("a", session.assignee_id)
        ∷ ("t", number session.last_activity)
        ∷ ("s", session.session_id)
        ∷ [] in
      rw
        (
          laws.dumps_full signed_at fields,
          laws.loads_dumps signed_at clock max_age fields after young,
        )
        (read_payload_signed session max_age now_epoch active)

  read_payload_idle :
      (session : Session) (max_age now_epoch : ℕ)
      → session.last_activity + max_age < now_epoch
      → read_payload s max_age now_epoch (
          object (
            ("a", session.assignee_id)
            ∷ ("t", number session.last_activity)
            ∷ ("s", session.session_id)
            ∷ []))
        ≡ none
  unfolding read_payload
  read_payload_idle session max_age now_epoch h =
      rw (laws.int_number session.last_activity) (ground (arith, h))

  verify-idle :
      (session : Session) (signed_at clock max_age now_epoch : ℕ)
      → signed_at ≤ clock
      → session.last_activity + max_age < now_epoch
      → verify s clock (some (sign s signed_at session)) max_age now_epoch ≡ none
  unfolding verify sign
  verify-idle session signed_at clock max_age now_epoch after idle =
      let fields : List (String × Json) =
        ("a", session.assignee_id)
        ∷ ("t", number session.last_activity)
        ∷ ("s", session.session_id)
        ∷ [] in
      elim (Bool-cases (ltb (signed_at + max_age) clock)) [
        | inl old ↦
            let e =
              laws.loads_expired signed_at clock max_age fields
                (ltb→lt (signed_at + max_age) clock old) in
            rw (laws.dumps_full signed_at fields, e) refl
        | inr young ↦
            let e = laws.loads_dumps signed_at clock max_age fields after (ground (arith, young)) in
            rw (laws.dumps_full signed_at fields, e)
              (read_payload_idle session max_age now_epoch idle)
      ]

  -- A session that was idle for longer than the window is sent to the login, even when its cookie
  -- was signed with the secret: `last_activity` is what counts, whenever the cookie was signed.
  pub dispatch-idle :
      (config : AuthConfig) (override : Option ℕ) (clock_in clock_out : ℕ)
      (call_next : Option RequestState → Response Cookie) (path method : String) (session : Session)
      (signed_at : ℕ)
      → is_public path ≡ false
      → signed_at ≤ clock_in
      → session.last_activity + config.inactivity_seconds < now_or s override clock_in
      → dispatch s config override clock_in clock_out call_next
          (record { path = path; method = method; cookie = some (sign s signed_at session) })
        ≡ redirect_to_login
  unfolding dispatch dispatch_verified
  dispatch-idle config override clock_in clock_out call_next path method session signed_at protected
        after idle =
      rw
        (
          protected,
          verify-idle session signed_at clock_in config.inactivity_seconds
              (now_or s override clock_in) after idle,
        )
        refl

  verify-forged :
      (c : Cookie) (clock max_age now_epoch : ℕ)
      → ((t : ℕ) (fields : List (String × Json)) → c ≢ s.dumps t fields)
      → verify s clock (some c) max_age now_epoch ≡ none
  unfolding verify
  verify-forged c clock max_age now_epoch forged = elim (Option-cases (s.loads clock c max_age)) [
    | inl e ↦ rw e (ground arith)
    | inr (payload, e) ↦
        let signed = laws.loads_signed clock max_age c payload e in
        absurd (forged signed.0 signed.1.0 signed.1.1)
  ]

  -- A request for a page that is not public, with a cookie that the secret has not signed, is sent
  -- to the login, whatever the application would answer to it.
  pub dispatch-forged :
      (config : AuthConfig) (override : Option ℕ) (clock_in clock_out : ℕ)
      (call_next : Option RequestState → Response Cookie) (path method : String) (c : Cookie)
      → is_public path ≡ false
      → ((t : ℕ) (fields : List (String × Json)) → c ≢ s.dumps t fields)
      → dispatch s config override clock_in clock_out call_next
          (record { path = path; method = method; cookie = some c })
        ≡ redirect_to_login
  unfolding dispatch dispatch_verified
  dispatch-forged config override clock_in clock_out call_next path method c protected forged =
      rw
        (
          protected,
          verify-forged c clock_in config.inactivity_seconds (now_or s override clock_in) forged,
        )
        refl
