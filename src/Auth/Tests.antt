-- ===== src/Auth/Tests.antt =====
-- The theorems about web/auth.py with a serializer that keeps what it signs in the clear.
use accounting_tool.Auth.Browse.{Visit, browse, IsActive, page_for, browse-IsActive}
use accounting_tool.Auth.Laws.{IsSigner, dispatch-idle, verify-sign}
use accounting_tool.Auth.{
  dispatch, is_public, AuthConfig, Json, Serializer, verify, Session, Payload, RequestState,
  text_value, number, sign, Response, redirect_to_login, object,
}
use accounting_tool.Prelude.{
  ℕ, List, Option, ◌≡◌, map, true, none, some, false, arith, suc, String, ◌∷◌, if◌then◌else◌, refl,
  leb, [], ◌&&◌, ◌+◌,
}

abbrev Token : Type 0
Token = ℕ × List (String × Json)

abbrev toy_int : Json → Option ℕ
toy_int (number n) = some n
toy_int _ = none

abbrev toy : Serializer Token
toy = record {
  is_empty = λ c. false;
  dumps = λ t fields. (t, fields);
  loads = λ clock c max_age.
      if leb c.0 clock && leb clock (c.0 + max_age) then some (object c.1) else none;
  int_of = toy_int;
}

toy_loads_signed :
    (clock max_age : ℕ) (c : Token) (payload : Payload)
    → toy.loads clock c max_age ≡ some payload
    → (t : ℕ) × ((fields : List (String × Json)) × (c ≡ toy.dumps t fields))
toy_loads_signed clock max_age c payload h = (c.0, (c.1, refl))

toy-IsSigner : IsSigner toy
toy-IsSigner = record {
  dumps_full = λ t fields. refl;
  loads_dumps = λ t clock max_age fields h k. ground (arith, h, k);
  loads_expired = λ t clock max_age fields h. ground (arith, h);
  loads_signed = toy_loads_signed;
  int_number = λ n. refl;
}

abbrev config : AuthConfig
config = record {
  passphrase = "tangerine";
  signing_secret = "secret";
  cookie_secure = true;
  inactivity_seconds = 100;
}

abbrev session : Session
session = record {
  assignee_id = text_value "noi";
  last_activity = 1000;
  session_id = text_value "s-1";
}

abbrev page : Option RequestState → Response Token
page state = record { status_code = 200; location = none; body = "ok"; set_cookies = [] }

abbrev visit : ℕ → Visit Token
visit t = record {
  path = "/review";
  method = "GET";
  call_next = page;
  clock_in = t;
  clock_out = suc t;
}

public_paths :
    map is_public ("/login" ∷ "/static/a.css" ∷ "/statics" ∷ "/login/x" ∷ [])
    ≡ true ∷ true ∷ false ∷ false ∷ []
unfolding is_public
public_paths = refl

read_back : verify toy 1050 (some (sign toy 1000 session)) 100 1050 ≡ some session
read_back =
    verify-sign toy toy-IsSigner session 1000 1050 100 1050 (omega arith) (omega arith)
      (omega arith)

protected : is_public "/review" ≡ false
unfolding is_public
protected = refl

dispatch-idle_example :
    dispatch toy config none 1101 1102 page
      (record { path = "/review"; method = "GET"; cookie = some (sign toy 1050 session) })
    ≡ redirect_to_login
dispatch-idle_example =
    dispatch-idle toy toy-IsSigner config none 1101 1102 page "/review" "GET" session 1050 protected
      (omega arith) (omega arith)

three_visits : IsActive 100 1000 1000 (visit 1090 ∷ visit 1180 ∷ visit 1270 ∷ [])
unfolding is_public
three_visits = (
  refl,
  (
    refl,
    (
      omega arith,
      (
        omega arith,
        (
          omega arith,
          (
            refl,
            (
              refl,
              (
                omega arith,
                (
                  omega arith,
                  (omega arith, (refl, (refl, (omega arith, (omega arith, (omega arith, tt)))))),
                ),
              ),
            ),
          ),
        ),
      ),
    ),
  ),
)

browse-IsActive_example :
    browse toy config (some (sign toy 1000 session)) (visit 1090 ∷ visit 1180 ∷ visit 1270 ∷ [])
    ≡ map (page_for toy config session) (visit 1090 ∷ visit 1180 ∷ visit 1270 ∷ [])
browse-IsActive_example =
    browse-IsActive toy toy-IsSigner config session 1000 (visit 1090 ∷ visit 1180 ∷ visit 1270 ∷ [])
      (omega arith) three_visits
