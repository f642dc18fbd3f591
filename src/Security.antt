-- ===== src/Security.antt =====
-- Access control and rate limits (src/runtime/security.py, src/runtime/tenant.py). Times are readings of
-- the monotonic clock, in any unit in which the window is a whole number.
pub mod Window
use shelf_life_copilot.Prelude.{
  ℕ, ◌+◌, String, Bool, true, false, not, ◌&&◌, ◌||◌, Option, none, some, List, [], ◌∷◌, ◌++◌, ltb,
  leb, ◌==◌, if◌then◌else◌,
}
use shelf_life_copilot.Prelude.Table.{contains}

-- `_events`: the deque of every client's key
abbrev pub Events : Type 0
Events = String → List ℕ

abbrev pub no_events : Events
no_events key = []

abbrev pub count : List ℕ → ℕ
count [] = 0
count (_ ∷ ts) = count ts + 1

-- `while events and events[0] <= cutoff: events.popleft()`
unfoldable pub prune : ℕ → ℕ → List ℕ → List ℕ
prune window now [] = []
prune window now (t ∷ ts) =
    let rest = prune window now ts in if leb (t + window) now then rest else t ∷ ts

abbrev pub with_events : String → List ℕ → Events → Events
with_events key ts events j = if j == key then ts else events j

-- `SlidingWindowRateLimiter.allow` with the constructor's limit and window
unfoldable pub allow : ℕ → ℕ → String → ℕ → Events → Bool × Events
unfolding prune
allow limit window key now events =
    let kept = prune window now (events key) in
    if leb limit (count kept)
    then (false, with_events key kept events)
    else (true, with_events key (kept ++ now ∷ []) events)

pub data Role : Type 0 where
  viewer operator admin : Role

unfoldable pub role_eq : Role → Role → Bool
role_eq viewer viewer = true
role_eq operator operator = true
role_eq admin admin = true
role_eq _ _ = false

pub record Principal : Type 0 where
  pub subject : String
  pub customer_ids : List String
  pub roles : List Role

-- `has_any_role`
unfoldable pub has_any_role : List Role → Principal → Bool
unfolding role_eq
has_any_role required p = contains (λ r. contains (role_eq r) required) p.roles

-- The answer of a dependency: what it gives, or the status code of the HTTPException.
pub data Access {ℓ} (A : Type ℓ) : Type ℓ where
  granted : A → Access A
  denied : ℕ → Access A

-- `require_customer`
unfoldable pub require_customer : Principal → String → Access (Unit {0})
require_customer p customer =
    if contains (λ c. c == customer) p.customer_ids then granted tt else denied 403

-- `require_roles`
unfoldable pub require_roles : List Role → Access Principal → Access Principal
unfolding has_any_role
require_roles required (denied n) = denied n
require_roles required (granted p) = if has_any_role required p then granted p else denied 403

-- A request to the guard; `content_length` is the header, if it is given, read by `int` (a negative one
-- as 0, which passes the same test).
pub record Request : Type 0 where
  pub is_post : Bool
  pub path : String
  pub is_api_path : Bool
  pub content_length : Option (Option ℕ)
  pub body_size : ℕ
  pub client : Option String

abbrev pub protected : Request → Bool
protected r = r.is_post && (r.path == "/webhook/wecom" || r.is_api_path)

abbrev pub declared_status : ℕ → Option (Option ℕ) → Option ℕ
declared_status limit none = none
declared_status limit (some none) = some 400
declared_status limit (some (some n)) = if ltb limit n then some 413 else none

abbrev pub limited : Option Bool → Option ℕ
limited none = some 503
limited (some true) = none
limited (some false) = some 429

abbrev pub first_status : Option ℕ → Option ℕ → Option ℕ
first_status (some n) _ = some n
first_status none m = m

-- `RequestGuardMiddleware.dispatch`: the status that refuses the request, or none when it is passed on.
-- `allowed` is the answer of the configured limiter, or none when its backend fails.
unfoldable pub dispatch : ℕ → Option Bool → Request → Option ℕ
dispatch max_body_bytes allowed r =
    if protected r
    then first_status (declared_status max_body_bytes r.content_length)
        (if ltb max_body_bytes r.body_size then some 413 else limited allowed)
    else none

-- The settings and services that authentication reads: the mode, the static token with its customers,
-- and the verifier's subject, customers and roles for a token, where they are well formed.
pub record Authentication : Type 0 where
  pub is_oidc : Bool
  pub is_static : Bool
  pub api_token : Option String
  pub api_token_customer_ids : List String
  pub verify : String → Option Principal

abbrev pub oidc_access : Option Principal → Access Principal
oidc_access none = denied 401
oidc_access (some p) = granted p

abbrev pub static_access : Authentication → String → Option String → Access Principal
static_access au supplied none = denied 500
static_access au supplied (some expected) =
    if supplied == expected
    then granted (record {
      subject = "api-token";
      customer_ids = au.api_token_customer_ids;
      roles = viewer ∷ operator ∷ admin ∷ [];
    })
    else denied 401

abbrev pub is_missing : Option String → Bool
is_missing none = true
is_missing (some _) = false

-- `require_principal`: `supplied` is the bearer token of the header, or none when the header is not of
-- that form or the token is empty
unfoldable pub require_principal : Authentication → Option String → Access Principal
require_principal au supplied =
    if au.is_static && is_missing au.api_token then denied 503 else elim supplied [
      | none ↦ denied 401
      | some token ↦
          if au.is_oidc then oidc_access (au.verify token) else static_access au token au.api_token
    ]
