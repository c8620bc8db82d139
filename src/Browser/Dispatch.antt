-- ===== src/Browser/Dispatch.antt =====
-- packages/browser/src/runSession.ts, packages/browser/src/dispatchRouter.ts: generations of runs, and
-- the requests of a page to the host.
--
-- A session is named by its token. What a handler does is a number's worth of behaviour from outside:
-- `answers` says of a handler and a request what comes back.
pub mod Stale
use text.Mathlib.Text.{◌==◌ as str_eq}
use Prim.Native.String.{◌++◌ as ◌+++◌}
use rstest.Prelude.{
  ℕ, suc, ◌==◌, Bool, true, false, not, ◌&&◌, if◌then◌else◌, String, List, [], ◌∷◌, Option, none,
  some, keep, any,
}

-- `RunSessionLifecycle`: the sessions that have been cancelled, whose signal has been given, the newest
-- first.
pub record Lifecycle : Type 0 where
  pub current_token : ℕ
  pub active : Option ℕ
  pub cancelled : List ℕ

unfoldable pub new : Lifecycle
new = record { current_token = 0; active = none; cancelled = [] }

abbrev pub create_session : Lifecycle → Lifecycle
create_session l = record l {
  current_token = suc l.current_token;
  active = some (suc l.current_token);
}

abbrev pub is_token_active : Lifecycle → ℕ → Bool
is_token_active l token = token == l.current_token

abbrev pub is_token_stale : Lifecycle → ℕ → Bool
is_token_stale l token = not (is_token_active l token)

abbrev pub invalidate_active_token : Lifecycle → Lifecycle
invalidate_active_token l = record l { current_token = suc l.current_token }

abbrev is_active : Option ℕ → ℕ → Bool
is_active none token = false
is_active (some active) token = active == token

abbrev pub clear_if_active : ℕ → Lifecycle → Lifecycle
clear_if_active token l = if is_active l.active token then record l { active = none } else l

-- `cancel`: the flag and the signal are set once.
unfoldable pub cancel : ℕ → Lifecycle → Lifecycle
cancel token l =
    if any (token ==◌) l.cancelled then l else record l { cancelled = token ∷ l.cancelled }

abbrev cancel_session : Option ℕ → Lifecycle → Lifecycle
cancel_session none l = l
cancel_session (some token) l = cancel token l

unfoldable pub cancel_active : Lifecycle → Lifecycle
unfolding cancel
cancel_active l = cancel_session l.active l

pub data Event : Type 0 where
  creates invalidates cancels_active : Event
  clears cancels : ℕ → Event

unfoldable pub step : Event → Lifecycle → Lifecycle
unfolding cancel cancel_active
step creates l = create_session l
step invalidates l = invalidate_active_token l
step cancels_active l = cancel_active l
step (clears token) l = clear_if_active token l
step (cancels token) l = cancel token l

unfoldable pub steps : List Event → Lifecycle → Lifecycle
unfolding step
steps [] l = l
steps (e ∷ es) l = steps es (step e l)

pub record Request : Type 0 where
  pub request_id : String
  pub run_token : Option ℕ
  pub namespace : String
  pub method : String

pub data Answer : Type 0 where
  result : ℕ → Answer
  error : String → Answer
  stale : Answer

pub record Response : Type 0 where
  pub request_id : String
  pub run_token : Option ℕ
  pub answer : Answer

-- `handled` and `stale_requests` list what the handlers and `onStale` have been called with, the newest
-- first.
pub record Router : Type 0 where
  pub handlers : List (String × ℕ)
  pub handled : List (ℕ × Request)
  pub stale_requests : List Request

abbrev pub other_namespace : String → String × ℕ → Bool
other_namespace namespace h = not (str_eq h.0 namespace)

-- `Map.set`: a new key goes to the end, an old one keeps its place.
unfoldable pub set_handler : String → ℕ → List (String × ℕ) → List (String × ℕ)
set_handler namespace handler [] = (namespace, handler) ∷ []
set_handler namespace handler (h ∷ hs) =
    let rest = set_handler namespace handler hs in
    if other_namespace namespace h then h ∷ rest else (namespace, handler) ∷ hs

unfoldable pub find_handler : String → List (String × ℕ) → Option ℕ
find_handler namespace [] = none
find_handler namespace (h ∷ hs) =
    if other_namespace namespace h then find_handler namespace hs else some h.1

unfoldable pub register : String → ℕ → Router → Router
unfolding set_handler
register namespace handler r = record r { handlers = set_handler namespace handler r.handlers }

unfoldable pub unregister : String → Router → Router
unregister namespace r = record r { handlers = keep (other_namespace namespace) r.handlers }

abbrev pub has_namespace : String → Router → Bool
has_namespace namespace r = any (λ h. not (other_namespace namespace h)) r.handlers

abbrev respond : Request → Answer → Response
respond q a = record { request_id = q.request_id; run_token = q.run_token; answer = a }

abbrev token_is_stale : Lifecycle → Option ℕ → Bool
token_is_stale l none = false
token_is_stale l (some token) = is_token_stale l token

abbrev route : (ℕ → Request → Answer) → Option ℕ → Request → Router → Response × Router
route answers none q r = (
  respond q (error ("No dispatch handler registered for namespace \"" +++ (q.namespace +++ "\""))),
  r,
)
route answers (some handler) q r =
    (respond q (answers handler q), record r { handled = (handler, q) ∷ r.handled })

-- `dispatch`, with the options of the headless scheduler: the lifecycle says which tokens are stale.
unfoldable pub dispatch : (ℕ → Request → Answer) → Lifecycle → Request → Router → Response × Router
unfolding find_handler
dispatch answers l q r =
    if token_is_stale l q.run_token
    then (respond q stale, record r { stale_requests = q ∷ r.stale_requests })
    else route answers (find_handler q.namespace r.handlers) q r
