-- ===== src/Transport.antt =====
-- src/request_id.rs: the traffic of a scope and the gate that its requests ask.
--
-- What the task-locals hold is the state `Scope`: each is `none` outside its scope. One request is an
-- `Exchange`: the credential mint, which may send requests of its own, whether the gate's `is_open`
-- answers true, what the HTTP client answers, and whether the request then left. A header that is no
-- text counts as absent.
pub mod RetryAfter
pub mod Broker
pub mod Sample
pub mod Laws
mod Tests
use st0x_alpaca.Prelude.{
  ℕ, Bool, true, false, not, ◌||◌, ◌≡◌, List, [], ◌∷◌, ◌++◌, Option, none, some, leb, ltb, ◌&&◌,
  if◌then◌else◌, Result, ok, err,
}
use st0x_alpaca.Errors.Http.{Http}
use st0x_alpaca.Errors.Jwt.{KmsJwtError}
use st0x_alpaca.Gateway.Audit.{Traffic}

-- `closed` of the gate that decides.
pub record SendGate : Type 0 where
  pub closed : Bool

pub record Scope : Type 0 where
  pub traffic : Option Traffic
  pub gate : Option SendGate
  pub last_answer : Option (Option ℕ)

unfoldable pub close : SendGate → SendGate
close gate = record gate { closed = true }

-- Whether the gate is closed at a time when its `is_open` answers as given.
unfoldable pub is_held : SendGate → Bool → Bool
is_held gate is_open = gate.closed || not is_open

-- `hold` of the active gate, if there is one.
unfoldable pub held_back : Option SendGate → Bool → Bool
unfolding is_held
held_back none is_open = false
held_back (some gate) is_open = is_held gate is_open

-- `ensure_open`, of which a credential mint asks.
unfoldable pub ensure_open : Scope → Bool → Bool
unfolding held_back
ensure_open scope is_open = not (held_back scope.gate is_open)

unfoldable pub update : (Traffic → Traffic) → Scope → Scope
update change scope = elim scope.traffic [
  | none ↦ scope
  | some traffic ↦ record scope { traffic = some (change traffic) }
]

unfoldable pub add_id : List ℕ → Traffic → Traffic
add_id id traffic = record traffic { request_ids = traffic.request_ids ++ (id ∷ []) }

unfoldable pub set_status : ℕ → Traffic → Traffic
set_status status traffic = record traffic { last_status = some status }

unfoldable pub record_id : Option (List ℕ) → Scope → Scope
unfolding update add_id
record_id none scope = scope
record_id (some id) scope = update (add_id id) scope

unfoldable pub set_last : ℕ → Scope → Scope
set_last status scope = elim scope.last_answer [
  | none ↦ scope
  | some last ↦ record scope { last_answer = some (some status) }
]

-- `record`.
unfoldable pub record_answer : ℕ → Option (List ℕ) → Scope → Scope
unfolding update set_status set_last record_id
record_answer status id scope = record_id id (set_last status (update (set_status status) scope))

module _ (H : Http) where
  -- An answer: its status, its request id, the hint of its `Retry-After`, and its body.
  pub record Response : Type 0 where
    pub status : ℕ
    pub request_id : Option (List ℕ)
    pub retry_after : Option ℕ
    pub body : Result (List ℕ) H.Error

  pub record Exchange : Type 0 where
    pub mint : Scope → Scope × Option (KmsJwtError H)
    pub is_open : Bool
    pub answer : Result Response H.Error
    pub left : Bool

  pub data SendError : Type 0 where
    http : H.Error → SendError
    not_sent : SendError

  -- What `send` gives, and whether the request left.
  unfoldable pub send : Scope → Exchange → Result Response SendError × Bool
  unfolding held_back
  send scope x =
      if held_back scope.gate x.is_open
      then (err not_sent, false)
      else (elim x.answer [ ok r ↦ ok r | err e ↦ err (http e) ], x.left)

-- What the clients use of the crates for statuses, JSON and texts. The law is the documented range.
pub record Codec : Type 0 where
  pub is_success : ℕ → Bool
  pub error_message : List ℕ → Option (List ℕ)
  pub from_utf8_lossy : List ℕ → List ℕ
  pub is_success_lem : (s : ℕ) → is_success s ≡ (leb 200 s && ltb s 300)
