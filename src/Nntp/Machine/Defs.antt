-- ===== src/Nntp/Machine/Defs.antt =====
-- crates/bergamot-nntp/src/machine.rs: the types of the protocol machine and its state.
use bergamot.Prelude.{ℕ, Bool, List, [], ◌∷◌, ◌++◌, Option, none, some}
use bergamot.Text.{Text}

pub data Input : Type 0 where
  response_line : Text → Input
  body_line : List ℕ → Input
  body_end eof : Input

pub data State : Type 0 where
  await_greeting idle await_auth_user await_auth_pass await_group await_stat : State
  await_body_response reading_body await_starttls_response await_starttls_greeting : State
  await_pipelined_group_response await_pipelined_body_response await_compress_response : State
  await_quit done : State

-- The texts of errors: the fixed ones, a server's own words, and those that quote an input.
pub data Message : Type 0 where
  unexpected_eof invalid_response_line password_not_provided : Message
  idle_response : Text → Message
  unexpected_input : Input → State → Message
  server_text : Text → Message

pub data ProtoError : Type 0 where
  auth_failed : Message → ProtoError
  auth_required : ProtoError
  article_not_found : Text → ProtoError
  unexpected_response : ℕ → Text → ProtoError
  protocol_error : Message → ProtoError

pub data Event : Type 0 where
  greeting_ok : ℕ → Event
  authenticated : Event
  group_joined : Text → Event
  stat_result : Bool → Event
  body_chunk : List ℕ → Event
  event_body_end compress_active quit_ack : Event
  error : ProtoError → Event

pub data Output : Type 0 where
  send_command : Text → Output
  need_response_line need_body_line upgrade_to_tls upgrade_to_deflate : Output
  event : Event → Output

pub record NntpMachine : Type 0 where
  pub state : State
  pub outputs : List Output
  pub current_group : Option Text
  pub pending_group : Option Text
  pub pending_password : Option Text
  pub pending_message_id : Option Text
  pub is_authenticated : Bool

-- `self.outputs.push_back(o)`.
unfoldable pub push : Output → NntpMachine → NntpMachine
push o m = record m { outputs = m.outputs ++ o ∷ [] }

-- `self.state = s`.
unfoldable pub enter : State → NntpMachine → NntpMachine
enter s m = record m { state = s }

unfoldable pub emit_error : ProtoError → NntpMachine → NntpMachine
unfolding push
emit_error e m = push (event (error e)) m

-- `unwrap_or_default` on an optional text.
abbrev pub or_default : Option Text → Text
or_default none = []
or_default (some s) = s
