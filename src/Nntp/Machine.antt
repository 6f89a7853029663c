-- ===== src/Nntp/Machine.antt =====
-- crates/bergamot-nntp/src/machine.rs: `NntpMachine`, the protocol as a state machine without I/O.
-- A handler returns the new machine; `none` is a panic of `parse_response`. Texts that `format!`
-- builds for error messages are kept as their parts (`Message`).
pub mod Defs
mod Rules
pub mod Turns
pub mod Session
pub mod Secrets
pub mod Body
use bergamot.Prelude.{
  ◌&&◌, ℕ, ◌+◌, Bool, true, false, ◌||◌, List, [], ◌∷◌, ◌++◌, Option, none, some, ◌==◌,
  if◌then◌else◌,
}
use bergamot.Text.{Text, codes, same}
use bergamot.Nntp.Response.{NntpResponse, Parsed, ok, invalid, panicked, parse_response}
use Defs.{
  Input, response_line, body_line, body_end, eof, Message, unexpected_eof, invalid_response_line,
  password_not_provided, idle_response, unexpected_input, server_text, Output, send_command,
  need_response_line, need_body_line, upgrade_to_tls, upgrade_to_deflate, event, ProtoError,
  auth_failed, auth_required, article_not_found, unexpected_response, protocol_error, Event,
  greeting_ok, authenticated, group_joined, stat_result, body_chunk, event_body_end,
  compress_active, quit_ack, error, State, await_greeting, idle, await_auth_user, await_auth_pass,
  await_group, await_stat, await_body_response, reading_body, await_starttls_response,
  await_starttls_greeting, await_pipelined_group_response, await_pipelined_body_response,
  await_compress_response, await_quit, done, NntpMachine, push, enter, emit_error, or_default,
}

unfoldable pub new : NntpMachine
unfolding push
new = push need_response_line (record {
  state = await_greeting;
  outputs = [];
  current_group = none;
  pending_group = none;
  pending_password = none;
  pending_message_id = none;
  is_authenticated = false;
})

unfoldable pub new_after_greeting : NntpMachine
new_after_greeting = record {
  state = idle;
  outputs = [];
  current_group = none;
  pending_group = none;
  pending_password = none;
  pending_message_id = none;
  is_authenticated = false;
}

-- Sends a command and asks for its response line.
abbrev ask : Text → NntpMachine → NntpMachine
ask command m = push need_response_line (push (send_command command) m)

abbrev pub bracketed : Text → Text
bracketed message_id = b'<' ∷ (message_id ++ b'>' ∷ [])

-- `self.current_group.as_deref() == Some(group)`.
abbrev pub is_group : Option Text → Text → Bool
is_group none group = false
is_group (some current) group = same current group

unfoldable pub request_starttls : NntpMachine → NntpMachine
unfolding push enter
request_starttls m = enter await_starttls_response (ask (codes "STARTTLS") m)

unfoldable pub request_compress : NntpMachine → NntpMachine
unfolding push enter
request_compress m = enter await_compress_response (ask (codes "COMPRESS DEFLATE") m)

unfoldable pub request_auth : Text → Text → NntpMachine → NntpMachine
unfolding push enter
request_auth user pass m =
    enter await_auth_user
      (ask (codes "AUTHINFO USER " ++ user) (record m { pending_password = some pass }))

unfoldable pub request_group : Text → NntpMachine → NntpMachine
unfolding push enter
request_group group m =
    if is_group m.current_group group
    then push (event (group_joined group)) m
    else enter await_group (ask (codes "GROUP " ++ group) (record m { pending_group = some group }))

unfoldable pub request_stat : Text → NntpMachine → NntpMachine
unfolding push enter
request_stat message_id m = enter await_stat (ask (codes "STAT " ++ bracketed message_id) m)

unfoldable pub request_body : Text → NntpMachine → NntpMachine
unfolding push enter
request_body message_id m = enter await_body_response (
    ask (codes "BODY " ++ bracketed message_id) (record m { pending_message_id = some message_id }))

unfoldable pub request_group_body : Text → Text → NntpMachine → NntpMachine
unfolding push enter request_body
request_group_body group message_id m =
    if is_group m.current_group group
    then request_body message_id m
    else enter await_pipelined_group_response (
        ask (codes "BODY " ++ bracketed message_id) (
          push (send_command (codes "GROUP " ++ group))
            (record m { pending_group = some group; pending_message_id = some message_id })))

unfoldable pub request_quit : NntpMachine → NntpMachine
unfolding push enter
request_quit m = enter await_quit (ask (codes "QUIT") m)

-- The first output, and the machine without it.
unfoldable pub poll_output : NntpMachine → Option Output × NntpMachine
poll_output m = elim m.outputs [ [] ↦ (none, m) | o ∷ rest ↦ (some o, record m { outputs = rest }) ]

-- The two arms of a match on `parse_response(line)`.
abbrev pub settle :
    Parsed → (NntpResponse → NntpMachine) → (ProtoError → NntpMachine) → Option NntpMachine
settle (ok resp) good bad = some (good resp)
settle invalid good bad = some (bad (protocol_error invalid_response_line))
settle panicked good bad = none

abbrev pub on_line :
    Text → (NntpResponse → NntpMachine) → (ProtoError → NntpMachine) → Option NntpMachine
on_line line = settle (parse_response line)

abbrev pub fail : State → NntpMachine → ProtoError → NntpMachine
unfolding emit_error enter push
fail s m e = enter s (emit_error e m)

abbrev unexpected : NntpResponse → ProtoError
unexpected resp = unexpected_response resp.code resp.message

greeting : NntpMachine → NntpResponse → NntpMachine
unfolding push enter emit_error
greeting m resp =
    if resp.code == 200 || resp.code == 201
    then enter idle (push (event (greeting_ok resp.code)) m)
    else fail done m (unexpected resp)

abbrev send_password : Option Text → NntpMachine → NntpMachine
unfolding push enter emit_error
send_password none m = fail done m (auth_failed password_not_provided)
send_password (some pass) m =
    enter await_auth_pass
      (ask (codes "AUTHINFO PASS " ++ pass) (record m { pending_password = none }))

auth_user : NntpMachine → NntpResponse → NntpMachine
unfolding push enter emit_error
auth_user m resp =
    if resp.code == 281
    then enter idle
        (push (event authenticated) (record m { is_authenticated = true; pending_password = none }))
    else if resp.code == 381
    then send_password m.pending_password m
    else fail done (record m { pending_password = none }) (auth_failed (server_text resp.message))

auth_pass : NntpMachine → NntpResponse → NntpMachine
unfolding push enter emit_error
auth_pass m resp =
    if resp.code == 281
    then enter idle (push (event authenticated) (record m { is_authenticated = true }))
    else fail done m (auth_failed (server_text resp.message))

-- `pending_group.take().unwrap_or_default()` becomes the current group, and is announced.
abbrev join_group : NntpMachine → NntpMachine
unfolding push
join_group m =
    let joined = or_default m.pending_group in
    push (event (group_joined joined))
      (record m { current_group = some joined; pending_group = none })

group_response : NntpMachine → NntpResponse → NntpMachine
unfolding push enter emit_error
group_response m resp =
    if resp.code == 211
    then enter idle (join_group m)
    else fail idle (record m { pending_group = none }) (unexpected resp)

stat_response : NntpMachine → NntpResponse → NntpMachine
unfolding push enter emit_error
stat_response m resp =
    if resp.code == 223
    then enter idle (push (event (stat_result true)) m)
    else if resp.code == 430
    then enter idle (push (event (stat_result false)) m)
    else fail idle m (unexpected resp)

pipelined_group : NntpMachine → NntpResponse → NntpMachine
unfolding push enter emit_error
pipelined_group m resp =
    if resp.code == 211
    then enter await_pipelined_body_response (push need_response_line (join_group m))
    else fail done (record m { pending_group = none; pending_message_id = none }) (unexpected resp)

abbrev missing_id : Option Text → Text
missing_id none = codes "unknown"
missing_id (some message_id) = message_id

-- The response to BODY, pipelined or not: the source's two arms are the same text.
body_response : NntpMachine → NntpResponse → NntpMachine
unfolding push enter emit_error
body_response m resp =
    if resp.code == 222
    then enter reading_body (push need_body_line m)
    else if resp.code == 430
    then fail idle (record m { pending_message_id = none })
        (article_not_found (missing_id m.pending_message_id))
    else if resp.code == 480
    then fail idle (record m { pending_message_id = none }) auth_required
    else fail idle (record m { pending_message_id = none }) (unexpected resp)

-- Dot-unstuffing: of two leading dots the first is dropped.
unfoldable pub unstuff : List ℕ → List ℕ
unstuff [] = []
unstuff (a ∷ []) = a ∷ []
unstuff (a ∷ b ∷ rest) = if a == b'.' && b == b'.' then b ∷ rest else a ∷ b ∷ rest

starttls_response : NntpMachine → NntpResponse → NntpMachine
unfolding push enter emit_error
starttls_response m resp =
    if resp.code == 382
    then enter await_starttls_greeting (push need_response_line (push upgrade_to_tls m))
    else fail done m (unexpected resp)

compress_response : NntpMachine → NntpResponse → NntpMachine
unfolding push enter emit_error
compress_response m resp =
    if resp.code == 206
    then enter idle (push (event compress_active) (push upgrade_to_deflate m))
    else fail idle m (unexpected resp)

-- The match of `handle_input` on the state and the input, its arms in the source's order.
dispatch : State → Input → NntpMachine → Option NntpMachine
unfolding enter push emit_error
dispatch done i m = some m
dispatch s eof m = some (fail done m (protocol_error unexpected_eof))
dispatch await_greeting (response_line line) m = on_line line (greeting m) (fail done m)
dispatch await_auth_user (response_line line) m =
    on_line line (auth_user m) (fail done (record m { pending_password = none }))
dispatch await_auth_pass (response_line line) m = on_line line (auth_pass m) (fail done m)
dispatch await_group (response_line line) m =
    on_line line (group_response m) (fail done (record m { pending_group = none }))
dispatch await_stat (response_line line) m = on_line line (stat_response m) (fail done m)
dispatch await_pipelined_group_response (response_line line) m =
    on_line line (pipelined_group m)
      (fail done (record m { pending_group = none; pending_message_id = none }))
dispatch await_pipelined_body_response (response_line line) m =
    on_line line (body_response m) (fail done (record m { pending_message_id = none }))
dispatch await_body_response (response_line line) m =
    on_line line (body_response m) (fail done (record m { pending_message_id = none }))
dispatch reading_body body_end m =
    some (enter idle (push (event event_body_end) (record m { pending_message_id = none })))
dispatch reading_body (body_line line) m =
    some (push need_body_line (push (event (body_chunk (unstuff line))) m))
dispatch await_starttls_response (response_line line) m =
    on_line line (starttls_response m) (fail done m)
dispatch await_starttls_greeting (response_line line) m = on_line line (greeting m) (fail done m)
dispatch await_compress_response (response_line line) m =
    on_line line (compress_response m) (fail idle m)
dispatch await_quit (response_line line) m = some (enter done (push (event quit_ack) m))
dispatch idle (response_line line) m = some (emit_error (protocol_error (idle_response line)) m)
dispatch s i m = some (fail done m (protocol_error (unexpected_input i s)))

unfoldable pub handle_input : NntpMachine → Input → Option NntpMachine
unfolding dispatch greeting auth_user auth_pass group_response stat_response pipelined_group
    body_response unstuff starttls_response compress_response
handle_input m i = dispatch m.state i m
