-- ===== src/Nntp/Machine/Turns.antt =====
-- The outputs of one handled input: what they ask the driver to read next.
use bergamot.Prelude.{
  ap, append_assoc, append-nil, ◌≡◌, refl, List, [], ◌∷◌, ◌++◌, none, some, arith,
}
use bergamot.Nntp.Response.{NntpResponse}
use bergamot.Nntp.Machine.Defs.{
  enter, emit_error, ProtoError, Input, response_line, Output, send_command, need_response_line,
  need_body_line, upgrade_to_tls, upgrade_to_deflate, event, State, await_greeting, idle,
  await_auth_user, await_auth_pass, await_group, await_stat, await_body_response, reading_body,
  await_starttls_response, await_starttls_greeting, await_pipelined_group_response,
  await_pipelined_body_response, await_compress_response, done, NntpMachine, push,
}
use bergamot.Nntp.Machine.Rules.{on_line_rule}
use bergamot.Nntp.Machine.{
  handle_input, dispatch, fail, greeting, auth_user, auth_pass, group_response, stat_response,
  pipelined_group, body_response, starttls_response, compress_response,
}

pub data Want : Type 0 where
  a_line a_body_line : Want

-- What a state waits for.
abbrev pub wants : State → List Want
wants idle = []
wants done = []
wants reading_body = a_body_line ∷ []
wants s = a_line ∷ []

-- The read requests among outputs, in order.
abbrev pub reads : List Output → List Want
reads [] = []
reads (need_response_line ∷ os) = a_line ∷ reads os
reads (need_body_line ∷ os) = a_body_line ∷ reads os
reads (o ∷ os) = reads os

reads-append : (xs ys : List Output) → reads (xs ++ ys) ≡ reads xs ++ reads ys
reads-append [] ys = refl
reads-append (send_command c ∷ os) ys = reads-append os ys
reads-append (need_response_line ∷ os) ys = ap (◌∷◌ a_line) (reads-append os ys)
reads-append (need_body_line ∷ os) ys = ap (◌∷◌ a_body_line) (reads-append os ys)
reads-append (upgrade_to_tls ∷ os) ys = reads-append os ys
reads-append (upgrade_to_deflate ∷ os) ys = reads-append os ys
reads-append (event e ∷ os) ys = reads-append os ys

-- The read requests that were added are those of the state that was entered.
abbrev pub Turn : NntpMachine → NntpMachine → Type 0
Turn m m' = reads m'.outputs ≡ reads m.outputs ++ wants m'.state

ruleset queue_laws = (reads-append, append_assoc, append-nil)

greeting-Turn : (m : NntpMachine) (resp : NntpResponse) → Turn m (greeting m resp)
unfolding greeting
greeting-Turn m resp = grind (arith, queue_laws)

auth_user-Turn : (m : NntpMachine) (resp : NntpResponse) → Turn m (auth_user m resp)
unfolding auth_user
auth_user-Turn m resp = grind (arith, queue_laws)

auth_pass-Turn : (m : NntpMachine) (resp : NntpResponse) → Turn m (auth_pass m resp)
unfolding auth_pass
auth_pass-Turn m resp = grind (arith, queue_laws)

group_response-Turn : (m : NntpMachine) (resp : NntpResponse) → Turn m (group_response m resp)
unfolding group_response
group_response-Turn m resp = grind (arith, queue_laws)

stat_response-Turn : (m : NntpMachine) (resp : NntpResponse) → Turn m (stat_response m resp)
unfolding stat_response
stat_response-Turn m resp = grind (arith, queue_laws)

pipelined_group-Turn : (m : NntpMachine) (resp : NntpResponse) → Turn m (pipelined_group m resp)
unfolding pipelined_group
pipelined_group-Turn m resp = grind (arith, queue_laws)

body_response-Turn : (m : NntpMachine) (resp : NntpResponse) → Turn m (body_response m resp)
unfolding body_response
body_response-Turn m resp = grind (arith, queue_laws)

starttls_response-Turn : (m : NntpMachine) (resp : NntpResponse) → Turn m (starttls_response m resp)
unfolding starttls_response
starttls_response-Turn m resp = grind (arith, queue_laws)

compress_response-Turn : (m : NntpMachine) (resp : NntpResponse) → Turn m (compress_response m resp)
unfolding compress_response
compress_response-Turn m resp = grind (arith, queue_laws)

-- The machine with its outputs kept, whatever else is set, when a handler fails.
fail-Turn :
    (s : State) (m n : NntpMachine) (e : ProtoError)
    → wants s ≡ []
    → n.outputs ≡ m.outputs
    → Turn m (fail s n e)
unfolding enter emit_error push
fail-Turn s m n e q k = grind (arith, queue_laws)

dispatch-Turn :
    (s : State) (i : Input) (m m' : NntpMachine)
    → m.state ≡ s
    → dispatch s i m ≡ some m'
    → Turn m m'
unfolding dispatch
dispatch-Turn done i m m' e h = grind (arith, queue_laws)
dispatch-Turn await_greeting (response_line line) m m' e h =
    on_line_rule (Turn m) line (greeting m) done m (greeting-Turn m)
      (λ err. fail-Turn done m m err refl refl) h
dispatch-Turn await_auth_user (response_line line) m m' e h =
    on_line_rule (Turn m) line (auth_user m) done (record m { pending_password = none })
      (auth_user-Turn m)
      (λ err. fail-Turn done m (record m { pending_password = none }) err refl refl) h
dispatch-Turn await_auth_pass (response_line line) m m' e h =
    on_line_rule (Turn m) line (auth_pass m) done m (auth_pass-Turn m)
      (λ err. fail-Turn done m m err refl refl) h
dispatch-Turn await_group (response_line line) m m' e h =
    on_line_rule (Turn m) line (group_response m) done (record m { pending_group = none })
      (group_response-Turn m)
      (λ err. fail-Turn done m (record m { pending_group = none }) err refl refl) h
dispatch-Turn await_stat (response_line line) m m' e h =
    on_line_rule (Turn m) line (stat_response m) done m (stat_response-Turn m)
      (λ err. fail-Turn done m m err refl refl) h
dispatch-Turn await_pipelined_group_response (response_line line) m m' e h =
    on_line_rule (Turn m) line (pipelined_group m) done
      (record m { pending_group = none; pending_message_id = none }) (pipelined_group-Turn m)
      (λ err.
        fail-Turn done m (record m { pending_group = none; pending_message_id = none }) err refl
          refl)
      h
dispatch-Turn await_pipelined_body_response (response_line line) m m' e h =
    on_line_rule (Turn m) line (body_response m) done (record m { pending_message_id = none })
      (body_response-Turn m)
      (λ err. fail-Turn done m (record m { pending_message_id = none }) err refl refl) h
dispatch-Turn await_body_response (response_line line) m m' e h =
    on_line_rule (Turn m) line (body_response m) done (record m { pending_message_id = none })
      (body_response-Turn m)
      (λ err. fail-Turn done m (record m { pending_message_id = none }) err refl refl) h
dispatch-Turn await_starttls_response (response_line line) m m' e h =
    on_line_rule (Turn m) line (starttls_response m) done m (starttls_response-Turn m)
      (λ err. fail-Turn done m m err refl refl) h
dispatch-Turn await_starttls_greeting (response_line line) m m' e h =
    on_line_rule (Turn m) line (greeting m) done m (greeting-Turn m)
      (λ err. fail-Turn done m m err refl refl) h
dispatch-Turn await_compress_response (response_line line) m m' e h =
    on_line_rule (Turn m) line (compress_response m) idle m (compress_response-Turn m)
      (λ err. fail-Turn idle m m err refl refl) h
dispatch-Turn s i m m' e h = grind (arith, queue_laws)

-- Handling an input, in any state, queues exactly the read request that the state it leaves the
-- machine in waits for: one response line, one body line, or none when it is idle or done.
pub handle_input-Turn :
    (m m' : NntpMachine) (i : Input)
    → handle_input m i ≡ some m'
    → reads m'.outputs ≡ reads m.outputs ++ wants m'.state
unfolding handle_input
handle_input-Turn m m' i h = dispatch-Turn m.state i m m' refl h
