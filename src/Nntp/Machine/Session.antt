-- ===== src/Nntp/Machine/Session.antt =====
-- Sessions: a client that makes one request at a time, polls the outputs and hands inputs in, in
-- any order. The pending fields are set exactly in the states that read them.
use bergamot.Prelude.{◌≡◌, refl, ◌⊎◌, inl, inr, Bool, true, false, none, some, arith, is_some}
use bergamot.Text.{Text}
use bergamot.Nntp.Response.{NntpResponse}
use bergamot.Nntp.Machine.Defs.{
  Input, response_line, State, await_greeting, idle, await_auth_user, await_auth_pass, await_group,
  await_stat, await_body_response, reading_body, await_starttls_response, await_starttls_greeting,
  await_pipelined_group_response, await_pipelined_body_response, await_compress_response, done,
  NntpMachine,
}
use bergamot.Nntp.Machine.Rules.{on_line_rule}
use bergamot.Nntp.Machine.{
  handle_input, dispatch, new, new_after_greeting, poll_output, request_starttls, request_compress,
  request_auth, request_group, request_stat, request_body, request_group_body, request_quit,
  greeting, auth_user, auth_pass, group_response, stat_response, pipelined_group, body_response,
  starttls_response, compress_response,
}

pub data Call : Type 0 where
  starttls compress quit : Call
  auth : Text → Text → Call
  group stat body : Text → Call
  group_body : Text → Text → Call

abbrev pub request : Call → NntpMachine → NntpMachine
request starttls = request_starttls
request compress = request_compress
request quit = request_quit
request (auth user pass) = request_auth user pass
request (group g) = request_group g
request (stat i) = request_stat i
request (body i) = request_body i
request (group_body g i) = request_group_body g i

-- A request is made of an idle machine only.
pub data Step (m m' : NntpMachine) : Type 0 where
  asks : (c : Call) → m.state ≡ idle → m' ≡ request c m → Step m m'
  polls : m' ≡ (poll_output m).1 → Step m m'
  handles : (i : Input) → handle_input m i ≡ some m' → Step m m'

pub data Reach : NntpMachine → Type 0 where
  fresh : Reach new
  greeted : Reach new_after_greeting
  next : {m m' : NntpMachine} → Reach m → Step m m' → Reach m'

abbrev pub in_group : State → Bool
in_group await_group = true
in_group await_pipelined_group_response = true
in_group s = false

abbrev pub in_auth : State → Bool
in_auth await_auth_user = true
in_auth s = false

abbrev pub in_fetch : State → Bool
in_fetch await_pipelined_group_response = true
in_fetch await_pipelined_body_response = true
in_fetch await_body_response = true
in_fetch reading_body = true
in_fetch s = false

-- The pending fields of a machine in a state.
pub record Kept (s : State) (m : NntpMachine) : Type 0 where
  pub password : is_some m.pending_password ≡ in_auth s
  pub joining : is_some m.pending_group ≡ in_group s
  pub fetching : is_some m.pending_message_id ≡ in_fetch s

abbrev pub Bookkeeping : NntpMachine → Type 0
Bookkeeping m = (m.state ≡ done) ⊎ Kept m.state m

module _ (s : State) (same_pending : (m : NntpMachine) → Kept s m → Kept idle m) where
  greeting-Bookkeeping :
      (m : NntpMachine) (resp : NntpResponse) → Kept s m → Bookkeeping (greeting m resp)
  unfolding greeting
  greeting-Bookkeeping m resp k = let k' = same_pending m k in ground arith

auth_user-Bookkeeping :
    (m : NntpMachine) (resp : NntpResponse)
    → Kept await_auth_user m
    → Bookkeeping (auth_user m resp)
unfolding auth_user
auth_user-Bookkeeping m resp k = ground arith

auth_pass-Bookkeeping :
    (m : NntpMachine) (resp : NntpResponse)
    → Kept await_auth_pass m
    → Bookkeeping (auth_pass m resp)
unfolding auth_pass
auth_pass-Bookkeeping m resp k = ground arith

group_response-Bookkeeping :
    (m : NntpMachine) (resp : NntpResponse)
    → Kept await_group m
    → Bookkeeping (group_response m resp)
unfolding group_response
group_response-Bookkeeping m resp k = ground arith

stat_response-Bookkeeping :
    (m : NntpMachine) (resp : NntpResponse) → Kept await_stat m → Bookkeeping (stat_response m resp)
unfolding stat_response
stat_response-Bookkeeping m resp k = ground arith

pipelined_group-Bookkeeping :
    (m : NntpMachine) (resp : NntpResponse)
    → Kept await_pipelined_group_response m
    → Bookkeeping (pipelined_group m resp)
unfolding pipelined_group
pipelined_group-Bookkeeping m resp k = ground arith

body_response-Bookkeeping :
    (m : NntpMachine) (resp : NntpResponse)
    → Kept await_body_response m
    → Bookkeeping (body_response m resp)
unfolding body_response
body_response-Bookkeeping m resp k = ground arith

starttls_response-Bookkeeping :
    (m : NntpMachine) (resp : NntpResponse)
    → Kept await_starttls_response m
    → Bookkeeping (starttls_response m resp)
unfolding starttls_response
starttls_response-Bookkeeping m resp k = ground arith

compress_response-Bookkeeping :
    (m : NntpMachine) (resp : NntpResponse)
    → Kept await_compress_response m
    → Bookkeeping (compress_response m resp)
unfolding compress_response
compress_response-Bookkeeping m resp k = ground arith

dispatch-Bookkeeping :
    (s : State) (i : Input) (m : NntpMachine) {m' : NntpMachine}
    → m.state ≡ s
    → Kept s m
    → dispatch s i m ≡ some m'
    → Bookkeeping m'
unfolding dispatch
dispatch-Bookkeeping await_greeting (response_line line) m e k h =
    on_line_rule Bookkeeping line (greeting m) done m
      (λ r. greeting-Bookkeeping await_greeting (λ n k. ground arith) m r k) (λ err. ground arith) h
dispatch-Bookkeeping await_auth_user (response_line line) m e k h =
    on_line_rule Bookkeeping line (auth_user m) done (record m { pending_password = none })
      (λ r. auth_user-Bookkeeping m r k) (λ err. ground arith) h
dispatch-Bookkeeping await_auth_pass (response_line line) m e k h =
    on_line_rule Bookkeeping line (auth_pass m) done m (λ r. auth_pass-Bookkeeping m r k)
      (λ err. ground arith) h
dispatch-Bookkeeping await_group (response_line line) m e k h =
    on_line_rule Bookkeeping line (group_response m) done (record m { pending_group = none })
      (λ r. group_response-Bookkeeping m r k) (λ err. ground arith) h
dispatch-Bookkeeping await_stat (response_line line) m e k h =
    on_line_rule Bookkeeping line (stat_response m) done m (λ r. stat_response-Bookkeeping m r k)
      (λ err. ground arith) h
dispatch-Bookkeeping await_pipelined_group_response (response_line line) m e k h =
    on_line_rule Bookkeeping line (pipelined_group m) done
      (record m { pending_group = none; pending_message_id = none })
      (λ r. pipelined_group-Bookkeeping m r k) (λ err. ground arith) h
dispatch-Bookkeeping await_pipelined_body_response (response_line line) m e k h =
    on_line_rule Bookkeeping line (body_response m) done (record m { pending_message_id = none })
      (λ r. body_response-Bookkeeping m r (ground arith)) (λ err. ground arith) h
dispatch-Bookkeeping await_body_response (response_line line) m e k h =
    on_line_rule Bookkeeping line (body_response m) done (record m { pending_message_id = none })
      (λ r. body_response-Bookkeeping m r k) (λ err. ground arith) h
dispatch-Bookkeeping await_starttls_response (response_line line) m e k h =
    on_line_rule Bookkeeping line (starttls_response m) done m
      (λ r. starttls_response-Bookkeeping m r k) (λ err. ground arith) h
dispatch-Bookkeeping await_starttls_greeting (response_line line) m e k h =
    on_line_rule Bookkeeping line (greeting m) done m
      (λ r. greeting-Bookkeeping await_starttls_greeting (λ n k. ground arith) m r k)
      (λ err. ground arith) h
dispatch-Bookkeeping await_compress_response (response_line line) m e k h =
    on_line_rule Bookkeeping line (compress_response m) idle m
      (λ r. compress_response-Bookkeeping m r k) (λ err. ground arith) h
dispatch-Bookkeeping s i m e k h = ground arith

request-Bookkeeping :
    (c : Call) (m : NntpMachine) → m.state ≡ idle → Bookkeeping m → Bookkeeping (request c m)
unfolding request_starttls request_compress request_quit request_auth request_group request_stat
    request_body request_group_body
request-Bookkeeping starttls m e b = ground arith
request-Bookkeeping compress m e b = ground arith
request-Bookkeeping quit m e b = ground arith
request-Bookkeeping (auth user pass) m e b = ground arith
request-Bookkeeping (group g) m e b = ground arith
request-Bookkeeping (stat i) m e b = ground arith
request-Bookkeeping (body i) m e b = ground arith
request-Bookkeeping (group_body g i) m e b = ground arith

handle_input-Bookkeeping :
    (i : Input) {m m' : NntpMachine} → Bookkeeping m → handle_input m i ≡ some m' → Bookkeeping m'
unfolding handle_input dispatch
handle_input-Bookkeeping i {m} {m'} (inl e) h = ground arith
handle_input-Bookkeeping i {m} (inr k) h = dispatch-Bookkeeping m.state i m refl k h

Step-Bookkeeping : {m m' : NntpMachine} → Step m m' → Bookkeeping m → Bookkeeping m'
unfolding poll_output
Step-Bookkeeping {m} (asks c e q) b = rw q (request-Bookkeeping c m e b)
Step-Bookkeeping (polls q) b = ground arith
Step-Bookkeeping (handles i h) b = handle_input-Bookkeeping i b h

-- In every session a pending password, group or message id is there in exactly the states that will
-- read it, until the machine is done.
pub Reach-Bookkeeping : {m : NntpMachine} → Reach m → Bookkeeping m
unfolding new new_after_greeting
Reach-Bookkeeping fresh = ground arith
Reach-Bookkeeping greeted = ground arith
Reach-Bookkeeping (next r st) = Step-Bookkeeping st (Reach-Bookkeeping r)
