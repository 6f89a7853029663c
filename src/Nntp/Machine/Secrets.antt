-- ===== src/Nntp/Machine/Secrets.antt =====
-- What a server has to say before the machine counts as authenticated, or as in a group.
use bergamot.Prelude.{ap, ◌∙◌, ℕ, ◌≡◌, refl, sym, ◌⊎◌, inl, inr, true, false, none, some, arith}
use bergamot.Text.{Text}
use bergamot.Nntp.Response.{NntpResponse, parse_response, ok}
use bergamot.Nntp.Machine.Defs.{
  ProtoError, Input, response_line, State, await_greeting, idle, await_auth_user, await_auth_pass,
  await_group, await_stat, await_body_response, await_starttls_response, await_starttls_greeting,
  await_pipelined_group_response, await_pipelined_body_response, await_compress_response, done,
  NntpMachine,
}
use bergamot.Nntp.Machine.Rules.{on_line_rule, on_line-inv}
use bergamot.Nntp.Machine.{
  handle_input, dispatch, on_line, fail, greeting, auth_user, auth_pass, group_response,
  stat_response, pipelined_group, body_response, starttls_response, compress_response,
}

-- A line of the server, with its code.
pub record Says (code : ℕ) (i : Input) : Type 0 where
  pub line : Text
  pub response : NntpResponse
  pub is_line : i ≡ response_line line
  pub parses : parse_response line ≡ ok response
  pub has_code : response.code ≡ code

abbrev Login : State → Input → Type 0
Login s i = Says 281 i × ((s ≡ await_auth_user) ⊎ (s ≡ await_auth_pass))

-- The flag of a machine did not go up.
abbrev Unproved : NntpMachine → Type 0
Unproved m = m.is_authenticated ≡ false

greeting-Unproved : (m : NntpMachine) (r : NntpResponse) → Unproved m → Unproved (greeting m r)
unfolding greeting
greeting-Unproved m r u = ground arith

group_response-Unproved :
    (m : NntpMachine) (r : NntpResponse) → Unproved m → Unproved (group_response m r)
unfolding group_response
group_response-Unproved m r u = ground arith

stat_response-Unproved :
    (m : NntpMachine) (r : NntpResponse) → Unproved m → Unproved (stat_response m r)
unfolding stat_response
stat_response-Unproved m r u = ground arith

pipelined_group-Unproved :
    (m : NntpMachine) (r : NntpResponse) → Unproved m → Unproved (pipelined_group m r)
unfolding pipelined_group
pipelined_group-Unproved m r u = ground arith

body_response-Unproved :
    (m : NntpMachine) (r : NntpResponse) → Unproved m → Unproved (body_response m r)
unfolding body_response
body_response-Unproved m r u = ground arith

starttls_response-Unproved :
    (m : NntpMachine) (r : NntpResponse) → Unproved m → Unproved (starttls_response m r)
unfolding starttls_response
starttls_response-Unproved m r u = ground arith

compress_response-Unproved :
    (m : NntpMachine) (r : NntpResponse) → Unproved m → Unproved (compress_response m r)
unfolding compress_response
compress_response-Unproved m r u = ground arith

login :
    (s : State) (line : Text) (good : NntpResponse → NntpMachine) (bad : ProtoError → NntpMachine)
    {m' : NntpMachine}
    → (s ≡ await_auth_user) ⊎ (s ≡ await_auth_pass)
    → ((r : NntpResponse) → (good r).is_authenticated ≡ true → r.code ≡ 281)
    → ((e : ProtoError) → Unproved (bad e))
    → on_line line good bad ≡ some m'
    → m'.is_authenticated ≡ true
    → Login s (response_line line)
login s line good bad at hg hb h up = elim (on_line-inv line good bad h) [
  | inl (r, p, e) ↦ (
    record {
      line = line;
      response = r;
      is_line = refl;
      parses = p;
      has_code = hg r (ap (λ (n : NntpMachine). n.is_authenticated) (sym e) ∙ up);
    },
    at,
  )
  | inr (err, e) ↦ absurd (let f = hb err in cc)
]

dispatch-Login :
    (s : State) (i : Input) (m : NntpMachine) {m' : NntpMachine}
    → Unproved m
    → dispatch s i m ≡ some m'
    → m'.is_authenticated ≡ true
    → Login s i
unfolding dispatch
dispatch-Login await_greeting (response_line line) m {m'} u h up =
    let down : Unproved m' =
      on_line_rule Unproved line (greeting m) done m (λ r. greeting-Unproved m r u) (λ e. u) h in
    cc
dispatch-Login await_auth_user (response_line line) m u h up =
    login await_auth_user line (auth_user m) (fail done (record m { pending_password = none }))
      (inl refl) (λ r a. unfold auth_user in ground arith) (λ e. u) h up
dispatch-Login await_auth_pass (response_line line) m u h up =
    login await_auth_pass line (auth_pass m) (fail done m) (inr refl)
      (λ r a. unfold auth_pass in ground arith) (λ e. u) h up
dispatch-Login await_group (response_line line) m {m'} u h up =
    let down : Unproved m' =
      on_line_rule Unproved line (group_response m) done (record m { pending_group = none })
        (λ r. group_response-Unproved m r u) (λ e. u) h in
    cc
dispatch-Login await_stat (response_line line) m {m'} u h up =
    let down : Unproved m' =
      on_line_rule Unproved line (stat_response m) done m (λ r. stat_response-Unproved m r u)
        (λ e. u) h in
    cc
dispatch-Login await_pipelined_group_response (response_line line) m {m'} u h up =
    let down : Unproved m' =
      on_line_rule Unproved line (pipelined_group m) done
        (record m { pending_group = none; pending_message_id = none })
        (λ r. pipelined_group-Unproved m r u) (λ e. u) h in
    cc
dispatch-Login await_pipelined_body_response (response_line line) m {m'} u h up =
    let down : Unproved m' =
      on_line_rule Unproved line (body_response m) done (record m { pending_message_id = none })
        (λ r. body_response-Unproved m r u) (λ e. u) h in
    cc
dispatch-Login await_body_response (response_line line) m {m'} u h up =
    let down : Unproved m' =
      on_line_rule Unproved line (body_response m) done (record m { pending_message_id = none })
        (λ r. body_response-Unproved m r u) (λ e. u) h in
    cc
dispatch-Login await_starttls_response (response_line line) m {m'} u h up =
    let down : Unproved m' =
      on_line_rule Unproved line (starttls_response m) done m
        (λ r. starttls_response-Unproved m r u) (λ e. u) h in
    cc
dispatch-Login await_starttls_greeting (response_line line) m {m'} u h up =
    let down : Unproved m' =
      on_line_rule Unproved line (greeting m) done m (λ r. greeting-Unproved m r u) (λ e. u) h in
    cc
dispatch-Login await_compress_response (response_line line) m {m'} u h up =
    let down : Unproved m' =
      on_line_rule Unproved line (compress_response m) idle m
        (λ r. compress_response-Unproved m r u) (λ e. u) h in
    cc
dispatch-Login s i m u h up = ground arith

-- An input makes a machine authenticated only if it is a line of the server with code 281 that
-- answers AUTHINFO USER or AUTHINFO PASS.
pub handle_input-login :
    (m : NntpMachine) (i : Input) {m' : NntpMachine}
    → m.is_authenticated ≡ false
    → handle_input m i ≡ some m'
    → m'.is_authenticated ≡ true
    → Says 281 i × ((m.state ≡ await_auth_user) ⊎ (m.state ≡ await_auth_pass))
unfolding handle_input
handle_input-login m i u h up = dispatch-Login m.state i m u h up
