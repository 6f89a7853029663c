-- ===== src/Nntp/Machine/Rules.antt =====
-- The case rule of a handled response line.
use bergamot.Prelude.{◌≡◌, refl, ◌⊎◌, inl, inr, some, subst}
use bergamot.Text.{Text}
use bergamot.Nntp.Response.{NntpResponse, Parsed, ok, invalid, panicked, parse_response}
use bergamot.Nntp.Machine.Defs.{
  ProtoError, protocol_error, invalid_response_line, State, NntpMachine,
}
use bergamot.Nntp.Machine.{settle, on_line, fail}

module _ {ℓ} (P : NntpMachine → Type ℓ) where
  settle_rule :
      (p : Parsed) (good : NntpResponse → NntpMachine) (bad : ProtoError → NntpMachine)
      {m' : NntpMachine}
      → ((r : NntpResponse) → P (good r))
      → ((e : ProtoError) → P (bad e))
      → settle p good bad ≡ some m'
      → P m'
  settle_rule (ok r) good bad {m'} hg hb h = let e : good r ≡ m' = cc in subst P e (hg r)
  settle_rule invalid good bad {m'} hg hb h =
      let why = protocol_error invalid_response_line in
      let e : bad why ≡ m' = cc in subst P e (hb why)
  settle_rule panicked good bad hg hb h = cc

  pub on_line_rule :
      (line : Text) (good : NntpResponse → NntpMachine) (s : State) (n : NntpMachine)
      {m' : NntpMachine}
      → ((r : NntpResponse) → P (good r))
      → ((e : ProtoError) → P (fail s n e))
      → on_line line good (fail s n) ≡ some m'
      → P m'
  on_line_rule line good s n hg hb h = settle_rule (parse_response line) good (fail s n) hg hb h

-- What a handled line came from.
settle-inv :
    (p : Parsed) (good : NntpResponse → NntpMachine) (bad : ProtoError → NntpMachine)
    {m' : NntpMachine}
    → settle p good bad ≡ some m'
    → ((r : NntpResponse) × (p ≡ ok r) × (m' ≡ good r)) ⊎ ((e : ProtoError) × (m' ≡ bad e))
settle-inv (ok r) good bad h = inl (r, refl, cc)
settle-inv invalid good bad h = inr (protocol_error invalid_response_line, cc)
settle-inv panicked good bad h = cc

pub on_line-inv :
    (line : Text) (good : NntpResponse → NntpMachine) (bad : ProtoError → NntpMachine)
    {m' : NntpMachine}
    → on_line line good bad ≡ some m'
    → ((r : NntpResponse) × (parse_response line ≡ ok r) × (m' ≡ good r))
      ⊎ ((e : ProtoError) × (m' ≡ bad e))
on_line-inv line = settle-inv (parse_response line)
