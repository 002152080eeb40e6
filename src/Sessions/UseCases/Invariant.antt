-- ===== src/Sessions/UseCases/Invariant.antt =====
-- The shape of the store that every operation keeps: sessions and tokens under their own keys.
use verixa.Prelude.{ℕ, String, List, [], ◌∷◌, arith, eq_iff}
use verixa.Prelude.Dict.{set, get-set}
use verixa.Sessions.RefreshToken.{RefreshToken, mark_used}
use verixa.Sessions.Session.{Session}
use verixa.Sessions.Store.{Store, save_refresh_token, revoke_all_for_user}
use verixa.Sessions.Store.Revoked.{IsKeyed}
use verixa.Sessions.UseCases.{
  Env, NewToken, IssueSessionCommand, refresh_found, open_session, issued,
}
use verixa.Sessions.UseCases.Endings.{IsClosed, logout-closed, logout_everywhere-closed}
use verixa.Sessions.UseCases.Reuse.{
  Operation, refreshing, logging_out, logging_out_everywhere, issuing, step, run, refused, found,
  refreshed,
}
use verixa.Sessions.UseCases.Replay.{issue-closed, run-IsKeyed}
use verixa.Sessions.UseCases.Rotation.{IsHashed}

save-IsHashed : (t : RefreshToken) (st : Store) → IsHashed st → IsHashed (save_refresh_token t st)
save-IsHashed t st h = record {
  at_hash = λ k u e.
      ground (arith, get-set t.token_hash k t st.tokens, eq_iff t.token_hash k, h.at_hash k u);
}

IsHashed-IsClosed : IsClosed IsHashed
unfolding revoke_all_for_user
IsHashed-IsClosed = record {
  denying = λ _ _ _ h. record { at_hash = h.at_hash };
  revoking = λ _ _ _ h. record { at_hash = h.at_hash };
  recording = λ _ _ h. record { at_hash = h.at_hash };
  revoking_all = λ _ _ _ h. record { at_hash = h.at_hash };
}

module _ (env : Env) where
  IsHashed-refresh_found :
      (new : NewToken) (now : ℕ) (t : RefreshToken) (s : Session) (st : Store)
      → IsHashed st
      → IsHashed (refresh_found env new now t s st).0
  unfolding refresh_found
  IsHashed-refresh_found new now t s st h =
      let saved =
        save-IsHashed (issued env new s.id now) (save_refresh_token (mark_used now t) st)
          (save-IsHashed (mark_used now t) st h) in
      record { at_hash = λ k u e. ground (arith, h.at_hash k u, saved.at_hash k u) }

  IsHashed-open_session :
      (sid : String) (new : NewToken) (now : ℕ) (c : IssueSessionCommand) (st : Store)
      → IsHashed st
      → IsHashed (open_session env sid new now c st).0
  unfolding open_session set
  IsHashed-open_session sid new now c st h = record {
    at_hash = (save-IsHashed (issued env new sid now) st h).at_hash;
  }

  step-IsHashed :
      (op : Operation) (now : ℕ) (st : Store) → IsHashed st → IsHashed (step env op now st)
  unfolding step
  step-IsHashed (logging_out i u) now st h = logout-closed _ IsHashed-IsClosed i u now st h
  step-IsHashed (logging_out_everywhere u) now st h =
      logout_everywhere-closed _ IsHashed-IsClosed u now st h
  step-IsHashed (issuing sid new c) now st h =
      issue-closed _ IsHashed-IsClosed env sid new now c st
        (λ st' k. IsHashed-open_session sid new now c st' k) h
  step-IsHashed (refreshing new raw) now st h = elim (refreshed env new now raw st) [
    | refused e ↦ rw (e, step) h
    | found t s _ _ e ↦ rw (e, step) (IsHashed-refresh_found new now t s st h)
  ]

run-IsHashed :
    (env : Env) (ops : List (Operation × ℕ)) (st : Store) → IsHashed st → IsHashed (run env ops st)
unfolding run
run-IsHashed env [] st h = h
run-IsHashed env ((op, now) ∷ ops) st h =
    run-IsHashed env ops (step env op now st) (step-IsHashed env op now st h)

-- When in a store every session stands under its own identifier and every refresh token under
-- its own hash, this is so after any sequence of refreshes, logouts, logouts everywhere and new
-- sessions, at any times.
pub run_keeps_keys :
    (env : Env) (ops : List (Operation × ℕ)) (st : Store)
    → IsKeyed st
    → IsHashed st
    → IsKeyed (run env ops st) × IsHashed (run env ops st)
run_keeps_keys env ops st k h = (run-IsKeyed env ops st k, run-IsHashed env ops st h)
