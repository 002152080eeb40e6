-- ===== src/Sessions/UseCases/Replay.antt =====
-- What any sequence of the operations keeps of a used token and of a revoked session.
use verixa.Prelude.{
  ℕ, suc, String, true, List, [], ◌∷◌, Option, none, some, ◌≡◌, Bool-cases, inl, inr, ltb, length,
  sym,
}
use mathlib.Core.Option
use mathlib.Core.Path.{subst}
use verixa.Prelude.Blank.{is_blank}
use verixa.Prelude.Dict.{get}
use verixa.Sessions.Store.{Store}
use verixa.Sessions.Store.Revoked.{session_revoked, token_used, IsKeyed}
use verixa.Sessions.UseCases.{
  Env, NewToken, IssueSessionCommand, evict_until_under_limit, open_session, issue_session,
}
use verixa.Sessions.UseCases.Endings.{
  IsClosed, IfSome, evict_until-closed, logout-closed, logout_everywhere-closed,
  session_revoked-IsClosed, token_used-IsClosed, IsKeyed-IsClosed,
}
use verixa.Sessions.UseCases.Reuse.{
  Operation, refreshing, logging_out, logging_out_everywhere, issuing, stored_or, IsNewHash,
  IsNewId, Every, step, run, refused, found, refreshed, used-refresh_found, revoked-refresh_found,
  IsKeyed-refresh_found, used-open_session, revoked-open_session, IsKeyed-open_session,
}

pub issue-closed :
    (P : Store → Type 0)
    → IsClosed P
    → (env : Env) (sid : String) (new : NewToken) (now : ℕ) (c : IssueSessionCommand) (st : Store)
    → ((st' : Store) → P st' → P (open_session env sid new now c st').0)
    → P st
    → P (stored_or st (issue_session env sid new now c st))
unfolding issue_session
issue-closed P closed env sid new now c st opening h = elim (Bool-cases (is_blank c.user_id)) [
  | inl blank ↦ rw (blank, issue_session) h
  | inr named ↦ elim (Bool-cases (ltb 0 env.max_concurrent_sessions)) [
    | inr unlimited ↦ rw (named, unlimited, issue_session) (opening st h)
    | inl limited ↦
        rw (named, limited, issue_session)
          (after (evict_until_under_limit (suc (length st.sessions)) env c.user_id now st)
            (evict_until-closed P closed (suc (length st.sessions)) env c.user_id now st h))
  ]
]
  where
    after :
        (o : Option Store)
        → IfSome P o
        → P (stored_or st (Option.map (λ st'. open_session env sid new now c st') o))
    after none _ = h
    after (some st') k = opening st' k

module _ (env : Env) where
  pub step-used :
      (hash : String) (op : Operation) (now : ℕ) (st : Store)
      → IsNewHash env hash op
      → token_used hash st ≡ true
      → token_used hash (step env op now st) ≡ true
  unfolding step
  step-used hash (logging_out i u) now st f h =
      logout-closed _ (token_used-IsClosed hash) i u now st h
  step-used hash (logging_out_everywhere u) now st f h =
      logout_everywhere-closed _ (token_used-IsClosed hash) u now st h
  step-used hash (issuing sid new c) now st f h =
      issue-closed _ (token_used-IsClosed hash) env sid new now c st
        (λ st' h'. used-open_session env hash sid new now c st' f h') h
  step-used hash (refreshing new raw) now st f h = elim (refreshed env new now raw st) [
    | refused e ↦ rw (e, step) h
    | found t s _ _ e ↦ rw (e, step) (used-refresh_found env hash new now t s st f h)
  ]

  pub step-IsKeyed :
      (op : Operation) (now : ℕ) (st : Store) → IsKeyed st → IsKeyed (step env op now st)
  unfolding step
  step-IsKeyed (logging_out i u) now st h = logout-closed _ IsKeyed-IsClosed i u now st h
  step-IsKeyed (logging_out_everywhere u) now st h =
      logout_everywhere-closed _ IsKeyed-IsClosed u now st h
  step-IsKeyed (issuing sid new c) now st h =
      issue-closed _ IsKeyed-IsClosed env sid new now c st
        (λ st' h'. IsKeyed-open_session env sid new now c st' h') h
  step-IsKeyed (refreshing new raw) now st h = elim (refreshed env new now raw st) [
    | refused e ↦ rw (e, step) h
    | found t s _ _ e ↦ rw (e, step) (IsKeyed-refresh_found env new now t s st h)
  ]

  pub step-revoked :
      (id : String) (op : Operation) (now : ℕ) (st : Store)
      → IsNewId id op
      → IsKeyed st
      → session_revoked id st ≡ true
      → session_revoked id (step env op now st) ≡ true
  unfolding step
  step-revoked id (logging_out i u) now st f k h =
      logout-closed _ (session_revoked-IsClosed id) i u now st h
  step-revoked id (logging_out_everywhere u) now st f k h =
      logout_everywhere-closed _ (session_revoked-IsClosed id) u now st h
  step-revoked id (issuing sid new c) now st f k h =
      issue-closed _ (session_revoked-IsClosed id) env sid new now c st
        (λ st' h'. revoked-open_session env id sid new now c st' f h') h
  step-revoked id (refreshing new raw) now st f k h = elim (refreshed env new now raw st) [
    | refused e ↦ rw (e, step) h
    | found t s _ l e ↦
        rw (e, step)
          (revoked-refresh_found env id new now t s st h
            (subst (λ key. get key st.sessions ≡ some s) (sym (k.at_key t.session_id s l)) l))
  ]

  pub run-used :
      (hash : String) (ops : List (Operation × ℕ)) (st : Store)
      → Every (IsNewHash env hash) ops
      → token_used hash st ≡ true
      → token_used hash (run env ops st) ≡ true
  unfolding run
  run-used hash [] st f h = h
  run-used hash ((op, now) ∷ ops) st f h =
      run-used hash ops (step env op now st) f.1 (step-used hash op now st f.0 h)

  pub run-IsKeyed :
      (ops : List (Operation × ℕ)) (st : Store) → IsKeyed st → IsKeyed (run env ops st)
  unfolding run
  run-IsKeyed [] st h = h
  run-IsKeyed ((op, now) ∷ ops) st h =
      run-IsKeyed ops (step env op now st) (step-IsKeyed op now st h)

  pub run-revoked :
      (id : String) (ops : List (Operation × ℕ)) (st : Store)
      → Every (IsNewId id) ops
      → IsKeyed st
      → session_revoked id st ≡ true
      → session_revoked id (run env ops st) ≡ true
  unfolding run
  run-revoked id [] st f k h = h
  run-revoked id ((op, now) ∷ ops) st f k h =
      run-revoked id ops (step env op now st) f.1 (step-IsKeyed op now st k)
        (step-revoked id op now st f.0 k h)
