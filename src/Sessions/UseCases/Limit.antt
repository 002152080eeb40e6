-- ===== src/Sessions/UseCases/Limit.antt =====
-- packages/sessions/application/use-cases/issue-session.ts: the rounds of the eviction loop and the
-- limit on active sessions.
use verixa.Prelude.{
  ℕ, zero, suc, ◌+◌, ◌≤◌, ◌<◌, String, true, false, List, [], ◌∷◌, Option, none, some, ◌≡◌, refl,
  arith, ltb, length, All, Bool-cases, inl, inr, ap, ◌∙◌,
}
use verixa.Prelude.Dict.{set}
use verixa.Prelude.Blank.{is_blank}
use verixa.Kernel.Result.{Result, is_ok}
use verixa.Sessions.Session
use verixa.Sessions.Session.{Session, «open»}
use verixa.Sessions.Store.{Store, is_active_of, find_active_by_user_id}
use verixa.Sessions.Store.Counting.{
  IsMap, IsFound, actives, set-IsMap, length-actives-set, length-actives-set_le, length-actives_le,
  find_active-All, length-find_active,
}
use verixa.Sessions.UseCases.{
  Env, NewToken, IssueSessionCommand, IssuedSession, UseCaseError, evict, evict_until_under_limit,
  open_session, issue_session,
}

evict-sessions :
    (env : Env) (user_id : String) (now : ℕ) (s : Session) (st : Store)
    → is_active_of user_id s ≡ true
    → (evict env user_id now s st).sessions ≡ set s.id (Session.revoke now s) st.sessions
unfolding evict
evict-sessions env user_id now s st a = ground arith

evict-IsMap :
    (env : Env) (user_id : String) (now : ℕ) (s : Session) (st : Store)
    → IsMap st.sessions
    → IsMap (evict env user_id now s st).sessions
unfolding evict
evict-IsMap env user_id now s st h = set-IsMap (Session.revoke now s) st.sessions h

evict-fewer :
    (env : Env) (user_id : String) (now : ℕ) (s : Session) (st : Store)
    → IsFound user_id st.sessions s
    → length (actives user_id (evict env user_id now s st).sessions) + 1
      ≡ length (actives user_id st.sessions)
evict-fewer env user_id now s st f =
    ap (λ m. length (actives user_id m) + 1) (evict-sessions env user_id now s st f.1)
    ∙ length-actives-set user_id s (Session.revoke now s) st.sessions f.0 f.1 (ground arith)

-- What the loop gives: a store under the limit.
pub record IsUnder (env : Env) (user_id : String) (o : Option Store) : Type 0 where
  pub store : Store
  pub returned : o ≡ some store
  pub map : IsMap store.sessions
  pub under : length (actives user_id store.sessions) < env.max_concurrent_sessions

evict_until-IsUnder :
    (fuel : ℕ) (env : Env) (user_id : String) (now : ℕ) (st : Store)
    → IsMap st.sessions
    → 0 < env.max_concurrent_sessions
    → length (actives user_id st.sessions) < fuel
    → IsUnder env user_id (evict_until_under_limit fuel env user_id now st)
unfolding evict_until_under_limit
evict_until-IsUnder zero env user_id now st h p f = absurd (omega arith)
evict_until-IsUnder (suc fuel) env user_id now st h p f =
    elim (Bool-cases
      (ltb (length (find_active_by_user_id user_id st)) env.max_concurrent_sessions)) [
        | inl under ↦ record {
          store = st;
          returned = rw (under, evict_until_under_limit);
          map = h;
          under = ground (arith, length-find_active user_id st);
        }
        | inr full ↦
            rw (full, evict_until_under_limit)
              (by_oldest (find_active_by_user_id user_id st) (find_active-All user_id st h)
                (ground arith)
                (λ s g.
                  evict_until-IsUnder fuel env user_id now (evict env user_id now s st)
                    (evict-IsMap env user_id now s st h) p
                    (omega (arith, evict-fewer env user_id now s st g))))
      ]
  where
    by_oldest :
        (l : List Session)
        → All (IsFound user_id st.sessions) l
        → 1 ≤ length l
        → ((s : Session)
            → IsFound user_id st.sessions s
            → IsUnder env user_id
                (evict_until_under_limit fuel env user_id now (evict env user_id now s st)))
        → IsUnder env user_id (elim l [
          | [] ↦ none
          | oldest ∷ _ ↦
              evict_until_under_limit fuel env user_id now (evict env user_id now oldest st)
        ])
    by_oldest [] a n k = absurd (omega arith)
    by_oldest (s ∷ l) a n k = k s a.0

-- With a positive limit on concurrent sessions, a user identifier that is not blank, and a store
-- in which each session stands under its own identifier and none stands twice, a login does not
-- run out of the rounds that its eviction loop is given, succeeds, and leaves the user with at
-- most as many active sessions as the limit.
pub issue_session_within_limit :
    (env : Env) (session_id : String) (new : NewToken) (now : ℕ) (c : IssueSessionCommand)
    (st : Store)
    → IsMap st.sessions
    → is_blank c.user_id ≡ false
    → 0 < env.max_concurrent_sessions
    → (r : Store × Result IssuedSession UseCaseError) × (issue_session env session_id new now c st
        ≡ some r)
      × (is_ok r.1 ≡ true)
      × (length (find_active_by_user_id c.user_id r.0) ≤ env.max_concurrent_sessions)
unfolding issue_session open_session «open»
issue_session_within_limit env session_id new now c st h b p =
    let u =
      evict_until-IsUnder (suc (length st.sessions)) env c.user_id now st h p
        (omega (arith, length-actives_le c.user_id st.sessions)) in
    (
      open_session env session_id new now c u.store,
      ground (arith, u.returned),
      refl,
      omega (
        arith,
        u.under,
        length-find_active c.user_id (open_session env session_id new now c u.store).0,
        length-actives-set_le c.user_id session_id
            (Session.«open» session_id c.user_id env.policy c.ip_address c.user_agent now)
            u.store.sessions,
      ),
    )
