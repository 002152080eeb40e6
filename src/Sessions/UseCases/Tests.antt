-- ===== src/Sessions/UseCases/Tests.antt =====
-- A user with two sessions, whose tokens are their own digests, refreshes, replays a token and logs out.
use verixa.Prelude.{
  length, ◌≤◌, ℕ, List, [], ◌∷◌, none, some, ◌≡◌, ◌≢◌, ◌↔◌, eq_iff, refl, arith, true,
}
use verixa.Prelude.Dict.{get, set}
use verixa.Prelude.Blank.{is_blank}
use verixa.Kernel.Result.{Result, err, is_ok}
use verixa.Sessions.Policy.{SessionExpiryPolicy}
use verixa.Sessions.Session.{Session, is_active}
use verixa.Sessions.RefreshToken.{RefreshToken, issue}
use verixa.Sessions.Store.{Store, is_denied, find_active_by_user_id}
use verixa.Sessions.Store.Revoked.{session_revoked, IsKeyed}
use verixa.Sessions.UseCases.Invariant.{run_keeps_keys}
use verixa.Sessions.UseCases.Limit.{issue_session_within_limit}
use verixa.Sessions.UseCases.{
  IssueSessionCommand, IssuedSession, UseCaseError, issue_session, Env, NewToken, authentication,
  refresh_found, refresh_access_token, logout, logout_session,
}
use verixa.Sessions.UseCases.Reuse.{Operation, refreshing, logging_out_everywhere, run}
use verixa.Sessions.UseCases.Closing.{revoked_session_closed, logout_closes}
use verixa.Sessions.UseCases.Rotation.{
  IsHashed, CanRotate, replay_refused, reuse_revokes, refresh-ok_iff,
}

abbrev policy : SessionExpiryPolicy
policy = record {
  refresh_token_ttl_ms = 40;
  access_token_ttl_ms = 10;
  absolute_lifetime_ms = 80;
  idle_timeout_ms = 20;
}

abbrev env : Env
env = record {
  hash_token = λ raw. raw;
  sign = λ session_id user_id seconds. session_id;
  policy = policy;
  max_concurrent_sessions = 5;
}

abbrev laptop : Session
laptop = record {
  id = "s1";
  user_id = "ann";
  created_at = 100;
  last_seen_at = 100;
  expires_at = 180;
  ip_address = none;
  user_agent = none;
  revoked_at = none;
  domain_events = [];
}

abbrev revoked_laptop : Session
revoked_laptop = record laptop { revoked_at = some 105 }

abbrev token : RefreshToken
token = record {
  id = "t1";
  session_id = "s1";
  token_hash = "raw1";
  created_at = 100;
  expires_at = 140;
  used_at = none;
  revoked_at = none;
}

abbrev used_token : RefreshToken
used_token = record token { used_at = some 104 }

abbrev stored : Session → RefreshToken → Store
stored s t = record {
  sessions = (s.id, s) ∷ [];
  tokens = (t.token_hash, t) ∷ [];
  revoked_until = [];
  evictions = [];
}

abbrev second : NewToken
second = record { id = "t2"; raw = "raw2" }

abbrev third : NewToken
third = record { id = "t3"; raw = "raw3" }

abbrev later_operations : List (Operation × ℕ)
later_operations = (refreshing third "raw2", 108) ∷ (logging_out_everywhere "bob", 109) ∷ []

stored-IsKeyed : (s : Session) (t : RefreshToken) → IsKeyed (stored s t)
unfolding get
stored-IsKeyed s t = record { at_key = λ k v h. ground (arith, eq_iff s.id k) }

stored-IsHashed : IsHashed (stored laptop token)
unfolding get
stored-IsHashed = record { at_hash = λ k v h. ground (arith, eq_iff token.token_hash k) }

raw2_new : env.hash_token second.raw ≢ token.token_hash
raw2_new e = ground (arith, eq_iff "raw2" "raw1")

raw3_new : env.hash_token third.raw ≢ token.token_hash
raw3_new e = ground (arith, eq_iff "raw3" "raw1")

replay_refused_example :
    (refresh_access_token env third 110 "raw1" (
      run env later_operations
        (refresh_access_token env second 105 "raw1" (stored laptop token)).0)).1
    ≡ err authentication
unfolding refresh_found is_active issue get set refresh_access_token
replay_refused_example =
    replay_refused env second third 105 110 "raw1" (stored laptop token)
      (record { access_token = "s1"; refresh_token = "raw2" }) later_operations stored-IsHashed
      raw2_new (raw3_new, (tt, tt)) refl

revoked_session_closed_example :
    (refresh_access_token env third 110 "raw1" (run env [] (stored revoked_laptop token))).1
    ≡ err authentication
unfolding get run
revoked_session_closed_example =
    revoked_session_closed env third 110 "raw1" (stored revoked_laptop token) [] token
      (stored-IsKeyed revoked_laptop token) refl tt refl

reuse_revokes_example :
    ((refresh_access_token env third 110 "raw1" (stored laptop used_token)).1 ≡ err authentication)
    × (session_revoked "s1" (refresh_access_token env third 110 "raw1" (stored laptop used_token)).0
        ≡ true)
    × (is_denied "s1" 119 (refresh_access_token env third 110 "raw1" (stored laptop used_token)).0
        ≡ true)
unfolding get
reuse_revokes_example =
    reuse_revokes env third 110 "raw1" (stored laptop used_token) used_token laptop 119 refl refl
      refl refl (omega arith)

logout_closes_example :
    (refresh_access_token env third 110 "raw1"
      (run env [] (logout "s1" none 105 (stored laptop token)).0)).1
    ≡ err authentication
unfolding get run is_blank logout logout_session
logout_closes_example =
    logout_closes env third 105 110 "raw1" (stored laptop token) none laptop [] token
      (stored-IsKeyed laptop token) refl refl tt refl

refresh-ok_iff_example :
    (is_ok (refresh_access_token env second 105 "raw1" (stored laptop token)).1 ≡ true)
    ↔ CanRotate env 105 "raw1" (stored laptop token)
refresh-ok_iff_example = refresh-ok_iff env second 105 "raw1" (stored laptop token)

abbrev one_each : Env
one_each = record env { max_concurrent_sessions = 1 }

abbrev login_of_ann : IssueSessionCommand
login_of_ann = record { user_id = "ann"; ip_address = none; user_agent = none }

issue_session_within_limit_example :
    (r : Store × Result IssuedSession UseCaseError) × (issue_session one_each "s2" second 105
        login_of_ann
        (stored laptop token)
      ≡ some r)
    × (is_ok r.1 ≡ true)
    × (length (find_active_by_user_id "ann" r.0) ≤ 1)
unfolding is_blank get
issue_session_within_limit_example =
    issue_session_within_limit one_each "s2" second 105 login_of_ann (stored laptop token)
      (refl, refl, tt) refl (omega arith)

run_keeps_keys_example :
    IsKeyed (run env later_operations (stored laptop token))
    × IsHashed (run env later_operations (stored laptop token))
run_keeps_keys_example =
    run_keeps_keys env later_operations (stored laptop token) (stored-IsKeyed laptop token)
      stored-IsHashed
